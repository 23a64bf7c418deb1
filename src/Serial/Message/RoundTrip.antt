-- ===== src/Serial/Message/RoundTrip.antt =====
-- serial_struct_define.h: `ParseFromString` on what `SerializeToString` writes.
use supertools_public.Common.{
  ℕ, zero, suc, ◌-◌, ◌/◌, ◌%◌, ◌^◌, ◌≤◌, ◌<◌, ◌≡◌, ◌≢◌, refl, sym, ap, ◌∙◌, true, false, some, List,
  [], ◌∷◌, ◌++◌, append-nil, append_assoc, arith, length, length-append, take, replicate,
  take_prefix, drop_prefix, drop_all, length-take, length-replicate, All, All-append, ==_self,
  ==_ne,
}
use supertools_public.Serial.Varint.{write_varint32, write_varint64, read_varint32}
use supertools_public.Serial.Varint.RoundTrip.{
  read_varint32-write_varint32, read_varint64-write_varint64, write_varint32_shape,
}
use supertools_public.Serial.Message.{
  Cell, u8, u16, u32, u64, boolean, text, Field, Message, make_tag_wire_type, wire_type,
  write_payload, serialize, write_message, serialize_to_string, mem_max_len, string_read, resize,
  overwrite, parse_payload, parse, read_field, read_fields, read_message, parse_from_string,
}

-- The first cell has the type of the second, whose value is one of that type.
abbrev pub Fits : Cell → Cell → Type 0
Fits (u8 _) (u8 v) = v < 2 ^ 8
Fits (u16 _) (u16 v) = v < 2 ^ 16
Fits (u32 _) (u32 v) = v < 2 ^ 32
Fits (u64 _) (u64 v) = v < 2 ^ 64
Fits (boolean _) (boolean _) = Unit
Fits (text _) (text s) = length s ≤ mem_max_len
Fits _ _ = ⊥

resized_over : (s t : List ℕ) → overwrite s (resize (length s) t) ≡ s
resized_over s t =
    ap (◌++◌ s) (
      drop_all (length s) (resize (length s) t) (
        omega (
          arith,
          length-append (take (length s) t) (replicate (length s - length t) 0),
          length-take (length s) t,
          length-replicate {A = ℕ} (length s - length t) 0,
        )))
    ∙ append-nil s

parse_payload-write_payload :
    (c c' : Cell) (rest : List ℕ)
    → Fits c c'
    → parse_payload c (write_payload c' ++ rest) ≡ (c', rest)
unfolding parse_payload write_payload string_read
parse_payload-write_payload (u8 _) (u8 v) rest h =
    ground (arith, read_varint32-write_varint32 v rest)
parse_payload-write_payload (u16 _) (u16 v) rest h =
    ground (arith, read_varint32-write_varint32 v rest)
parse_payload-write_payload (u32 _) (u32 v) rest h =
    ground (arith, read_varint32-write_varint32 v rest)
parse_payload-write_payload (u64 _) (u64 v) rest h =
    ground (arith, read_varint64-write_varint64 v rest)
parse_payload-write_payload (boolean _) (boolean true) rest h =
    ground (arith, read_varint32-write_varint32 1 rest)
parse_payload-write_payload (boolean _) (boolean false) rest h =
    ground (arith, read_varint32-write_varint32 0 rest)
parse_payload-write_payload (text t) (text s) rest h = ground (
  arith,
  append_assoc (write_varint64 (length s)) s rest,
  read_varint64-write_varint64 (length s) (s ++ rest),
  take_prefix (length s) s rest,
  drop_prefix (length s) s rest,
  resized_over s t,
)
parse_payload-write_payload _ _ rest h = absurd h

wire_type-Fits : (c c' : Cell) → Fits c c' → wire_type c' ≡ wire_type c
wire_type-Fits (u8 _) (u8 v) h = refl
wire_type-Fits (u16 _) (u16 v) h = refl
wire_type-Fits (u32 _) (u32 v) h = refl
wire_type-Fits (u64 _) (u64 v) h = refl
wire_type-Fits (boolean _) (boolean _) h = refl
wire_type-Fits (text _) (text _) h = refl
wire_type-Fits _ _ h = absurd h

-- The value of `message` has the fields of `shape`, in order and in range, under tags that a key holds.
abbrev pub FitsAll : Message → Message → Type 0
FitsAll [] [] = Unit {0}
FitsAll (f ∷ fs) (g ∷ gs) = (f.tag ≡ g.tag) × (g.tag < 2 ^ 29) × Fits f.cell g.cell × FitsAll fs gs
FitsAll _ _ = ⊥

abbrev pub Absent : ℕ → Message → Type 0
Absent t = All (λ f. f.tag ≢ t)

abbrev pub Distinct : Message → Type 0
Distinct [] = Unit {0}
Distinct (f ∷ fs) = Absent f.tag fs × Distinct fs

pub Absent-FitsAll : (t : ℕ) (fs gs : Message) → FitsAll fs gs → Absent t gs → Absent t fs
Absent-FitsAll t [] [] h a = tt
Absent-FitsAll t (f ∷ fs) (g ∷ gs) h a = ((λ e. a.0 (sym h.0 ∙ e)), Absent-FitsAll t fs gs h.3 a.1)
Absent-FitsAll t [] (g ∷ gs) h a = absurd h
Absent-FitsAll t (f ∷ fs) [] h a = absurd h

pub read_fields-Absent :
    (t w : ℕ) (fs : Message) (input : List ℕ) → Absent t fs → read_fields t w fs input ≡ (fs, input)
unfolding read_fields read_field
read_fields-Absent t w [] input a = refl
read_fields-Absent t w (f ∷ fs) input a =
    rw (==_ne f.tag t a.0, read_fields-Absent t w fs input a.1)

read_fields-append :
    (t w : ℕ) (fs gs : Message) (input : List ℕ)
    → read_fields t w (fs ++ gs) input ≡ (
        let (fs', r) = read_fields t w fs input in
        let (gs', r') = read_fields t w gs r in (fs' ++ gs', r'))
unfolding read_fields
read_fields-append t w [] gs input = refl
read_fields-append t w (f ∷ fs) gs input =
    rw (read_fields-append t w fs gs (read_field t w f input).1)

-- A field's own bytes, behind its key, reach that field alone.
read_fields_hit :
    (pre post : Message) (f g : Field) (rest : List ℕ)
    → f.tag ≡ g.tag
    → Fits f.cell g.cell
    → Absent g.tag pre
    → Absent g.tag post
    → read_fields g.tag (wire_type g.cell) (pre ++ f ∷ post) (write_payload g.cell ++ rest)
      ≡ (pre ++ g ∷ post, rest)
unfolding read_fields read_field parse
read_fields_hit pre post f g rest e h a b =
    read_fields-append g.tag (wire_type g.cell) pre (f ∷ post) (write_payload g.cell ++ rest)
    ∙ rw (
      read_fields-Absent g.tag (wire_type g.cell) pre (write_payload g.cell ++ rest) a,
      e,
      ==_self g.tag,
      wire_type-Fits f.cell g.cell h,
      ==_self (wire_type f.cell),
      parse_payload-write_payload f.cell g.cell rest h,
      read_fields-Absent g.tag (wire_type g.cell) post rest b,
    )

key_parts :
    (f : Field)
    → f.tag < 2 ^ 29
    → let key = make_tag_wire_type f.tag (wire_type f.cell) in
      (key < 2 ^ 32) × (key / 8 ≡ f.tag) × (key % 8 ≡ wire_type f.cell)
key_parts f h = ground arith

-- One round of `ReadMessage` on the bytes of a field.
pub read_message_step :
    (fuel : ℕ) (pre post : Message) (f g : Field) (rest : List ℕ)
    → f.tag ≡ g.tag
    → g.tag < 2 ^ 29
    → Fits f.cell g.cell
    → Absent g.tag pre
    → Absent g.tag post
    → read_message (suc fuel) (pre ++ f ∷ post) (serialize g ++ rest)
      ≡ read_message fuel (pre ++ g ∷ post) rest
unfolding read_message serialize
read_message_step fuel pre post f g rest e lt h a b = ground (
  arith,
  append_assoc (write_varint32 (make_tag_wire_type g.tag (wire_type g.cell))) (write_payload g.cell)
      rest,
  key_parts g lt,
  read_varint32-write_varint32 (make_tag_wire_type g.tag (wire_type g.cell))
      (write_payload g.cell ++ rest),
  read_fields_hit pre post f g rest e h a b,
)

pub serialize_nonempty : (f : Field) → f.tag < 2 ^ 29 → 1 ≤ length (serialize f)
unfolding serialize
serialize_nonempty f h = omega (
  arith,
  length-append (write_varint32 (make_tag_wire_type f.tag (wire_type f.cell)))
      (write_payload f.cell),
  (write_varint32_shape (make_tag_wire_type f.tag (wire_type f.cell)) (key_parts f h).0).0,
)

Absent-append : (t : ℕ) (fs gs : Message) → Absent t fs → Absent t gs → Absent t (fs ++ gs)
Absent-append t fs gs = All-append (λ f. f.tag ≢ t) fs gs

-- None of the tags of the second message is one of the first.
abbrev pub Apart : Message → Message → Type 0
Apart pre = All (λ g. Absent g.tag pre)

pub Apart-snoc :
    (pre gs : Message) (g : Field) → Apart pre gs → Absent g.tag gs → Apart (pre ++ g ∷ []) gs
Apart-snoc pre [] g a b = tt
Apart-snoc pre (x ∷ gs) g a b =
    (Absent-append x.tag pre (g ∷ []) a.0 ((λ e. b.0 (sym e)), tt), Apart-snoc pre gs g a.1 b.1)

read_message-write_message :
    (fuel : ℕ) (pre fs gs : Message)
    → FitsAll fs gs
    → Distinct gs
    → Apart pre gs
    → length (write_message gs) < fuel
    → read_message fuel (pre ++ fs) (write_message gs) ≡ some (pre ++ gs)
unfolding write_message
read_message-write_message zero pre fs gs h d a lt = absurd (omega arith)
read_message-write_message (suc fuel) pre [] [] h d a lt = unfold read_message read_varint32 in refl
read_message-write_message (suc fuel) pre (f ∷ fs) (g ∷ gs) h d a lt =
    read_message_step fuel pre fs f g (write_message gs) h.0 h.1 h.2 a.0
      (Absent-FitsAll g.tag fs gs h.3 d.0)
    ∙ ap (λ m. read_message fuel m (write_message gs)) (sym (append_assoc pre (g ∷ []) fs))
    ∙ read_message-write_message fuel (pre ++ g ∷ []) fs gs h.3 d.1 (Apart-snoc pre gs g a.1 d.0)
        (omega (arith, length-append (serialize g) (write_message gs), serialize_nonempty g h.1))
    ∙ ap some (append_assoc pre (g ∷ []) gs)
read_message-write_message (suc fuel) pre [] (g ∷ gs) h d a lt = absurd h
read_message-write_message (suc fuel) pre (f ∷ fs) [] h d a lt = absurd h

pub Apart-nil : (gs : Message) → Apart [] gs
Apart-nil [] = tt
Apart-nil (g ∷ gs) = (tt, Apart-nil gs)

-- Parsing what was serialized from a message, into any message of the same fields, gives that message,
-- if the tags differ, fit a key, and every value is in the range of its type.
pub parse_from_string-serialize_to_string :
    (shape message : Message)
    → FitsAll shape message
    → Distinct message
    → parse_from_string shape (serialize_to_string message) ≡ some message
unfolding parse_from_string
parse_from_string-serialize_to_string shape message h d =
    read_message-write_message (suc (length (serialize_to_string message))) [] shape message h d
      (Apart-nil message) (omega arith)
