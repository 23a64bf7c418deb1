-- ===== src/Base/Fields/RoundTrip.antt =====
-- base.cpp: `TlvToStringMap` on what `TlvAppend` makes.
use supertools_public.Common.{
  ℕ, zero, suc, ◌+◌, ◌-◌, ◌^◌, ◌≤◌, ◌<◌, ◌≡◌, refl, sym, ap, ◌∙◌, ◌≢◌, true, false, some, List, [],
  ◌∷◌, ◌++◌, append-nil, append_assoc, arith, ltb, ◌==◌, ==_ne, All, length, replicate,
  length-append, length-replicate, take_prefix, drop_prefix,
}
use supertools_public.Common.Decimal.{
  IsDigits, strtol_digits, strtol_digits-digits, digits-IsDigits, length-digits, digits_some,
  strtol-IsDigits,
}
use supertools_public.Base.Fields.{
  pad, size_string, tlv_append, trim_loop, trim_sub_string, int_of, atoi, TlvMap, set_tag,
  fields_loop, tlv_to_string_map,
}

-- A tag that comes back: 1 to 16 characters without a blank.
abbrev pub IsTag : List ℕ → Type 0
IsTag t = (0 < length t) × (length t ≤ 16) × All (λ c. c ≢ b' ') t

trim_blanks : (f k : ℕ) → k ≤ f → trim_loop f (b' ' ∷ []) (replicate k b' ') ≡ []
unfolding trim_loop
trim_blanks zero zero h = refl
trim_blanks zero (suc k) h = absurd (omega arith)
trim_blanks (suc f) zero h = refl
trim_blanks (suc f) (suc k) h = trim_blanks f k (omega arith)

passes :
    (f c : ℕ) (s : List ℕ)
    → c ≢ b' '
    → trim_loop (suc f) (b' ' ∷ []) (c ∷ s) ≡ c ∷ trim_loop f (b' ' ∷ []) s
unfolding trim_loop
passes f c s h = rw (==_ne b' ' c (λ e. h (sym e))) refl

trim_padded :
    (f k : ℕ) (s : List ℕ)
    → All (λ c. c ≢ b' ') s
    → length s + k ≤ f
    → trim_loop f (b' ' ∷ []) (s ++ replicate k b' ') ≡ s
trim_padded f k [] a h = trim_blanks f k (omega arith)
trim_padded zero k (c ∷ s) a h = absurd (omega arith)
trim_padded (suc f) k (c ∷ s) a h =
    passes f c (s ++ replicate k b' ') a.0 ∙ ap (◌∷◌ c) (trim_padded f k s a.1 (omega arith))

length-pad : (s : List ℕ) → length s ≤ 16 → length (pad 16 s) ≡ 16
length-pad s h = omega (
  arith,
  length-append s (replicate (16 - length s) b' '),
  length-replicate {A = ℕ} (16 - length s) b' ',
)

trim-pad :
    (s : List ℕ)
    → All (λ c. c ≢ b' ') s
    → length s ≤ 16
    → trim_sub_string (pad 16 s) (b' ' ∷ []) ≡ s
trim-pad s a h = trim_padded (length (pad 16 s)) (16 - length s) s a (omega (arith, length-pad s h))

digits_plain : (s : List ℕ) → IsDigits s → All (λ c. c ≢ b' ') s
digits_plain [] a = tt
digits_plain (c ∷ s) a = ((λ e. ground (arith, a.0)), digits_plain s a.1)

size_string_shape :
    (n : ℕ)
    → n < 2 ^ 31
    → IsDigits (size_string n) × (length (size_string n) ≤ 16) × (0 < length (size_string n))
unfolding size_string
size_string_shape n h = (
  digits-IsDigits 20 n [] tt,
  omega (arith, length-digits 20 16 n [] (omega arith) (omega arith)),
  omega (arith, digits_some 19 n []),
)

size_string_value : (n : ℕ) → n < 2 ^ 31 → strtol_digits 0 (size_string n) ≡ (n, [])
unfolding size_string
size_string_value n h = strtol_digits-digits 20 n [] (omega arith)

-- A value has fewer than 2 ^ 31 bytes.
atoi-size_string : (n : ℕ) → n < 2 ^ 31 → atoi (size_string n) ≡ some n
atoi-size_string n h =
    let (d, l, p) = size_string_shape n h in
    ap int_of (
      strtol-IsDigits (size_string n) d p
      ∙ ap (λ (q : ℕ × List ℕ). (false, q.0, q.1)) (size_string_value n h))
    ∙ ground arith

-- A tag and a value as they stand in the text.
abbrev entry : List ℕ → List ℕ → List ℕ
entry tag val = pad 16 tag ++ (pad 16 (size_string (length val)) ++ val)

abbrev pub IsField : List ℕ × List ℕ → Type 0
IsField (t, v) = IsTag t × (length v < 2 ^ 31)

fields_loop-entry :
    (f : ℕ) (t v rest : List ℕ) (m : TlvMap)
    → IsField (t, v)
    → fields_loop (suc f) (entry t v ++ rest) m ≡ fields_loop f rest (set_tag t v m)
unfolding fields_loop
fields_loop-entry f t v rest m ((p, l, plain), n) =
    let s = size_string (length v) in
    let (d, k, q) = size_string_shape (length v) n in
    let a = pad 16 t in
    let b = pad 16 s in
    let la : 16 ≡ length a = sym (length-pad t l) in
    let lb : 16 ≡ length b = sym (length-pad s k) in
    let whole : entry t v ++ rest ≡ a ++ (b ++ (v ++ rest)) =
      append_assoc a (b ++ v) rest ∙ ap (◌++◌ a) (append_assoc b v rest) in
    rw whole (
      rw
        (
          take_prefix 16 a (b ++ (v ++ rest)) la,
          drop_prefix 16 a (b ++ (v ++ rest)) la,
          take_prefix 16 b (v ++ rest) lb,
          drop_prefix 16 b (v ++ rest) lb,
          trim-pad t plain l,
          trim-pad s (digits_plain s d) k,
          atoi-size_string (length v) n,
          take_prefix (length v) v rest refl,
          drop_prefix (length v) v rest refl,
        )
        (ground (
          arith,
          length-append a (b ++ (v ++ rest)),
          length-append b (v ++ rest),
          length-append v rest,
        )))

-- The fields appended one after the other, and set one after the other.
abbrev pub append_all : List ℕ → TlvMap → List ℕ
append_all tlv [] = tlv
append_all tlv ((t, v) ∷ fs) = append_all (tlv_append tlv t v).1 fs

abbrev pub set_all : TlvMap → TlvMap → TlvMap
set_all m [] = m
set_all m ((t, v) ∷ fs) = set_all (set_tag t v m) fs

abbrev entries : TlvMap → List ℕ
entries [] = []
entries ((t, v) ∷ fs) = entry t v ++ entries fs

append_all-entries :
    (tlv : List ℕ) (fs : TlvMap) → All IsField fs → append_all tlv fs ≡ tlv ++ entries fs
unfolding tlv_append
append_all-entries tlv [] a = sym (append-nil tlv)
append_all-entries tlv ((t, v) ∷ fs) a =
    let some_tag : (length t == 0) ≡ false = ground (arith, a.0.0.0) in
    rw some_tag
      (append_all-entries (tlv ++ entry t v) fs a.1 ∙ append_assoc tlv (entry t v) (entries fs))

length-entry : (t v : List ℕ) → IsField (t, v) → 32 ≤ length (entry t v)
length-entry t v ((p, l, plain), n) =
    let s = size_string (length v) in
    omega (
      arith,
      length-append (pad 16 t) (pad 16 s ++ v),
      length-append (pad 16 s) v,
      length-pad t l,
      length-pad s (size_string_shape (length v) n).1,
    )

fields_loop-entries :
    (f : ℕ) (fs m : TlvMap)
    → All IsField fs
    → length (entries fs) < f
    → fields_loop f (entries fs) m ≡ (true, set_all m fs)
fields_loop-entries zero fs m a h = absurd (omega arith)
fields_loop-entries (suc f) [] m a h = unfold fields_loop in refl
fields_loop-entries (suc f) ((t, v) ∷ fs) m a h =
    fields_loop-entry f t v (entries fs) m a.0
    ∙ fields_loop-entries f fs (set_tag t v m) a.1
        (omega (arith, length-append (entry t v) (entries fs), length-entry t v a.0))

-- One or more tags of 1 to 16 characters without a blank, with values of fewer than 2 ^ 31 bytes, appended
-- one after the other with `TlvAppend`: `TlvToStringMap` succeeds and sets exactly these tags to their
-- values, in this order, whatever the map held before.
pub tlv_to_string_map-append_all :
    (f : List ℕ × List ℕ) (fs m : TlvMap)
    → IsField f
    → All IsField fs
    → tlv_to_string_map (append_all [] (f ∷ fs)) m ≡ (true, set_all m (f ∷ fs))
unfolding tlv_to_string_map
tlv_to_string_map-append_all (t, v) fs m h a =
    let all = entries ((t, v) ∷ fs) in
    let long : ltb (length all) 32 ≡ false =
      ground (arith, length-append (entry t v) (entries fs), length-entry t v h) in
    rw (append_all-entries [] ((t, v) ∷ fs) (h, a))
      (rw (long) (fields_loop-entries (suc (length all)) ((t, v) ∷ fs) m (h, a) (omega arith)))
