-- ===== src/Serial/Message/Padded.antt =====
-- serial_struct_define.h: `ParseFromString` on a serialized message with zeros behind it.
use supertools_public.Common.{
  ℕ, zero, suc, ◌+◌, ◌<◌, ◌≡◌, refl, sym, ap, ◌∙◌, subst, some, List, [], ◌∷◌, ◌++◌, append_assoc,
  arith, length, replicate, length-append, length-replicate,
}
use supertools_public.Serial.Varint.{read_varint32}
use supertools_public.Serial.Message.{
  Message, serialize, write_message, serialize_to_string, read_message, parse_from_string,
}
use supertools_public.Serial.Message.RoundTrip.{
  FitsAll, Distinct, Absent, Apart, Apart-nil, Apart-snoc, Absent-FitsAll, read_fields-Absent,
  read_message_step, serialize_nonempty,
}

-- A byte 0 is a key without a tag, which no field has.
read_message-zeros :
    (fuel k : ℕ) (m : Message)
    → Absent 0 m
    → k < fuel
    → read_message fuel m (replicate k 0) ≡ some m
unfolding read_message read_varint32
read_message-zeros zero k m a lt = absurd (omega arith)
read_message-zeros (suc fuel) zero m a lt = refl
read_message-zeros (suc fuel) (suc k) m a lt =
    rw (read_fields-Absent 0 0 m (replicate k 0) a) (read_message-zeros fuel k m a (omega arith))

read_message-padded :
    (fuel k : ℕ) (pre fs gs : Message)
    → FitsAll fs gs
    → Distinct gs
    → Apart pre gs
    → Absent 0 (pre ++ gs)
    → length (write_message gs) + k < fuel
    → read_message fuel (pre ++ fs) (write_message gs ++ replicate k 0) ≡ some (pre ++ gs)
unfolding write_message
read_message-padded zero k pre fs gs h d a z lt = absurd (omega arith)
read_message-padded (suc fuel) k pre [] [] h d a z lt =
    read_message-zeros (suc fuel) k (pre ++ []) z (omega arith)
read_message-padded (suc fuel) k pre (f ∷ fs) (g ∷ gs) h d a z lt =
    let zs : List ℕ = replicate k 0 in
    ap (read_message (suc fuel) (pre ++ f ∷ fs)) (append_assoc (serialize g) (write_message gs) zs)
    ∙ read_message_step fuel pre fs f g (write_message gs ++ zs) h.0 h.1 h.2 a.0
        (Absent-FitsAll g.tag fs gs h.3 d.0)
    ∙ ap (λ m. read_message fuel m (write_message gs ++ zs)) (sym (append_assoc pre (g ∷ []) fs))
    ∙ read_message-padded fuel k (pre ++ g ∷ []) fs gs h.3 d.1 (Apart-snoc pre gs g a.1 d.0)
        (subst (Absent 0) (sym (append_assoc pre (g ∷ []) gs)) z)
        (omega (arith, length-append (serialize g) (write_message gs), serialize_nonempty g h.1))
    ∙ ap some (append_assoc pre (g ∷ []) gs)
read_message-padded (suc fuel) k pre [] (g ∷ gs) h d a z lt = absurd h
read_message-padded (suc fuel) k pre (f ∷ fs) [] h d a z lt = absurd h

pub parse_from_string-padded :
    (k : ℕ) (shape message : Message)
    → FitsAll shape message
    → Distinct message
    → Absent 0 message
    → parse_from_string shape (serialize_to_string message ++ replicate k 0) ≡ some message
unfolding parse_from_string
parse_from_string-padded k shape message h d z =
    read_message-padded (suc (length (serialize_to_string message ++ replicate k 0))) k [] shape
      message h d (Apart-nil message) z
      (omega (
        arith,
        length-append (serialize_to_string message) (replicate k 0),
        length-replicate {A = ℕ} k 0,
      ))
