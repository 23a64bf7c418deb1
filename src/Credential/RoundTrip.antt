-- ===== src/Credential/RoundTrip.antt =====
-- credential_message.cpp: `Construct` and `Init` together.
use supertools_public.Common.{
  ℕ, ◌+◌, ◌/◌, ◌%◌, ◌<◌, ◌≤◌, ◌≡◌, refl, sym, ap, ◌∙◌, true, false, ◌&&◌, List, [], ◌∷◌, ◌++◌, ltb,
  leb, length, take_prefix, take_all, replicate, All, arith,
}
use supertools_public.Common.Decimal.{strtol}
use supertools_public.Credential.{
  pos, CredentialMessage, blank_message, message_str_max_len, int_to_string_with_padding, c_str,
  strip_leading_zeros, init_body, init, construct,
}

-- The last digits of a number.
abbrev pub three : ℕ → List ℕ
three n = (48 + n / 100 % 10) ∷ (48 + n / 10 % 10) ∷ (48 + n % 10) ∷ []

abbrev pub four : ℕ → List ℕ
four n = (48 + n / 1000 % 10) ∷ three n

pad_three : (n : ℕ) → n < 1000 → int_to_string_with_padding (pos n) 3 ≡ three n
unfolding int_to_string_with_padding
pad_three n h = ground arith

strip_three : (n : ℕ) → n < 1000 → strip_leading_zeros (three n) ≡ pos n
unfolding strip_leading_zeros
strip_three n h = ground arith

strtol-four : (n : ℕ) → n < 10000 → strtol (c_str (four n)) ≡ (false, n, [])
strtol-four n h = ground arith

pad_four : (n : ℕ) → n < 10000 → int_to_string_with_padding (pos n) 4 ≡ four n
unfolding int_to_string_with_padding
pad_four n h = ground arith

c_str_id : (xs : List ℕ) → All (λ c. 0 < c) xs → c_str xs ≡ xs
c_str_id [] h = refl
c_str_id (c ∷ cs) h = ground (arith, c_str_id cs)

-- The messages that the setters can make, with a method of at most three digits and a body without a byte 0.
abbrev pub IsMessage : CredentialMessage → ℕ → Type 0
IsMessage m method =
    (0 < m.message_version)
    × (m.message_version ≤ 9)
    × (m.message_method_type ≡ pos method)
    × (method < 1000)
    × (m.message_body_len ≡ pos (length m.message_body))
    × (length m.message_body ≤ message_str_max_len)
    × All (λ c. 0 < c) m.message_body

abbrev pub text : CredentialMessage → ℕ → List ℕ
text m method =
    (48 + m.message_version) ∷ (three method ++ four (length m.message_body) ++ m.message_body)

construct_lem : (m : CredentialMessage) (k : ℕ) → IsMessage m k → construct m ≡ text m k
unfolding construct
construct_lem m k (v, v', method, small, len, short, bytes) =
    rw
      (
        method,
        len,
        pad_three k small,
        pad_four (length m.message_body) (omega arith),
        c_str_id m.message_body bytes,
      )
      (let e : (48 + m.message_version) % 256 ≡ 48 + m.message_version = omega arith in
        rw e (
          take_prefix (8 + length m.message_body) (text m k)
            (replicate (8 + length m.message_body) 0) (omega arith)))

init_body-text :
    (m b : CredentialMessage) (k : ℕ)
    → length m.message_body ≤ message_str_max_len
    → init_body (text m k) b
      ≡ record b { message_body_len = pos (length m.message_body); message_body = m.message_body }
unfolding init_body
init_body-text m b k short =
    let n = length m.message_body in
    let short' : ltb message_str_max_len n ≡ false = ground arith in
    let enough : ltb (length (text m k)) (8 + n) ≡ false = ground arith in
    rw (strtol-four n (omega arith), short', enough, take_all n m.message_body (omega arith)) refl

message_ext :
    (m n : CredentialMessage)
    → m.message_version ≡ n.message_version
    → m.message_method_type ≡ n.message_method_type
    → m.message_body_len ≡ n.message_body_len
    → m.message_body ≡ n.message_body
    → m ≡ n
message_ext m n a b c d = cc

init-text : (m : CredentialMessage) (k : ℕ) → IsMessage m k → init (text m k) blank_message ≡ m
unfolding init
init-text m k (v, v', method, small, len, short, bytes) =
    let long : ltb (length (text m k)) 8 ≡ false = ground arith in
    let known : (leb 49 (48 + m.message_version) && leb (48 + m.message_version) 57) ≡ true =
      ground arith in
    rw (long, known, strip_three k small, init_body-text m _ k short)
      (message_ext _ m (omega arith) (sym method) (sym len) refl)

-- A message with a version of 1 to 9, a method below 1000, a body of at most 1024 bytes, none of them 0, and
-- the body's length: `Init`, on a new object, makes the same message of what `Construct` writes.
pub init-construct :
    (m : CredentialMessage) (method : ℕ) → IsMessage m method → init (construct m) blank_message ≡ m
init-construct m method h =
    ap (λ s. init s blank_message) (construct_lem m method h) ∙ init-text m method h
