-- ===== src/Credential.antt =====
-- credential_message.cpp: the messages between the tool and the credential service.
--
-- A message is one digit of version, three of method, four of length, and the body. `strtol` and
-- `std::to_string` are the C and C++ standards'; an `int` that is read from at most four characters does not
-- overflow. The parameter of `snprintf_s` `%s` ends at a byte 0.
pub mod RoundTrip
mod Tests
use supertools_public.Common.Decimal.{digits, is_digit, strtol}
use supertools_public.Common.{
  ℕ, zero, suc, ◌+◌, ◌-◌, ◌*◌, ◌/◌, ◌%◌, Bool, true, false, not, ◌&&◌, ◌||◌, List, [], ◌∷◌, ◌++◌,
  ltb, leb, ◌==◌, if◌then◌else◌, length, take, drop, get_or, replicate,
}

-- An `int`.
pub data ℤ : Type 0 where
  pos negsuc : ℕ → ℤ

pub record CredentialMessage : Type 0 where
  pub message_version : ℕ
  pub message_method_type : ℤ
  pub message_body_len : ℤ
  pub message_body : List ℕ

abbrev pub blank_message : CredentialMessage
blank_message = record {
  message_version = 0;
  message_method_type = pos 0;
  message_body_len = pos 0;
  message_body = [];
}

abbrev pub message_str_max_len : ℕ
message_str_max_len = 1024

-- `std::to_string`: an `int` has ten digits at most.
abbrev pub to_string : ℤ → List ℕ
to_string (pos n) = digits 10 n []
to_string (negsuc n) = 45 ∷ digits 10 (n + 1) []

unfoldable pub int_to_string_with_padding : ℤ → ℕ → List ℕ
int_to_string_with_padding n max_len =
    let str = to_string n in
    if ltb max_len (length str) then [] else replicate (max_len - length str) 48 ++ str

abbrev pub all_digits : List ℕ → Bool
all_digits [] = true
all_digits (c ∷ cs) = is_digit c && all_digits cs

abbrev pub is_numeric : List ℕ → Bool
is_numeric [] = false
is_numeric (c ∷ cs) = all_digits (c ∷ cs)

-- What `c_str()` shows: the bytes before the first 0.
abbrev pub c_str : List ℕ → List ℕ
c_str [] = []
c_str (c ∷ cs) = let rest = c_str cs in if c == 0 then [] else c ∷ rest

abbrev pub skip_zeros : List ℕ → List ℕ
skip_zeros [] = []
skip_zeros (c ∷ cs) = let rest = skip_zeros cs in if c == 48 then rest else c ∷ cs

abbrev pub number_of : List ℕ → ℤ
number_of [] = pos 0
number_of (c ∷ cs) =
    let value = (strtol (c ∷ cs)).1 in if is_numeric (c ∷ cs) then pos value else negsuc 0

unfoldable pub strip_leading_zeros : List ℕ → ℤ
strip_leading_zeros input = number_of (skip_zeros input)

abbrev pub is_nil : List ℕ → Bool
is_nil [] = true
is_nil (_ ∷ _) = false

-- `Init` after the method: a length above the maximum, a negative one among them, is refused.
unfoldable pub init_body : List ℕ → CredentialMessage → CredentialMessage
init_body str m =
    let (negative, n, rest) = strtol (c_str (take 4 (drop 4 str))) in
    if not (is_nil rest)
    then m
    else if (negative && not (n == 0)) || ltb message_str_max_len n
    then m
    else if ltb (length str) (8 + n)
    then m
    else record m { message_body_len = pos n; message_body = take n (drop 8 str) }

unfoldable pub init : List ℕ → CredentialMessage → CredentialMessage
init str m =
    let version = get_or str 0 0 in
    let m' = record m {
      message_version = version - 48;
      message_method_type = strip_leading_zeros (take 3 (drop 1 str));
    } in
    if ltb (length str) 8
    then m
    else if leb 49 version && leb version 57
    then init_body str m'
    else m

unfoldable pub set_message_version : ℕ → CredentialMessage → CredentialMessage
set_message_version version m =
    if leb 1 version && leb version 9 then record m { message_version = version } else m

unfoldable pub set_message_body : List ℕ → CredentialMessage → CredentialMessage
set_message_body body m =
    if ltb message_str_max_len (length body)
    then m
    else record m { message_body = body; message_body_len = pos (length body) }

-- `Construct`: the text goes to a buffer of zeros, of which the first `totalLength` bytes are taken.
unfoldable pub construct : CredentialMessage → List ℕ
unfolding int_to_string_with_padding
construct m =
    let method = int_to_string_with_padding m.message_method_type 3 in
    let body_len = int_to_string_with_padding m.message_body_len 4 in
    let text = (48 + m.message_version) % 256 ∷ (method ++ body_len ++ c_str m.message_body) in
    let total_length = 8 + length m.message_body in
    if not (length method == 3)
    then []
    else if is_nil body_len || ltb 4 (length body_len)
    then []
    else take total_length (text ++ replicate total_length 0)
