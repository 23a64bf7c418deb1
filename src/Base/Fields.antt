-- ===== src/Base/Fields.antt =====
-- base.cpp: `TlvAppend` and `TlvToStringMap`, texts under tags in a handshake.
--
-- A tag and a length take 16 bytes each, filled up with blanks. The map is a list of tags with their values;
-- its order is not observed. `atoi` is `strtol` cut to an `int`; 16 digits do not overflow a `long`.
pub mod RoundTrip
use supertools_public.Common.{
  ℕ, zero, suc, ◌+◌, ◌-◌, ◌%◌, ◌^◌, Bool, true, false, ◌&&◌, ◌||◌, Option, none, some, List, [],
  ◌∷◌, ◌++◌, ltb, leb, ◌==◌, if◌then◌else◌, length, take, drop, replicate, str_eq,
}
use supertools_public.Common.Decimal.{digits, strtol}

abbrev pub tlv_tag_len : ℕ
tlv_tag_len = 16

abbrev pub tlv_val_len : ℕ
tlv_val_len = 16

abbrev pub tlv_min_len : ℕ
tlv_min_len = tlv_tag_len + tlv_val_len

-- `append(LEN - len, ' ')`, where the text is shorter.
abbrev pub pad : ℕ → List ℕ → List ℕ
pad len s = s ++ replicate (len - length s) b' '

-- `std::to_string` of a size: a `size_t` has 20 digits at most.
unfoldable pub size_string : ℕ → List ℕ
size_string n = digits 20 n []

unfoldable pub tlv_append : List ℕ → List ℕ → List ℕ → Bool × List ℕ
tlv_append tlv tag val =
    if length tag == 0
    then (false, tlv)
    else (true, tlv ++ (pad tlv_tag_len tag ++ (pad tlv_val_len (size_string (length val)) ++ val)))

abbrev pub has_prefix : List ℕ → List ℕ → Bool
has_prefix [] s = true
has_prefix (c ∷ cs) [] = false
has_prefix (c ∷ cs) (d ∷ ds) = c == d && has_prefix cs ds

-- The loop of `TrimSubString`, from `pos` on; `substr` is not empty, so the length is fuel enough.
unfoldable pub trim_loop : ℕ → List ℕ → List ℕ → List ℕ
trim_loop zero sub s = s
trim_loop (suc fuel) sub [] = []
trim_loop (suc fuel) sub (c ∷ cs) =
    let found = trim_loop fuel sub (drop (length sub) (c ∷ cs)) in
    let rest = trim_loop fuel sub cs in if has_prefix sub (c ∷ cs) then found else c ∷ rest

abbrev pub trim_sub_string : List ℕ → List ℕ → List ℕ
trim_sub_string s sub = trim_loop (length s) sub s

-- None is a negative number.
abbrev pub int_of : Bool × ℕ × List ℕ → Option ℕ
int_of (negative, value, rest) =
    let word = if negative then (2 ^ 32 - value % 2 ^ 32) % 2 ^ 32 else value % 2 ^ 32 in
    if leb (2 ^ 31) word then none else some word

abbrev pub atoi : List ℕ → Option ℕ
atoi s = int_of (strtol s)

abbrev pub TlvMap : Type 0
TlvMap = List (List ℕ × List ℕ)

-- `tlvmap[tag] = val`.
abbrev pub set_tag : List ℕ → List ℕ → TlvMap → TlvMap
set_tag tag val [] = (tag, val) ∷ []
set_tag tag val ((t, v) ∷ m) =
    let rest = set_tag tag val m in if str_eq tag t then (t, val) ∷ m else (t, v) ∷ rest

-- The value of a turn, with the loop on what stands behind it.
abbrev pub take_value :
    (List ℕ → TlvMap → Bool × TlvMap) → List ℕ → List ℕ → TlvMap → Option ℕ → Bool × TlvMap
take_value loop tag tlv m none = (false, m)
take_value loop tag tlv m (some len) =
    if ltb (length tlv) len then (false, m) else loop (drop len tlv) (set_tag tag (take len tlv) m)

-- The loop of `TlvToStringMap`; a turn takes 32 bytes or more.
unfoldable pub fields_loop : ℕ → List ℕ → TlvMap → Bool × TlvMap
fields_loop zero tlv m = (true, m)
fields_loop (suc fuel) tlv m =
    let tag = trim_sub_string (take tlv_tag_len tlv) (b' ' ∷ []) in
    let vallen = trim_sub_string (take tlv_val_len (drop tlv_tag_len tlv)) (b' ' ∷ []) in
    if ltb (length tlv) tlv_min_len
    then (true, m)
    else take_value (fields_loop fuel) tag (drop tlv_val_len (drop tlv_tag_len tlv)) m (atoi vallen)

unfoldable pub tlv_to_string_map : List ℕ → TlvMap → Bool × TlvMap
tlv_to_string_map tlv m =
    if ltb (length tlv) tlv_min_len then (false, m) else fields_loop (suc (length tlv)) tlv m
