-- ===== src/Tlv.antt =====
-- tlv.cpp: `TlvBuf`, a set of tagged values and its bytes.
--
-- A tag and a length are `uint32_t` in the machine's order, which is taken to be little-endian. A null
-- pointer is not modelled, and allocation succeeds.
pub mod Parse
pub mod RoundTrip
mod Tests
use supertools_public.Common.{
  ℕ, zero, suc, ◌+◌, ◌-◌, ◌*◌, ◌%◌, ◌^◌, Bool, true, false, not, ◌&&◌, ◌||◌, Option, none, some,
  List, [], ◌∷◌, ◌++◌, ltb, ◌==◌, if◌then◌else◌, length, take, drop, Map, find, has, put,
}
use supertools_public.Common.Bytes.{le32, read_le32}

abbrev pub tlv_head_size : ℕ
tlv_head_size = 8

abbrev pub tlv_value_max_len : ℕ
tlv_value_max_len = 16 * 1024 * 1024

pub record TlvBuf : Type 0 where
  pub tlv_map : Map (List ℕ)
  pub valid_tags : List ℕ

-- A new object.
abbrev pub empty_buf : TlvBuf
empty_buf = record { tlv_map = []; valid_tags = [] }

abbrev pub is_empty : Map (List ℕ) → Bool
is_empty [] = true
is_empty (_ ∷ _) = false

-- `Clear` returns at once if there is no value, and then keeps the valid tags.
unfoldable pub clear : TlvBuf → TlvBuf
clear b = if is_empty b.tlv_map then b else empty_buf

unfoldable pub append : ℕ → List ℕ → TlvBuf → Bool × TlvBuf
append tag val b =
    if length val == 0 || ltb tlv_value_max_len (length val)
    then (false, b)
    else if has tag b.tlv_map
    then (false, b)
    else (true, record b { tlv_map = put tag val b.tlv_map })

-- The loop of the constructor: `rest` is what stands from `pos` on.
unfoldable pub parse_loop : ℕ → List ℕ → TlvBuf → TlvBuf
unfolding append clear
parse_loop zero rest b = b
parse_loop (suc fuel) [] b = b
parse_loop (suc fuel) (x ∷ xs) b =
    let rest = x ∷ xs in
    let tag = read_le32 rest in
    let len = read_le32 (drop 4 rest) in
    let val = drop tlv_head_size rest in
    let (ok, b') = append tag (take len val) b in
    let parsed = parse_loop fuel (drop len val) b' in
    if ltb (length rest) tlv_head_size
    then clear b
    else if len == 0 || ltb (length val) len
    then clear b
    else if ok
    then parsed
    else clear b'

-- The constructor from bytes. A turn takes more than a head, so the fuel is enough.
abbrev pub parse : List ℕ → TlvBuf
parse tlvs = parse_loop (length tlvs) tlvs (clear empty_buf)

-- The constructor from bytes and valid tags.
abbrev pub parse_valid : List ℕ → List ℕ → TlvBuf
parse_valid tlvs valid_tags = record (parse tlvs) { valid_tags = valid_tags }

-- `FindTlv` into a new array.
unfoldable pub find_tlv : ℕ → TlvBuf → Option (List ℕ)
find_tlv tag b = elim (find tag b.tlv_map) [
  | none ↦ none
  | some v ↦ if length v == 0 || ltb tlv_value_max_len (length v) then none else some v
]

abbrev pub member : ℕ → List ℕ → Bool
member tag [] = false
member tag (t ∷ ts) = let rest = member tag ts in if tag == t then true else rest

abbrev pub invalid_in : Map (List ℕ) → List ℕ → Bool
invalid_in [] tags = false
invalid_in ((t, v) ∷ m) tags = let rest = invalid_in m tags in if member t tags then rest else true

unfoldable pub contain_invalid_tag : TlvBuf → Bool
contain_invalid_tag b = elim b.valid_tags [ [] ↦ false | _ ∷ _ ↦ invalid_in b.tlv_map b.valid_tags ]

-- A `uint32_t` sum.
unfoldable pub size_from : ℕ → Map (List ℕ) → ℕ
size_from size [] = size
size_from size ((t, v) ∷ m) = size_from (((size + tlv_head_size) % 2 ^ 32 + length v) % 2 ^ 32) m

abbrev pub get_buf_size : TlvBuf → ℕ
get_buf_size b = size_from 0 b.tlv_map

-- `memcpy_s` into `room` bytes copies nothing, and fails, if they are none or too few.
abbrev pub fits : ℕ → ℕ → Bool
fits room n = not (room == 0) && not (ltb room n)

-- The loop of `CopyToBuf`, with the bytes that it writes from `pos` on.
unfoldable pub copy_loop : ℕ → ℕ → Map (List ℕ) → Bool × List ℕ
copy_loop size pos [] = (true, [])
copy_loop size pos ((t, v) ∷ m) =
    let at = (pos + 8) % 2 ^ 32 in
    let (ok, rest) = copy_loop size ((at + length v) % 2 ^ 32) m in
    let head = le32 t ++ le32 (length v) in
    if fits ((size + (2 ^ 32 - at)) % 2 ^ 32) (length v)
    then (ok, head ++ v ++ rest)
    else (false, head)

unfoldable pub copy_to_buf : ℕ → TlvBuf → Bool × List ℕ
unfolding copy_loop size_from
copy_to_buf size b = if ltb size (get_buf_size b) then (false, []) else copy_loop size 0 b.tlv_map
