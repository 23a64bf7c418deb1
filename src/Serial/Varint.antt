-- ===== src/Serial/Varint.antt =====
-- serial_struct_define.h: variable-length integers, tag keys and zigzag values.
pub mod RoundTrip
use supertools_public.Common.{
  ℕ, zero, suc, ◌+◌, ◌*◌, ◌/◌, ◌%◌, ◌^◌, Bool, true, false, List, [], ◌∷◌, ◌++◌, ltb, ◌==◌,
  if◌then◌else◌,
}

-- `WriteVarint`: `n` rounds are left, and `b` holds the bytes set so far. `b[i]` is written once, with
-- or without its top bit. If the rounds end before the value, nothing is written.
unfoldable pub write_varint_loop : ℕ → ℕ → List ℕ → List ℕ
write_varint_loop zero value b = []
write_varint_loop (suc n) value b =
    let rest = write_varint_loop n (value / 128) (b ++ ((value % 128 + 128) ∷ [])) in
    if value / 128 == 0 then b ++ (value % 128 ∷ []) else rest

-- The overload for `uint32_t`: at most 5 bytes.
unfoldable pub write_varint32 : ℕ → List ℕ
unfolding write_varint_loop
write_varint32 value = write_varint_loop 5 value []

-- The overload for `uint64_t`: at most 10 bytes.
unfoldable pub write_varint64 : ℕ → List ℕ
unfolding write_varint_loop
write_varint64 value = write_varint_loop 10 value []

-- `ReadVarint`: `n` rounds are left, `c` are done, and `w` is the width. The bytes below bit `7 * c`
-- are the only ones set in `value`, so `|=` is a sum; what is shifted past the width is lost. The
-- result is success, `value` as it was left, and the input that was not read.
unfoldable pub read_varint_loop : ℕ → ℕ → ℕ → ℕ → List ℕ → Bool × ℕ × List ℕ
read_varint_loop w zero c value input = (false, value, input)
read_varint_loop w (suc n) c value [] = (false, value, [])
read_varint_loop w (suc n) c value (x ∷ input) =
    let value' = value + x % 128 * 2 ^ (7 * c) % 2 ^ w in
    let rest = read_varint_loop w n (c + 1) value' input in
    if ltb x 128 then (true, value', input) else rest

unfoldable pub read_varint32 : List ℕ → Bool × ℕ × List ℕ
unfolding read_varint_loop
read_varint32 input = read_varint_loop 32 5 0 0 input

unfoldable pub read_varint64 : List ℕ → Bool × ℕ × List ℕ
unfolding read_varint_loop
read_varint64 input = read_varint_loop 64 10 0 0 input
