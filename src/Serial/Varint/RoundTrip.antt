-- ===== src/Serial/Varint/RoundTrip.antt =====
-- serial_struct_define.h: `WriteVarint` and `ReadVarint` together.
use native.Mathlib.Nat.{div-add-mod, mod-eq_of_lt}
use native.Mathlib.Numerals.{towards_suc}
use supertools_public.Common.{
  ℕ, zero, suc, ◌+◌, ◌*◌, ◌/◌, ◌%◌, ◌^◌, ◌≤◌, ◌<◌, ◌≡◌, ap, ◌∙◌, true, List, All, [], ◌∷◌, ◌++◌,
  append_assoc, arith, ◌==◌, if◌then◌else◌, length,
}
use supertools_public.Common.Bytes.{IsByte}
use supertools_public.Serial.Varint.{
  write_varint_loop, write_varint32, write_varint64, read_varint_loop, read_varint32, read_varint64,
}

-- The groups of seven bits, lowest first, each but the last with its top bit set.
groups : ℕ → ℕ → List ℕ
groups zero v = []
groups (suc n) v =
    let rest = groups n (v / 128) in if v / 128 == 0 then v % 128 ∷ [] else (v % 128 + 128) ∷ rest

write_varint_loop-groups :
    (n v : ℕ) (b : List ℕ) → v < 128 ^ suc n → write_varint_loop (suc n) v b ≡ b ++ groups (suc n) v
unfolding write_varint_loop groups
write_varint_loop-groups zero v b h = ground arith
write_varint_loop-groups (suc n) v b h = ground (
  arith,
  write_varint_loop-groups n (v / 128) (b ++ ((v % 128 + 128) ∷ [])),
  append_assoc b ((v % 128 + 128) ∷ []) (groups (suc n) (v / 128)),
)

pow_step : (c : ℕ) → 2 ^ (7 * (c + 1)) ≡ 128 * 2 ^ (7 * c)
pow_step c = ap (λ (k : ℕ). 2 ^ k) (omega arith) ∙ shift (7 * c)
  where
    shift : (s : ℕ) → 2 ^ (s + 7) ≡ 128 * 2 ^ s
    shift s = simp towards_suc (omega arith)

split_group : (v p : ℕ) → v * p ≡ v % 128 * p + v / 128 * (128 * p)
split_group v p = omega (arith, ap (λ (t : ℕ). t * p) (div-add-mod v 128))

read_varint_loop-groups :
    (w n c v value : ℕ) (rest : List ℕ)
    → v < 128 ^ suc n
    → value + v * 2 ^ (7 * c) < 2 ^ w
    → read_varint_loop w (suc n) c value (groups (suc n) v ++ rest)
      ≡ (true, value + v * 2 ^ (7 * c), rest)
unfolding read_varint_loop groups
read_varint_loop-groups w zero c v value rest h fits =
    ground (arith, mod-eq_of_lt {n = v * 2 ^ (7 * c)} {m = 2 ^ w} (omega arith))
read_varint_loop-groups w (suc n) c v value rest h fits = ground (
  arith,
  split_group v (2 ^ (7 * c)),
  pow_step c,
  mod-eq_of_lt {n = v % 128 * 2 ^ (7 * c)} {m = 2 ^ w} (omega (arith, split_group v (2 ^ (7 * c)))),
  read_varint_loop-groups w n (c + 1) (v / 128) (value + v % 128 * 2 ^ (7 * c)) rest,
)

-- Reading what was written for a `uint32_t`, with any bytes behind it, succeeds with that value and
-- leaves exactly those bytes.
pub read_varint32-write_varint32 :
    (v : ℕ) (rest : List ℕ)
    → v < 2 ^ 32
    → read_varint32 (write_varint32 v ++ rest) ≡ (true, v, rest)
unfolding read_varint32 write_varint32
read_varint32-write_varint32 v rest h =
    ground (
      arith,
      write_varint_loop-groups 4 v [],
      read_varint_loop-groups 32 4 0 v 0 rest (omega arith),
    )

-- Reading what was written for a `uint64_t`, with any bytes behind it, succeeds with that value and
-- leaves exactly those bytes.
pub read_varint64-write_varint64 :
    (v : ℕ) (rest : List ℕ)
    → v < 2 ^ 64
    → read_varint64 (write_varint64 v ++ rest) ≡ (true, v, rest)
unfolding read_varint64 write_varint64
read_varint64-write_varint64 v rest h =
    ground (
      arith,
      write_varint_loop-groups 9 v [],
      read_varint_loop-groups 64 9 0 v 0 rest (omega arith),
    )

groups_shape :
    (n v : ℕ)
    → (1 ≤ length (groups (suc n) v))
      × (length (groups (suc n) v) ≤ suc n)
      × All IsByte (groups (suc n) v)
unfolding groups
groups_shape zero v = ground arith
groups_shape (suc n) v = ground (arith, groups_shape n (v / 128))

-- What is written for a `uint32_t` is 1 to 5 bytes.
pub write_varint32_shape :
    (v : ℕ)
    → v < 2 ^ 32
    → (1 ≤ length (write_varint32 v))
      × (length (write_varint32 v) ≤ 5)
      × All IsByte (write_varint32 v)
unfolding write_varint32
write_varint32_shape v h = ground (arith, write_varint_loop-groups 4 v [], groups_shape 4 v)

pub write_varint64_shape :
    (v : ℕ)
    → v < 2 ^ 64
    → (1 ≤ length (write_varint64 v))
      × (length (write_varint64 v) ≤ 10)
      × All IsByte (write_varint64 v)
unfolding write_varint64
write_varint64_shape v h = ground (arith, write_varint_loop-groups 9 v [], groups_shape 9 v)

read_varint_loop_takes :
    (w n c value : ℕ) (input : List ℕ)
    → let (good, _, rest) = read_varint_loop w n c value input in
      (length rest ≤ length input)
      × (length input ≤ length rest + n)
      × (good ≡ true → length rest < length input)
unfolding read_varint_loop
read_varint_loop_takes w zero c value input = (omega arith, omega arith, λ e. cc)
read_varint_loop_takes w (suc n) c value [] = (omega arith, omega arith, λ e. cc)
read_varint_loop_takes w (suc n) c value (x ∷ input) =
    ground (arith, read_varint_loop_takes w n (c + 1) (value + x % 128 * 2 ^ (7 * c) % 2 ^ w) input)

-- On any input at most 5 bytes are taken, and a success takes at least one.
pub read_varint32_takes :
    (input : List ℕ)
    → let (good, _, rest) = read_varint32 input in
      (length rest ≤ length input)
      × (length input ≤ length rest + 5)
      × (good ≡ true → length rest < length input)
unfolding read_varint32
read_varint32_takes input = read_varint_loop_takes 32 5 0 0 input

pub read_varint64_takes :
    (input : List ℕ)
    → let (_, _, rest) = read_varint64 input in
      (length rest ≤ length input) × (length input ≤ length rest + 10)
unfolding read_varint64
read_varint64_takes input =
    ((read_varint_loop_takes 64 10 0 0 input).0, (read_varint_loop_takes 64 10 0 0 input).1)
