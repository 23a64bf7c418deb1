-- ===== src/Common/Bytes.antt =====
-- Fixed-width integers in memory, little and big endian.
use Prim.Native.Nat.{ℕ, ◌+◌, ◌*◌, ◌/◌, ◌%◌, ◌^◌, ◌<◌}
use mathlib.Core.List.{List, [], ◌∷◌}
use supertools_public.Common.Lists.{get_or}

abbrev pub IsByte : ℕ → Type 0
IsByte b = b < 256

abbrev pub IsU32 : ℕ → Type 0
IsU32 n = n < 2 ^ 32

-- A `uint32_t` stored by a little-endian machine, and the `uint32_t` read back at the front of `b`.
-- A byte behind the end counts as 0; the callers check the size first.
abbrev pub le32 : ℕ → List ℕ
le32 n = n % 256 ∷ n / 256 % 256 ∷ n / 65536 % 256 ∷ n / 16777216 % 256 ∷ []

abbrev pub read_le32 : List ℕ → ℕ
read_le32 b = get_or b 0 0 + get_or b 1 0 * 256 + get_or b 2 0 * 65536 + get_or b 3 0 * 16777216

-- Network order: `htonl`, `htons` and their inverses on a little-endian machine.
abbrev pub be32 : ℕ → List ℕ
be32 n = n / 16777216 % 256 ∷ n / 65536 % 256 ∷ n / 256 % 256 ∷ n % 256 ∷ []

abbrev pub read_be32 : List ℕ → ℕ
read_be32 b = get_or b 0 0 * 16777216 + get_or b 1 0 * 65536 + get_or b 2 0 * 256 + get_or b 3 0

abbrev pub be16 : ℕ → List ℕ
be16 n = n / 256 % 256 ∷ n % 256 ∷ []

abbrev pub read_be16 : List ℕ → ℕ
read_be16 b = get_or b 0 0 * 256 + get_or b 1 0
