-- ===== src/Transfer/Buffers.antt =====
-- circle_buffer.cpp: `CircleBuffer`, the pool of the transfer's buffers.
--
-- A buffer is known by its address, the key of `buffers_`, which is kept in order. `held` are the addresses
-- that `Malloc` has given out and that `Free` has not had back. The mutex makes each operation one step.
pub mod Exclusive
use supertools_public.Common.{
  ℕ, ◌-◌, Bool, true, false, not, ◌&&◌, ◌||◌, Option, none, some, List, [], ◌∷◌, ltb, ◌==◌,
  if◌then◌else◌, Map, find, put, Option,
}

-- `begin` is a time in seconds.
pub record Data : Type 0 where
  pub used : Bool
  pub begin : ℕ

pub record CircleBuffer : Type 0 where
  pub buffers : Map Data
  pub held : List ℕ

abbrev pub use_data : ℕ → Data
use_data now = record { used = true; begin = now }

abbrev pub behind_used : ℕ × Data → Option (ℕ × Map Data) → Option (ℕ × Map Data)
behind_used kd none = none
behind_used kd (some r) = some (r.0, kd ∷ r.1)

-- The first buffer that is not used, taken.
unfoldable pub take_unused : ℕ → Map Data → Option (ℕ × Map Data)
take_unused now [] = none
take_unused now ((k, d) ∷ m) =
    let rest = behind_used (k, d) (take_unused now m) in
    if d.used then rest else some (k, (k, use_data now) ∷ m)

-- `fresh` is what `new` gives; none if it fails.
abbrev pub new_buffer : ℕ → Option ℕ → CircleBuffer → Option ℕ × CircleBuffer
new_buffer now none c = (none, c)
new_buffer now (some k) c =
    (some k, record { buffers = put k (use_data now) c.buffers; held = k ∷ c.held })

abbrev pub malloc_from :
    ℕ → Option ℕ → CircleBuffer → Option (ℕ × Map Data) → Option ℕ × CircleBuffer
malloc_from now fresh c none = new_buffer now fresh c
malloc_from now fresh c (some r) = (some r.0, record { buffers = r.1; held = r.0 ∷ c.held })

unfoldable pub malloc : ℕ → Option ℕ → CircleBuffer → Option ℕ × CircleBuffer
unfolding take_unused
malloc now fresh c = malloc_from now fresh c (take_unused now c.buffers)

abbrev pub remove : ℕ → List ℕ → List ℕ
remove k [] = []
remove k (i ∷ is) = let rest = remove k is in if k == i then rest else i ∷ rest

abbrev pub release : ℕ → ℕ → Option Data → CircleBuffer → CircleBuffer
release now k none c = c
release now k (some d) c = record {
  buffers = put k (record { used = false; begin = now }) c.buffers;
  held = remove k c.held;
}

unfoldable pub free : ℕ → ℕ → CircleBuffer → CircleBuffer
free now k c = release now k (find k c.buffers) c

abbrev pub decrease_time : ℕ
decrease_time = 5

-- The loop of `FreeMemory`.
unfoldable pub sweep : ℕ → Map Data → Map Data
sweep now [] = []
sweep now ((k, d) ∷ m) =
    let rest = sweep now m in
    if not d.used && ltb decrease_time (now - d.begin) then rest else (k, d) ∷ rest

unfoldable pub free_memory : ℕ → CircleBuffer → CircleBuffer
unfolding sweep
free_memory now c = record c { buffers = sweep now c.buffers }
