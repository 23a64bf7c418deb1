-- ===== src/Transfer/Buffers/Exclusive.antt =====
-- circle_buffer.cpp: who has a buffer, over any sequence of the pool's events.
use supertools_public.Common.{
  ℕ, ◌+◌, ◌≡◌, refl, sym, subst, ◌≢◌, inl, inr, Bool, true, false, Option, none, some, List, [],
  ◌∷◌, arith, ◌==◌, if◌then◌else◌, Bool-cases, Map, find, Above, Sorted, Sorted-put, find-below,
  find-put,
}
use supertools_public.Transfer.Buffers.{
  Data, CircleBuffer, use_data, take_unused, behind_used, malloc_from, malloc, remove, release,
  free, sweep, free_memory,
}

abbrev pub count : ℕ → List ℕ → ℕ
count k [] = 0
count k (i ∷ is) = (if k == i then 1 else 0) + count k is

-- Whether the pool has the buffer and it is used.
abbrev pub in_use : Option Data → Bool
in_use none = false
in_use (some d) = d.used

-- Each buffer is held as often as it is used: once, or not at all.
abbrev pub Sound : CircleBuffer → Type 0
Sound c =
    Sorted c.buffers × ((k : ℕ) → count k c.held ≡ (if in_use (find k c.buffers) then 1 else 0))

-- What a search for an unused buffer gives.
abbrev Taken : ℕ → Map Data → Option (ℕ × Map Data) → Type 0
Taken now m none = Unit
Taken now m (some r) =
    ((e : Data) × (find r.0 m ≡ some e) × (e.used ≡ false))
    × Sorted r.1
    × ((j : ℕ) → Above j m → Above j r.1)
    × ((j : ℕ) → find j r.1 ≡ (if j == r.0 then some (use_data now) else find j m))

passes_used :
    (now k : ℕ) (d : Data) (m : Map Data)
    → d.used ≡ true
    → take_unused now ((k, d) ∷ m) ≡ behind_used (k, d) (take_unused now m)
unfolding take_unused
passes_used now k d m u = ground arith

takes_first :
    (now k : ℕ) (d : Data) (m : Map Data)
    → d.used ≡ false
    → take_unused now ((k, d) ∷ m) ≡ some (k, (k, use_data now) ∷ m)
unfolding take_unused
takes_first now k d m u = ground arith

behind_used-Taken :
    (now k : ℕ) (d : Data) (m : Map Data) (o : Option (ℕ × Map Data))
    → Above k m
    → Taken now m o
    → Taken now ((k, d) ∷ m) (behind_used (k, d) o)
behind_used-Taken now k d m none a t = tt
behind_used-Taken now k d m (some r) a (hit, sorted, above, same) =
    let (e, f, u) = hit in
    let absent = find-below k k m (omega arith) a in
    let other : r.0 ≢ k = λ q. ground (arith, absent) in
    (
      (e, ground arith, u),
      (above k a, sorted),
      λ j b. (b.0, above j b.1),
      λ j. ground (arith, same j),
    )

take_unused-Taken : (now : ℕ) (m : Map Data) → Sorted m → Taken now m (take_unused now m)
take_unused-Taken now [] s = unfold take_unused in tt
take_unused-Taken now ((k, d) ∷ m) s = elim (Bool-cases d.used) [
  | inl u ↦
      subst (Taken now ((k, d) ∷ m)) (sym (passes_used now k d m u))
        (behind_used-Taken now k d m (take_unused now m) s.0 (take_unused-Taken now m s.1))
  | inr u ↦
      subst (Taken now ((k, d) ∷ m)) (sym (takes_first now k d m u))
        ((d, ground arith, u), s, (λ j a. a), λ j. ground arith)
]

count-remove : (k i : ℕ) (is : List ℕ) → count i (remove k is) ≡ (if i == k then 0 else count i is)
count-remove k i [] = ground arith
count-remove k i (j ∷ is) = ground (arith, count-remove k i is)

Above-sweep : (now j : ℕ) (m : Map Data) → Above j m → Above j (sweep now m)
unfolding sweep
Above-sweep now j [] a = tt
Above-sweep now j ((k, d) ∷ m) a = ground (arith, Above-sweep now j m)

sweep_lem :
    (now : ℕ) (m : Map Data)
    → Sorted m
    → Sorted (sweep now m) × ((j : ℕ) → in_use (find j (sweep now m)) ≡ in_use (find j m))
unfolding sweep
sweep_lem now [] s = (s, λ j. refl)
sweep_lem now ((k, d) ∷ m) s =
    let (sorted, same) = sweep_lem now m s.1 in
    let fresh = find-below k k m (omega arith) s.0 in
    (ground (arith, sorted, Above-sweep now k m s.0), λ j. ground (arith, same j, fresh))

-- A buffer that `new` gives is none of the pool's.
abbrev pub IsFresh : Option ℕ → CircleBuffer → Type 0
IsFresh none c = Unit
IsFresh (some k) c = find k c.buffers ≡ none

-- What one caller got: a buffer that nobody held, which it alone holds now.
abbrev pub Gives : CircleBuffer → Option ℕ × CircleBuffer → Type 0
Gives c (none, d) = d ≡ c
Gives c (some k, d) = (count k c.held ≡ 0) × (count k d.held ≡ 1)

malloc_from-Sound :
    (now : ℕ) (fresh : Option ℕ) (c : CircleBuffer) (o : Option (ℕ × Map Data))
    → Sound c
    → IsFresh fresh c
    → Taken now c.buffers o
    → let r = malloc_from now fresh c o in Sound r.1 × Gives c r
malloc_from-Sound now none c none s f t = (s, refl)
malloc_from-Sound now (some k) c none s f t = (
  (
    Sorted-put k (use_data now) c.buffers s.0,
    λ j. ground (arith, s.1 j, find-put k j (use_data now) c.buffers),
  ),
  (ground (arith, s.1 k), ground (arith, s.1 k)),
)
malloc_from-Sound now fresh c (some r) s f (hit, sorted, above, same) =
    let (e, q, u) = hit in
    (
      (sorted, λ j. ground (arith, s.1 j, same j)),
      (ground (arith, s.1 r.0), ground (arith, s.1 r.0)),
    )

release-Sound :
    (now k : ℕ) (o : Option Data) (c : CircleBuffer)
    → find k c.buffers ≡ o
    → Sound c
    → Sound (release now k o c)
release-Sound now k none c e s = s
release-Sound now k (some d) c e s = (
  Sorted-put k (record { used = false; begin = now }) c.buffers s.0,
  λ j. ground (
    arith,
    s.1 j,
    count-remove k j c.held,
    find-put k j (record { used = false; begin = now }) c.buffers,
  ),
)

free_memory-Sound : (now : ℕ) (c : CircleBuffer) → Sound c → Sound (free_memory now c)
unfolding free_memory
free_memory-Sound now c s =
    let (sorted, same) = sweep_lem now c.buffers s.0 in (sorted, λ j. ground (arith, s.1 j, same j))

-- What happens to the pool: `Malloc` with some new memory, `Free` of any address, and the timer's turn.
pub data Step : CircleBuffer → CircleBuffer → Type 0 where
  mallocs :
      {c : CircleBuffer} (now : ℕ) (fresh : Option ℕ)
      → IsFresh fresh c
      → Step c (malloc now fresh c).1
  frees : {c : CircleBuffer} (now k : ℕ) → Step c (free now k c)
  sweeps : {c : CircleBuffer} (now : ℕ) → Step c (free_memory now c)

pub data Reaches : CircleBuffer → Type 0 where
  here : Reaches (record { buffers = []; held = [] })
  there : {c d : CircleBuffer} → Reaches c → Step c d → Reaches d

Step-Sound : {c d : CircleBuffer} → Step c d → Sound c → Sound d
unfolding malloc free
Step-Sound (mallocs {c} now fresh f) s =
    (malloc_from-Sound now fresh c (take_unused now c.buffers) s f
      (take_unused-Taken now c.buffers s.0)).0
Step-Sound (frees {c} now k) s = release-Sound now k (find k c.buffers) c refl s
Step-Sound (sweeps {c} now) s = free_memory-Sound now c s

reached-Sound : (c : CircleBuffer) → Reaches c → Sound c
reached-Sound _ here = ((tt), λ k. refl)
reached-Sound _ (there {c} r s) = Step-Sound s (reached-Sound c r)

-- In every state that the pool reaches from an empty one, whatever buffers are taken, given back and
-- removed after their time: each buffer that is held is in the pool, used, and held once, each other one is
-- not used, and `Malloc` then gives a buffer that nobody holds, or none and changes nothing. New memory is
-- taken to be none of the pool's.
pub malloc-Gives :
    (now : ℕ) (fresh : Option ℕ) (c : CircleBuffer)
    → Reaches c
    → IsFresh fresh c
    → Sound c × Gives c (malloc now fresh c)
unfolding malloc
malloc-Gives now fresh c r f =
    let s = reached-Sound c r in
    (
      s,
      (malloc_from-Sound now fresh c (take_unused now c.buffers) s f
          (take_unused-Taken now c.buffers s.0)).1,
    )
