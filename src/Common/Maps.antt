-- ===== src/Common/Maps.antt =====
-- `std::map` with unsigned keys: the entries in the order of their keys.
use Prim.Native.Nat.{ℕ, suc, ◌<◌, ◌≤◌}
use mathlib.Core.Path.{◌≡◌, refl}
use mathlib.Core.Logic.{◌≢◌, ◌⊎◌, inl, inr}
use mathlib.Core.Bool.{Bool, true, false}
use mathlib.Core.List.{List, [], ◌∷◌}
use mathlib.Core.Option.{Option, none, some}
use native.Mathlib.Omega.{arith}
use supertools_public.Common.Lists.{length}
use supertools_public.Common.Tests.{Bool-cases, ==_iff, ==_self, ltb, ◌==◌, if◌then◌else◌}

abbrev pub Map {ℓ} : Type ℓ → Type ℓ
Map V = List (ℕ × V)

module _ {ℓ} {V : Type ℓ} where
  abbrev pub find : ℕ → Map V → Option V
  find k [] = none
  find k ((i, v) ∷ m) = let rest = find k m in if k == i then some v else rest

  abbrev pub has : ℕ → Map V → Bool
  has k [] = false
  has k ((i, v) ∷ m) = let rest = has k m in if k == i then true else rest

  -- `m[k] = v`.
  abbrev pub put : ℕ → V → Map V → Map V
  put k v [] = (k, v) ∷ []
  put k v ((i, w) ∷ m) =
      let rest = put k v m in
      if ltb k i then (k, v) ∷ (i, w) ∷ m else if k == i then (k, v) ∷ m else (i, w) ∷ rest

  abbrev pub erase : ℕ → Map V → Map V
  erase k [] = []
  erase k ((i, w) ∷ m) = let rest = erase k m in if k == i then rest else (i, w) ∷ rest

  abbrev pub Above : ℕ → Map V → Type 0
  Above k [] = Unit
  Above k ((i, w) ∷ m) = (k < i) × Above k m

  abbrev pub Sorted : Map V → Type 0
  Sorted [] = Unit
  Sorted ((i, w) ∷ m) = Above i m × Sorted m

  pub find-put_self : (k : ℕ) (v : V) (m : Map V) → find k (put k v m) ≡ some v
  find-put_self k v [] = ground arith
  find-put_self k v ((i, w) ∷ m) = ground (arith, find-put_self k v m)

  pub find-put_ne : (k j : ℕ) (v : V) (m : Map V) → j ≢ k → find j (put k v m) ≡ find j m
  find-put_ne k j v [] h = ground arith
  find-put_ne k j v ((i, w) ∷ m) h = ground (arith, find-put_ne k j v m h)

  pub find-erase_self : (k : ℕ) (m : Map V) → find k (erase k m) ≡ none
  find-erase_self k [] = refl
  find-erase_self k ((i, w) ∷ m) = ground (arith, find-erase_self k m)

  pub find-erase_ne : (k j : ℕ) (m : Map V) → j ≢ k → find j (erase k m) ≡ find j m
  find-erase_ne k j [] h = refl
  find-erase_ne k j ((i, w) ∷ m) h = ground (arith, find-erase_ne k j m h)

  pub has-find : (k : ℕ) (m : Map V) → has k m ≡ false → find k m ≡ none
  has-find k [] h = refl
  has-find k ((i, w) ∷ m) h = ground (arith, has-find k m)

  pub find-has : (k : ℕ) (m : Map V) → find k m ≡ none → has k m ≡ false
  find-has k [] h = refl
  find-has k ((i, w) ∷ m) h = ground (arith, find-has k m)

  pub Above-put : (j k : ℕ) (v : V) (m : Map V) → j < k → Above j m → Above j (put k v m)
  Above-put j k v [] h a = (h, tt)
  Above-put j k v ((i, w) ∷ m) h a = ground (arith, Above-put j k v m h)

  Above-trans : (j k : ℕ) (m : Map V) → j < k → Above k m → Above j m
  Above-trans j k [] h a = tt
  Above-trans j k ((i, w) ∷ m) h a = (omega (arith, a.0), Above-trans j k m h a.1)

  pub Sorted-put : (k : ℕ) (v : V) (m : Map V) → Sorted m → Sorted (put k v m)
  Sorted-put k v [] s = (tt, tt)
  Sorted-put k v ((i, w) ∷ m) s =
      ground (arith, Sorted-put k v m, Above-put i k v m, Above-trans k i m)

  pub Above-erase : (j k : ℕ) (m : Map V) → Above j m → Above j (erase k m)
  Above-erase j k [] a = tt
  Above-erase j k ((i, w) ∷ m) a = ground (arith, Above-erase j k m)

  pub Sorted-erase : (k : ℕ) (m : Map V) → Sorted m → Sorted (erase k m)
  Sorted-erase k [] s = tt
  Sorted-erase k ((i, w) ∷ m) s = ground (arith, Sorted-erase k m, Above-erase i k m)

  pub find-below : (k i : ℕ) (m : Map V) → k ≤ i → Above i m → find k m ≡ none
  find-below k i [] h a = refl
  find-below k i ((j, w) ∷ m) h a = ground (arith, find-below k i m h)

  -- What a test of the key decides.
  pub find-put :
      (k j : ℕ) (v : V) (m : Map V) → find j (put k v m) ≡ (if j == k then some v else find j m)
  find-put k j v m = elim (Bool-cases (j == k)) [
    | inl e ↦ rw ((==_iff j k).0 e, ==_self k) (find-put_self k v m)
    | inr e ↦ rw e (find-put_ne k j v m (λ p. ground (arith)))
  ]

  pub find-erase : (k j : ℕ) (m : Map V) → find j (erase k m) ≡ (if j == k then none else find j m)
  find-erase k j m = elim (Bool-cases (j == k)) [
    | inl e ↦ rw ((==_iff j k).0 e, ==_self k) (find-erase_self k m)
    | inr e ↦ rw e (find-erase_ne k j m (λ p. ground (arith)))
  ]

  pub length-put_old :
      (k : ℕ) (v w : V) (m : Map V) → Sorted m → find k m ≡ some w → length (put k v m) ≡ length m
  length-put_old k v w [] s e = cc
  length-put_old k v w ((i, u) ∷ m) s e =
      ground (arith, length-put_old k v w m s.1, find-below k i m)

  pub length-put_new :
      (k : ℕ) (v : V) (m : Map V) → find k m ≡ none → length (put k v m) ≡ suc (length m)
  length-put_new k v [] e = refl
  length-put_new k v ((i, u) ∷ m) e = ground (arith, length-put_new k v m)

  pub find-put-some :
      (h k : ℕ) (d x : V) (m : Map V)
      → find k (put h d m) ≡ some x
      → ((k ≡ h) × (d ≡ x)) ⊎ (find k m ≡ some x)
  find-put-some h k d x m f = elim (Bool-cases (k == h)) [
    | inl i ↦
        let here : some d ≡ some x = (rw (find-put h k d m, i) at f) in
        inl ((==_iff k h).0 i, cc (here))
    | inr i ↦ inr (rw (find-put h k d m, i) at f)
  ]

  pub find-erase-some :
      (h k : ℕ) (x : V) (m : Map V) → find k (erase h m) ≡ some x → (k ≢ h) × (find k m ≡ some x)
  find-erase-some h k x m f = elim (Bool-cases (k == h)) [
    | inl i ↦ absurd (ground (arith, (rw (find-erase h k m, i) at f)))
    | inr i ↦ (λ r. ground arith, (rw (find-erase h k m, i) at f))
  ]

  pub length-erase-none : (k : ℕ) (m : Map V) → find k m ≡ none → length (erase k m) ≡ length m
  length-erase-none k [] e = refl
  length-erase-none k ((i, u) ∷ m) e = ground (arith, length-erase-none k m)

  pub length-erase :
      (k : ℕ) (w : V) (m : Map V)
      → Sorted m
      → find k m ≡ some w
      → suc (length (erase k m)) ≡ length m
  length-erase k w [] s e = cc
  length-erase k w ((i, u) ∷ m) s e =
      ground (arith, length-erase k w m s.1, length-erase-none k m, find-below k i m)
