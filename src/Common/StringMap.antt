-- ===== src/Common/StringMap.antt =====
-- `std::map` with keys that are strings: the entries in the order of their keys.
use Prim.Native.Nat.{ℕ}
use mathlib.Core.Path.{◌≡◌, refl, subst}
use mathlib.Core.Logic.{inl, inr}
use mathlib.Core.Bool.{Bool, true, false, ◌&&◌, ◌||◌}
use mathlib.Core.List.{List, [], ◌∷◌}
use mathlib.Core.Option.{Option, none, some}
use native.Mathlib.Omega.{arith}
use supertools_public.Common.Tests.{Bool-cases, ltb, ◌==◌, if◌then◌else◌}
use supertools_public.Common.Text.{str_eq, str_eq→eq}
use supertools_public.Common.Lists.{All}

-- `<` of two strings.
abbrev pub str_lt : List ℕ → List ℕ → Bool
str_lt [] [] = false
str_lt [] (d ∷ ds) = true
str_lt (c ∷ cs) [] = false
str_lt (c ∷ cs) (d ∷ ds) = ltb c d || (c == d && str_lt cs ds)

pub lt_self : (k : List ℕ) → str_lt k k ≡ false
lt_self [] = refl
lt_self (c ∷ cs) = ground (arith, lt_self cs)

pub lt_trans : (i j k : List ℕ) → str_lt i j ≡ true → str_lt j k ≡ true → str_lt i k ≡ true
lt_trans i [] [] g h = cc
lt_trans [] (d ∷ j) [] g h = cc
lt_trans (c ∷ i) (d ∷ j) [] g h = cc
lt_trans [] j (e ∷ k) g h = refl
lt_trans (c ∷ i) [] (e ∷ k) g h = cc
lt_trans (c ∷ i) (d ∷ j) (e ∷ k) g h = ground (arith, lt_trans i j k)

pub lt_total : (i j : List ℕ) → str_eq i j ≡ false → str_lt i j ≡ false → str_lt j i ≡ true
lt_total [] [] g h = cc
lt_total [] (d ∷ j) g h = cc
lt_total (c ∷ i) [] g h = refl
lt_total (c ∷ i) (d ∷ j) g h = ground (arith, lt_total i j)

abbrev pub StringMap {ℓ} : Type ℓ → Type ℓ
StringMap V = List (List ℕ × V)

module _ {ℓ} {V : Type ℓ} where
  -- The entry of a key, if there is one.
  abbrev pub entry_of : List ℕ → StringMap V → Option V
  entry_of k [] = none
  entry_of k ((i, p) ∷ m) = let rest = entry_of k m in if str_eq k i then some p else rest

  -- `mapDaemon[k] = p`.
  abbrev pub set_entry : List ℕ → V → StringMap V → StringMap V
  set_entry k p [] = (k, p) ∷ []
  set_entry k p ((i, q) ∷ m) =
      let rest = set_entry k p m in
      if str_eq k i then (k, p) ∷ m else if str_lt k i then (k, p) ∷ (i, q) ∷ m else (i, q) ∷ rest

  abbrev pub erase_entry : List ℕ → StringMap V → StringMap V
  erase_entry k [] = []
  erase_entry k ((i, p) ∷ m) = let rest = erase_entry k m in if str_eq k i then m else (i, p) ∷ rest

  -- Every key is above this one.
  abbrev pub Beyond : List ℕ → StringMap V → Type 0
  Beyond k m = All (λ e. str_lt k e.0 ≡ true) m

  pub Beyond-trans : (i k : List ℕ) (m : StringMap V) → str_lt i k ≡ true → Beyond k m → Beyond i m
  Beyond-trans i k [] h b = tt
  Beyond-trans i k (e ∷ m) h b = (lt_trans i k e.0 h b.0, Beyond-trans i k m h b.1)

  pub Beyond-set_entry :
      (i k : List ℕ) (p : V) (m : StringMap V)
      → str_lt i k ≡ true
      → Beyond i m
      → Beyond i (set_entry k p m)
  Beyond-set_entry i k p [] h b = (h, tt)
  Beyond-set_entry i k p ((j, q) ∷ m) h b = elim (Bool-cases (str_eq k j)) [
    | inl e ↦ rw (e) (h, b.1)
    | inr e ↦ elim (Bool-cases (str_lt k j)) [
      | inl l ↦ rw (e, l) (h, b)
      | inr l ↦ rw (e, l) (b.0, Beyond-set_entry i k p m h b.1)
    ]
  ]

  pub Beyond-erase_entry :
      (i k : List ℕ) (m : StringMap V) → Beyond i m → Beyond i (erase_entry k m)
  Beyond-erase_entry i k [] b = tt
  Beyond-erase_entry i k ((j, q) ∷ m) b = elim (Bool-cases (str_eq k j)) [
    | inl e ↦ rw (e) b.1
    | inr e ↦ rw (e) (b.0, Beyond-erase_entry i k m b.1)
  ]

  pub entry_of-Beyond : (k : List ℕ) (m : StringMap V) → Beyond k m → entry_of k m ≡ none
  entry_of-Beyond k [] b = refl
  entry_of-Beyond k ((j, q) ∷ m) b = elim (Bool-cases (str_eq k j)) [
    | inl e ↦
        let q : str_lt j j ≡ true = subst (λ i. str_lt i j ≡ true) (str_eq→eq k j e) b.0 in
        absurd (ground (arith, q, lt_self j))
    | inr e ↦ rw (e) (entry_of-Beyond k m b.1)
  ]
