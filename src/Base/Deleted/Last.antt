-- ===== src/Base/Deleted/Last.antt =====
-- base.cpp: the set and the queue of the freed sessions.
use supertools_public.Common.{
  ℕ, suc, ◌≤◌, ◌<◌, ◌≡◌, ◌≢◌, refl, ◌∙◌, true, false, List, [], ◌∷◌, ◌++◌, ltb, ◌==◌, if◌then◌else◌,
  length, length-append, arith, Bool-cases, inl, inr, ==_self,
}
use supertools_public.Base.Deleted.{
  Deleted, contains, erase_id, drop_front, add_deleted_session_id, is_session_deleted,
}

abbrev pub Distinct : List ℕ → Type 0
Distinct [] = Unit
Distinct (i ∷ is) = (contains i is ≡ false) × Distinct is

-- The set has the ids of the queue, which holds each once, and 32 at most.
abbrev pub IsRecord : Deleted → Type 0
IsRecord d =
    ((i : ℕ) → contains i d.ids ≡ contains i d.queue) × Distinct d.queue × (length d.queue ≤ 32)

contains-append :
    (i j : ℕ) (q : List ℕ) → contains i (q ++ (j ∷ [])) ≡ (if i == j then true else contains i q)
contains-append i j [] = ground arith
contains-append i j (k ∷ q) = ground (arith, contains-append i j q)

contains-erase :
    (i j : ℕ) (q : List ℕ) → contains i (erase_id j q) ≡ (if i == j then false else contains i q)
contains-erase i j [] = ground arith
contains-erase i j (k ∷ q) = ground (arith, contains-erase i j q)

Distinct-append :
    (j : ℕ) (q : List ℕ) → contains j q ≡ false → Distinct q → Distinct (q ++ (j ∷ []))
Distinct-append j [] h d = (refl, tt)
Distinct-append j (k ∷ q) h d =
    (ground (arith, contains-append k j q), Distinct-append j q (ground arith) d.1)

drop_front-IsRecord :
    (ids q : List ℕ)
    → ((i : ℕ) → contains i ids ≡ contains i q)
    → Distinct q
    → length q ≤ 33
    → 0 < length q
    → IsRecord (drop_front ids q)
drop_front-IsRecord ids [] same d h k = absurd (omega arith)
drop_front-IsRecord ids (j ∷ q) same d h k =
    (λ i. ground (arith, contains-erase i j ids, same i), d.1, omega arith)

front_other :
    (i : ℕ) (queue ids : List ℕ)
    → 0 < length queue
    → contains i queue ≡ false
    → contains i (drop_front ids (queue ++ (i ∷ []))).ids ≡ contains i ids
front_other i [] ids h e = absurd (omega arith)
front_other i (k ∷ q) ids h e = ground (arith, contains-erase i k ids)

front_sub :
    (j : ℕ) (ids q : List ℕ) → contains j (drop_front ids q).ids ≡ true → contains j ids ≡ true
front_sub j ids [] h = h
front_sub j ids (k ∷ q) h = ground (arith, contains-erase j k ids)

-- Adding an id to a record keeps it a record: its set has exactly the ids of its queue, each once, and there
-- are 32 at most. The id is then a deleted one; another id is one only if it was before.
pub add_deleted_session_id-IsRecord :
    (i : ℕ) (d : Deleted)
    → IsRecord d
    → let e = add_deleted_session_id i d in
      IsRecord e
      × (is_session_deleted i e ≡ true)
      × ((j : ℕ) → j ≢ i → is_session_deleted j e ≡ true → is_session_deleted j d ≡ true)
unfolding add_deleted_session_id
add_deleted_session_id-IsRecord i d (same, distinct, few) = elim (Bool-cases (contains i d.ids)) [
  | inl e ↦ rw e ((same, distinct, few), e, λ j ne p. p)
  | inr e ↦
      let q = d.queue ++ (i ∷ []) in
      let n : length q ≡ suc (length d.queue) = omega (arith, length-append d.queue (i ∷ [])) in
      let same' : (j : ℕ) → contains j (i ∷ d.ids) ≡ contains j q =
        λ j. ground (arith, contains-append j i d.queue, same j) in
      let distinct' : Distinct q = Distinct-append i d.queue (ground (arith, same i)) distinct in
      elim (Bool-cases (ltb 32 (length q))) [
        | inl f ↦
            rw (e, f)
              (
                drop_front-IsRecord (i ∷ d.ids) q same' distinct' (omega arith) (omega arith),
                front_other i d.queue (i ∷ d.ids) (ground arith) (ground (arith, same i))
                    ∙ rw (==_self i) refl,
                λ j ne p. ground (arith, front_sub j (i ∷ d.ids) q p),
              )
        | inr f ↦
            rw (e, f)
              ((same', distinct', ground arith), rw (==_self i) refl, λ j ne p. ground arith)
      ]
]
