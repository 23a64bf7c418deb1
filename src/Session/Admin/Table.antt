-- ===== src/Session/Admin/Table.antt =====
-- session.cpp: `AdminSession` on the table of sessions as a function of the id, and the vote to reset.
use supertools_public.Common.{
  ℕ, ◌≡◌, ◌≢◌, refl, ◌∙◌, ◌↔◌, Bool, true, false, Option, none, some, [], ◌∷◌, ◌==◌, if◌then◌else◌,
  arith, Map, find, erase, Sorted, Sorted-put, Sorted-erase, find-put, find-erase, find-below,
  ==_self, Bool-cases, inl, inr,
}
use supertools_public.Session.Admin.{
  Heap, Sessions, Op, query_ref, count_vote, op_add, op_update, op_remove, op_query, op_print,
  op_query_ref, op_vote_reset, op_other, others_voted, vote, vote_reset_session, admin_session,
}

-- What an operation on session `k` makes of the table, where `own` is the id that an object holds.
abbrev pub table_after : Op → ℕ → (ℕ → ℕ) → (ℕ → Option ℕ) → ℕ → Option ℕ
table_after (op_add h) k own old j = if j == k then some h else old j
table_after (op_update h) k own old j =
    if j == own h then some h else if j == k then none else old j
table_after op_remove k own old j = if j == k then none else old j
table_after op_query k own old j = old j
table_after op_print k own old j = old j
table_after op_query_ref k own old j = old j
table_after op_vote_reset k own old j = old j
table_after op_other k own old j = old j

-- What it returns, where `old` is what the table has under the id.
abbrev pub found_by : Bool → Op → Option ℕ → Option ℕ
found_by server op_query old = old
found_by server op_query_ref old = old
found_by server op_vote_reset old = if server then old else none
found_by server (op_add h) old = none
found_by server (op_update h) old = none
found_by server op_remove old = none
found_by server op_print old = none
found_by server op_other old = none

query_ref_lem :
    (o : Option ℕ) (t : Sessions)
    → ((query_ref o t).0 ≡ o) × ((query_ref o t).1.map_session ≡ t.map_session)
query_ref_lem none t = (refl, refl)
query_ref_lem (some h) t = (refl, refl)

count_vote_lem :
    (server : Bool) (k : ℕ) (o : Option ℕ) (t : Sessions)
    → ((count_vote server k o t).0 ≡ found_by server op_vote_reset o)
      × ((count_vote server k o t).1.map_session ≡ t.map_session)
unfolding vote_reset_session
count_vote_lem true k none t = (refl, refl)
count_vote_lem false k none t = (refl, refl)
count_vote_lem true k (some h) t = (refl, refl)
count_vote_lem false k (some h) t = (refl, refl)

-- Each operation leaves the table in the order of its keys, changes only what is found under the ids it
-- names, and returns what was found under the session's id if it is a query, and nothing otherwise.
pub admin_session-table :
    (server : Bool) (op : Op) (k : ℕ) (t : Sessions)
    → Sorted t.map_session
    → let (found, u) = admin_session server op k t in
      (found ≡ found_by server op (find k t.map_session))
      × Sorted u.map_session
      × ((j : ℕ)
          → find j u.map_session
            ≡ table_after op k (λ h. (t.heap h).session_id) (λ i. find i t.map_session) j)
unfolding admin_session
admin_session-table server (op_add h) k t s =
    (refl, Sorted-put k h t.map_session s, λ j. find-put k j h t.map_session)
admin_session-table server (op_update h) k t s =
    let id = (t.heap h).session_id in
    (
      refl,
      Sorted-put id h (erase k t.map_session) (Sorted-erase k t.map_session s),
      λ j. find-put id j h (erase k t.map_session) ∙ rw (find-erase k j t.map_session),
    )
admin_session-table server op_remove k t s =
    (refl, Sorted-erase k t.map_session s, λ j. find-erase k j t.map_session)
admin_session-table server op_query k t s = (refl, s, λ j. refl)
admin_session-table server op_print k t s = (refl, s, λ j. refl)
admin_session-table server op_query_ref k t s =
    let (e, m) = query_ref_lem (find k t.map_session) t in rw m (e, s, λ j. refl)
admin_session-table server op_vote_reset k t s =
    let (e, m) = count_vote_lem server k (find k t.map_session) t in rw m (e, s, λ j. refl)
admin_session-table server op_other k t s = (refl, s, λ j. refl)

-- Every session of the table but this one has voted.
abbrev Voted : Heap → ℕ → Map ℕ → Type 0
Voted heap k m = (j h : ℕ) → j ≢ k → find j m ≡ some h → (heap h).vote_reset ≡ true

others_voted-Voted :
    (heap : Heap) (k : ℕ) (m : Map ℕ) → others_voted heap k m ≡ true → Voted heap k m
unfolding others_voted
others_voted-Voted heap k [] e j h ne f = ground arith
others_voted-Voted heap k ((i, w) ∷ m) e j h ne f =
    ground (arith, λ (p : others_voted heap k m ≡ true). others_voted-Voted heap k m p j h ne)

Voted-others_voted :
    (heap : Heap) (k : ℕ) (m : Map ℕ) → Sorted m → Voted heap k m → others_voted heap k m ≡ true
unfolding others_voted
Voted-others_voted heap k [] s v = refl
Voted-others_voted heap k ((i, w) ∷ m) s v =
    let rest : others_voted heap k m ≡ true = Voted-others_voted heap k m s.1 (λ j h ne f.
      v j h ne (elim (Bool-cases (j == i)) [
        | inl e ↦ absurd (ground (arith, find-below i i m (omega arith) s.0))
        | inr e ↦ rw e f
      ])) in
    elim (Bool-cases (k == i)) [
      | inl e ↦ rw e rest
      | inr e ↦ rw (e, v i w (λ p. ground arith) (rw (==_self i) refl)) rest
    ]

-- A vote of a session that is in the table, of a server that has not aborted: it aborts exactly if each
-- session of the table has voted to reset, this vote included.
pub admin_session-vote :
    (k h : ℕ) (t : Sessions)
    → Sorted t.map_session
    → find k t.map_session ≡ some h
    → t.aborted ≡ false
    → let u = (admin_session true op_vote_reset k t).1 in
      (u.aborted ≡ true)
      ↔ ((j i : ℕ) → find j u.map_session ≡ some i → (u.heap i).vote_reset ≡ true)
unfolding admin_session vote_reset_session
admin_session-vote k h t s f a =
    let heap' : Heap = vote h t.heap in
    rw (f, a)
      (
        λ e j i g. elim (Bool-cases (j == k)) [
          | inl p ↦ ground (arith)
          | inr p ↦ others_voted-Voted heap' k t.map_session e j i (λ q. ground arith) g
        ],
        λ v. Voted-others_voted heap' k t.map_session s (λ j i ne g. v j i g),
      )
