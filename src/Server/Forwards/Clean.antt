-- ===== src/Server/Forwards/Clean.antt =====
-- server.cpp: `CleanForwardMap`, and the table of forwarded ports over any sequence of events.
use supertools_public.Common.{
  ℕ, zero, suc, ◌<◌, ◌≡◌, refl, sym, ap, ◌∙◌, subst, inl, inr, Bool, true, false, ◌||◌, Option,
  none, some, List, [], ◌∷◌, arith, ◌==◌, if◌then◌else◌, Bool-cases, length, str_eq, str_eq→eq,
}
use supertools_public.Common.StringMap.{
  Beyond, entry_of, set_entry, erase_entry, str_lt, entry_of-Beyond, lt_total, Beyond-trans,
  Beyond-set_entry, Beyond-erase_entry,
}
use supertools_public.Server.Forwards.{
  HdcForwardInformation, ForwardMap, forward_of, joined, add_forward, forward_add, forward_query,
  forward_remove, clean_forward_map,
}

-- Each entry has information, and the keys are in order.
abbrev pub IsForwards : ForwardMap → Type 0
IsForwards [] = Unit
IsForwards ((k, none) ∷ m) = ⊥
IsForwards ((k, some f) ∷ m) = Beyond k m × IsForwards m

set_entry-IsForwards :
    (k : List ℕ) (f : HdcForwardInformation) (m : ForwardMap)
    → IsForwards m
    → IsForwards (set_entry k (some f) m)
set_entry-IsForwards k f [] t = (tt, tt)
set_entry-IsForwards k f ((j, none) ∷ m) t = absurd t
set_entry-IsForwards k f ((j, some g) ∷ m) t = elim (Bool-cases (str_eq k j)) [
  | inl e ↦ rw (e) (subst (λ i. Beyond i m) (sym (str_eq→eq k j e)) t.0, t.1)
  | inr e ↦ elim (Bool-cases (str_lt k j)) [
    | inl l ↦ rw (e, l) ((l, Beyond-trans k j m l t.0), t)
    | inr l ↦
        rw (e, l)
          (Beyond-set_entry j k (some f) m (lt_total k j e l) t.0, set_entry-IsForwards k f m t.1)
  ]
]

erase_entry-IsForwards : (k : List ℕ) (m : ForwardMap) → IsForwards m → IsForwards (erase_entry k m)
erase_entry-IsForwards k [] t = tt
erase_entry-IsForwards k ((j, none) ∷ m) t = absurd t
erase_entry-IsForwards k ((j, some g) ∷ m) t = elim (Bool-cases (str_eq k j)) [
  | inl e ↦ rw (e) t.1
  | inr e ↦ rw (e) (Beyond-erase_entry j k m t.0, erase_entry-IsForwards k m t.1)
]

add_forward-IsForwards :
    (allocated : Bool) (f : HdcForwardInformation) (m : ForwardMap)
    (o : Option HdcForwardInformation)
    → IsForwards m
    → IsForwards (add_forward allocated f m o)
add_forward-IsForwards true f m none t = set_entry-IsForwards f.task_string f m t
add_forward-IsForwards false f m none t = t
add_forward-IsForwards allocated f m (some old) t = t

-- What is left of an answer, without the ports of a session, or of all if it is 0.
abbrev pub others : ℕ → Option HdcForwardInformation → Option HdcForwardInformation
others session_id none = none
others session_id (some f) = if session_id == 0 || session_id == f.session_id then none else some f

-- A table without the ports of a session.
pub record Cleaned (session_id : ℕ) (m c : ForwardMap) : Type 0 where
  pub answers : (task : List ℕ) → forward_query task c ≡ others session_id (forward_query task m)
  pub in_order : IsForwards c
  pub no_lower : (k : List ℕ) → Beyond k m → Beyond k c

Cleaned-cons :
    (session_id : ℕ) (k : List ℕ) (f : HdcForwardInformation) (m c : ForwardMap)
    → IsForwards ((k, some f) ∷ m)
    → Cleaned session_id m c
    → (session_id == 0 || session_id == f.session_id) ≡ false
    → Cleaned session_id ((k, some f) ∷ m) ((k, some f) ∷ c)
unfolding forward_query
Cleaned-cons session_id k f m c t h e = record {
  answers = λ task. elim (Bool-cases (str_eq task k)) [
    | inl s ↦ rw (s, e) refl
    | inr s ↦ rw (s) (h.answers task)
  ];
  in_order = (h.no_lower k t.0, h.in_order);
  no_lower = λ i b. (b.0, h.no_lower i b.1);
}

Cleaned-skip :
    (session_id : ℕ) (k : List ℕ) (f : HdcForwardInformation) (m c : ForwardMap)
    → IsForwards ((k, some f) ∷ m)
    → Cleaned session_id m c
    → (session_id == 0 || session_id == f.session_id) ≡ true
    → Cleaned session_id ((k, some f) ∷ m) c
unfolding forward_query
Cleaned-skip session_id k f m c t h e = record {
  answers = λ task. elim (Bool-cases (str_eq task k)) [
    | inl s ↦
        let gone : entry_of task m ≡ none =
          subst (λ i. entry_of i m ≡ none) (sym (str_eq→eq task k s)) (entry_of-Beyond k m t.0) in
        rw (s, e) (h.answers task ∙ ap (λ o. others session_id (joined o)) gone)
    | inr s ↦ rw (s) (h.answers task)
  ];
  in_order = h.in_order;
  no_lower = λ i b. h.no_lower i b.1;
}

clean_forward_map-Cleaned :
    (fuel session_id : ℕ) (m : ForwardMap)
    → length m < fuel
    → IsForwards m
    → (c : ForwardMap) × (clean_forward_map fuel session_id m ≡ some c) × Cleaned session_id m c
unfolding clean_forward_map
clean_forward_map-Cleaned zero session_id m l t = absurd (omega arith)
clean_forward_map-Cleaned (suc fuel) session_id [] l t = (
  [],
  refl,
  record { answers = λ task. unfold forward_query in refl; in_order = tt; no_lower = λ i b. tt },
)
clean_forward_map-Cleaned (suc fuel) session_id ((k, none) ∷ m) l t = absurd t
clean_forward_map-Cleaned (suc fuel) session_id ((k, some f) ∷ m) l t =
    let (c, e, h) = clean_forward_map-Cleaned fuel session_id m (omega arith) t.1 in
    elim (Bool-cases (session_id == 0 || session_id == f.session_id)) [
      | inl s ↦ (c, rw (s) e, Cleaned-skip session_id k f m c t h s)
      | inr s ↦ ((k, some f) ∷ c, rw (s, e) refl, Cleaned-cons session_id k f m c t h s)
    ]

-- What changes the table: a port that a device confirms, a removal, and the end of a session.
pub data Event : Type 0 where
  confirms : Bool → ℕ → ℕ → List ℕ → List ℕ → Event
  removes : List ℕ → Event
  cleans : ℕ → Event

abbrev pub turn : Event → ForwardMap → Option ForwardMap
turn (confirms allocated session_id channel_id connect_key payload) m =
    some (forward_add allocated (forward_of session_id channel_id connect_key payload) m)
turn (removes task) m = some (forward_remove task m)
turn (cleans session_id) m = clean_forward_map (suc (length m)) session_id m

abbrev pub turn_from : Event → Option ForwardMap → Option ForwardMap
turn_from e none = none
turn_from e (some m) = turn e m

-- The table after some events, the last one in front; none if a loop has not ended.
unfoldable pub forwards_of : List Event → Option ForwardMap
forwards_of [] = some []
forwards_of (e ∷ es) = turn_from e (forwards_of es)

turn-IsForwards :
    (e : Event) (m : ForwardMap)
    → IsForwards m
    → (c : ForwardMap) × (turn e m ≡ some c) × IsForwards c
unfolding forward_add forward_remove
turn-IsForwards (confirms allocated session_id channel_id connect_key payload) m t =
    let f = forward_of session_id channel_id connect_key payload in
    (
      forward_add allocated f m,
      refl,
      add_forward-IsForwards allocated f m (joined (entry_of f.task_string m)) t,
    )
turn-IsForwards (removes task) m t = (forward_remove task m, refl, erase_entry-IsForwards task m t)
turn-IsForwards (cleans session_id) m t =
    let (c, e, h) = clean_forward_map-Cleaned (suc (length m)) session_id m (omega arith) t in
    (c, e, h.in_order)

forwards_of-IsForwards :
    (es : List Event) → (m : ForwardMap) × (forwards_of es ≡ some m) × IsForwards m
unfolding forwards_of
forwards_of-IsForwards [] = ([], refl, tt)
forwards_of-IsForwards (e ∷ es) =
    let (m, q, t) = forwards_of-IsForwards es in
    let (c, r, u) = turn-IsForwards e m t in (c, ap (turn_from e) q ∙ r, u)

-- Whatever ports are confirmed or removed and whatever sessions end, every loop of `CleanForwardMap` ends
-- within one turn more than the table has entries, also the next one, for any session: after it `OP_QUERY`
-- answers for every task what it answered before, but nothing for the ports of that session, or of all
-- sessions for 0.
pub clean_forward_map-others :
    (es : List Event) (session_id : ℕ)
    → (m : ForwardMap) × (c : ForwardMap) × (forwards_of es ≡ some m)
      × (clean_forward_map (suc (length m)) session_id m ≡ some c)
      × ((task : List ℕ) → forward_query task c ≡ others session_id (forward_query task m))
clean_forward_map-others es session_id =
    let (m, q, t) = forwards_of-IsForwards es in
    let (c, e, h) = clean_forward_map-Cleaned (suc (length m)) session_id m (omega arith) t in
    (m, c, q, e, h.answers)
