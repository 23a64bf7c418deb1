-- ===== src/Session/Tasks/Clear.antt =====
-- session.cpp: the loop of `ClearOwnTasks`, and the handles that it moves.
use supertools_public.Common.{
  ℕ, ◌+◌, ◌<◌, ◌≤◌, ◌≡◌, ◌≢◌, refl, ◌∙◌, true, false, Option, none, some, List, [], ◌∷◌, ◌==◌,
  if◌then◌else◌, Map, find, put, find-below, Above, Sorted, arith, ==_iff, ==_self, ==_ne,
  Bool-cases, inl, inr,
}
use supertools_public.Session.Tasks.{
  TaskInformation, Tasks, set_task, delete_old, begin_remove_task, clear_loop,
}

-- How often a handle stands in a list, and in a map.
abbrev pub count : ℕ → List ℕ → ℕ
count h [] = 0
count h (i ∷ is) = (if h == i then 1 else 0) + count h is

abbrev pub count_map : ℕ → Map ℕ → ℕ
count_map h [] = 0
count_map h ((c, i) ∷ m) = (if h == i then 1 else 0) + count_map h m

abbrev pub Running : TaskInformation → Type 0
Running x = (x.task_stop ≡ false) × (x.task_free ≡ false)

pub count_map-put :
    (h k v : ℕ) (m : Map ℕ)
    → Sorted m
    → count_map h (put k v m) + count h (delete_old (find k m) [])
      ≡ (if h == v then 1 else 0) + count_map h m
count_map-put h k v [] s = ground arith
count_map-put h k v ((i, w) ∷ m) s = ground (arith, count_map-put h k v m, find-below k i m)

pub count-delete_old :
    (h : ℕ) (o : Option ℕ) (d : List ℕ)
    → count h (delete_old o d) ≡ count h (delete_old o []) + count h d
count-delete_old h none d = omega arith
count-delete_old h (some i) d = omega arith

begin_remove_task_lem :
    (h : ℕ) (t : Tasks)
    → Running (t.tasks h)
    → begin_remove_task h t ≡ record t {
      timers = h ∷ t.timers;
      tasks = set_task h (record (t.tasks h) { task_stop = true }) t.tasks;
    }
unfolding begin_remove_task
begin_remove_task_lem h t r = ground arith

pub set_task_ne :
    (h i : ℕ) (x : TaskInformation) (f : ℕ → TaskInformation) → i ≢ h → set_task h x f i ≡ f i
set_task_ne h i x f ne = rw (==_ne i h ne) refl

-- What the loop of `ClearOwnTasks` makes of running tasks that stand in the map once each.
abbrev pub Cleared : Map ℕ → Tasks → Map ℕ × Tasks → Type 0
Cleared m t (kept, u) =
    ((h : ℕ) → count_map h kept + count h u.timers ≡ count_map h m + count h t.timers)
    × (u.deleted ≡ t.deleted)
    × (u.next ≡ t.next)
    × ((h : ℕ) → 0 < count_map h kept → Running (u.tasks h))
    × ((h : ℕ) → count_map h m ≡ 0 → u.tasks h ≡ t.tasks h)
    × ((j : ℕ) → Above j m → Above j kept)
    × (Sorted m → Sorted kept)

abbrev pub Single : Map ℕ → Tasks → Type 0
Single m t = ((h : ℕ) → count_map h m ≤ 1) × ((h : ℕ) → 0 < count_map h m → Running (t.tasks h))

-- One running task removed.
abbrev Removed : ℕ → Tasks → Tasks → Type 0
Removed h t u =
    (u.timers ≡ h ∷ t.timers)
    × (u.deleted ≡ t.deleted)
    × (u.next ≡ t.next)
    × ((i : ℕ) → i ≢ h → u.tasks i ≡ t.tasks i)

begin_remove_task-Removed :
    (h : ℕ) (t : Tasks) → Running (t.tasks h) → Removed h t (begin_remove_task h t)
begin_remove_task-Removed h t r =
    rw (begin_remove_task_lem h t r) (refl, refl, refl, λ i ne. set_task_ne h i _ t.tasks ne)

count_ne : (k h i : ℕ) (m : Map ℕ) → count_map i ((k, h) ∷ m) ≡ 0 → i ≢ h
count_ne k h i m e p = ground (arith, ==_self h)

apart : (k h i : ℕ) (m : Map ℕ) → count_map i ((k, h) ∷ m) ≤ 1 → 0 < count_map i m → i ≢ h
apart k h i m e p q = ground (arith, ==_self h)

Single-tail : (k h : ℕ) (m : Map ℕ) (t : Tasks) → Single ((k, h) ∷ m) t → Single m t
Single-tail k h m t s = (λ i. omega (arith, s.0 i), λ i p. s.1 i (omega (arith, p)))

Single-Removed :
    (k h : ℕ) (m : Map ℕ) (t u : Tasks) → Single ((k, h) ∷ m) t → Removed h t u → Single m u
Single-Removed k h m t u s r =
    let (once, run) = Single-tail k h m t s in
    (once, λ i p. rw (r.3 i (apart k h i m (s.0 i) p)) (run i p))

Cleared-all :
    (k h : ℕ) (m : Map ℕ) (t u : Tasks) (r : Map ℕ × Tasks)
    → Removed h t u
    → Cleared m u r
    → Cleared ((k, h) ∷ m) t r
Cleared-all k h m t u r (timers, deleted, next, same) (counts, d, n, run, others, above, sorted) = (
  λ i. counts i ∙ rw timers (omega arith),
  d ∙ deleted,
  n ∙ next,
  run,
  λ i e. others i (omega (arith, e)) ∙ same i (count_ne k h i m e),
  λ j a. above j a.1,
  λ a. sorted a.1,
)

Cleared-one :
    (k h : ℕ) (m : Map ℕ) (t u : Tasks) → Removed h t u → Single m u → Cleared ((k, h) ∷ m) t (m, u)
Cleared-one k h m t u (timers, deleted, next, same) s = (
  λ i. rw timers (omega arith),
  deleted,
  next,
  s.1,
  λ i e. same i (count_ne k h i m e),
  λ j a. a.1,
  λ a. a.1,
)

Cleared-skip :
    (k h : ℕ) (m : Map ℕ) (t : Tasks) (r : Map ℕ × Tasks)
    → Single ((k, h) ∷ m) t
    → Cleared m t r
    → Cleared ((k, h) ∷ m) t ((k, h) ∷ r.0, r.1)
Cleared-skip k h m t r s (counts, d, n, run, others, above, sorted) = (
  λ i. omega (arith, counts i),
  d,
  n,
  λ i p. elim (Bool-cases (i == h)) [
    | inl e ↦ rw ((==_iff i h).0 e) (
        let here : count_map h m ≡ 0 = ground (arith, s.0 h, ==_self h) in
        rw (others h here) (s.1 h (rw (==_self h) (omega arith))))
    | inr e ↦ run i (ground arith)
  ],
  λ i e. others i (omega (arith, e)),
  λ j a. (a.0, above j a.1),
  λ a. (above k a.0, sorted a.1),
)

pub clear_loop_lem : (c : ℕ) (m : Map ℕ) (t : Tasks) → Single m t → Cleared m t (clear_loop c m t)
unfolding clear_loop
clear_loop_lem c [] t s =
    (λ h. refl, refl, refl, λ h p. absurd (omega (arith, p)), λ h p. refl, λ j a. a, λ a. a)
clear_loop_lem c ((k, h) ∷ m) t s =
    let r = begin_remove_task-Removed h t (s.1 h (rw (==_self h) (omega arith))) in
    let s' = Single-Removed k h m t (begin_remove_task h t) s r in
    elim (Bool-cases (c == 0)) [
      | inl e ↦ rw e (
          Cleared-all k h m t (begin_remove_task h t) (clear_loop c m (begin_remove_task h t)) r
            (clear_loop_lem c m (begin_remove_task h t) s'))
      | inr e ↦ elim (Bool-cases (c == k)) [
        | inl p ↦ rw (e, p) (Cleared-one k h m t (begin_remove_task h t) r s')
        | inr p ↦
            rw (e, p)
              (Cleared-skip k h m t (clear_loop c m t) s
                (clear_loop_lem c m t (Single-tail k h m t s)))
      ]
    ]
