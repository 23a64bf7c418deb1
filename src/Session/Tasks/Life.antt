-- ===== src/Session/Tasks/Life.antt =====
-- session.cpp: where the tasks of a session stand, over any sequence of its events.
use supertools_public.Common.{
  ℕ, ◌+◌, ◌<◌, ◌≡◌, ◌≢◌, refl, ap, ◌∙◌, Bool, Option, none, some, List, [], ◌∷◌, ltb, ◌==◌,
  if◌then◌else◌, length, find, find-put_self, Map, ◌||◌, true, false, Sorted, Sorted-put, arith,
  Bool-cases, inl, inr, ◌⊎◌, ==_self,
}
use supertools_public.Session.Admin.{Sessions}
use supertools_public.Session.Tasks.{
  Tasks, Dispatched, redirected, returned, task_query, admin_task, add_new_task, redirect,
  dispatch_task_data, clear_own_tasks, try_remove_task, remove_handle, delete_retry,
  need_new_task_info,
}
use supertools_public.Session.Tasks.Clear.{
  count, count_map, Running, count_map-put, count-delete_old, set_task_ne, Single, clear_loop_lem,
}

abbrev pub uses : Tasks → ℕ → ℕ
uses t h = count_map h t.map_task + count h t.timers + count h t.deleted

-- Each handle below `next` stands once, and no other stands at all; the tasks of the map are running.
abbrev pub Owned : Tasks → Type 0
Owned t =
    Sorted t.map_task
    × ((h : ℕ) → uses t h ≡ (if ltb h t.next then 1 else 0))
    × ((h : ℕ) → 0 < count_map h t.map_task → Running (t.tasks h))

clear_own_tasks-Owned : (c : ℕ) (t : Tasks) → Owned t → Owned (clear_own_tasks c t)
unfolding clear_own_tasks
clear_own_tasks-Owned c t (sorted, once, run) =
    let u : Tasks = record t { task_count = length t.map_task } in
    let single : Single t.map_task u = (λ h. ground (arith, once h), run) in
    let (counts, d, n, run', others, above, sorted') = clear_loop_lem c t.map_task u single in
    (sorted' sorted, λ h. rw (counts h, d, n) (once h), run')

add_new_task-Owned :
    (server : Bool) (sid cid : ℕ) (master : Bool) (s : Sessions) (t : Tasks)
    → Owned t
    → Owned (add_new_task server sid cid master s t).2
unfolding add_new_task admin_task
add_new_task-Owned server sid cid master s t (sorted, once, run) = (
  Sorted-put cid t.next t.map_task sorted,
  λ h. ground (
    arith,
    once h,
    count_map-put h cid t.next t.map_task sorted,
    count-delete_old h (find cid t.map_task) t.deleted,
  ),
  λ h p. elim (Bool-cases (h == t.next)) [
    | inl e ↦ rw e (refl, refl)
    | inr e ↦ rw e (run h (ground (arith, count_map-put h cid t.next t.map_task sorted)))
  ],
)

redirect-tasks : (r : Option ℕ × Sessions × Tasks) → (redirect r).2 ≡ r.2
redirect-tasks (none, s, t) = refl
redirect-tasks (some h, s, t) = refl

dispatch_task_data-tasks :
    (alloc server : Bool) (sid cid command : ℕ) (s : Sessions) (t : Tasks)
    → let u = (dispatch_task_data alloc server sid cid command s t).2 in
      (u ≡ t) ⊎ (u ≡ (add_new_task server sid cid (need_new_task_info server command).1 s t).2)
unfolding dispatch_task_data admin_task
dispatch_task_data-tasks alloc server sid cid command s t =
    let a = redirect-tasks (admin_task server task_query sid cid s t) in
    let b =
      redirect-tasks (add_new_task server sid cid (need_new_task_info server command).1 s t) in
    elim (Bool-cases (need_new_task_info server command).0) [
      | inl e ↦ elim (Bool-cases alloc) [ inl f ↦ rw (e, f) (inr b) | inr f ↦ rw (e, f) (inl refl) ]
      | inr e ↦ rw e (inl a)
    ]

dispatch_task_data-Owned :
    (alloc server : Bool) (sid cid command : ℕ) (s : Sessions) (t : Tasks)
    → Owned t
    → Owned (dispatch_task_data alloc server sid cid command s t).2
dispatch_task_data-Owned alloc server sid cid command s t o =
    elim (dispatch_task_data-tasks alloc server sid cid command s t) [
      | inl e ↦ rw e o
      | inr e ↦ rw e (add_new_task-Owned server sid cid (need_new_task_info server command).1 s t o)
    ]

count-remove_handle :
    (h i : ℕ) (is : List ℕ) → count i (remove_handle h is) ≡ (if i == h then 0 else count i is)
count-remove_handle h i [] = ground arith
count-remove_handle h i (j ∷ is) = ground (arith, count-remove_handle h i is)

delete_retry_lem :
    (removable : Bool) (h : ℕ) (t : Tasks)
    → count h t.timers ≡ 1
    → let u = delete_retry removable h t in
      (u.map_task ≡ t.map_task)
      × (u.next ≡ t.next)
      × ((i : ℕ) → i ≢ h → u.tasks i ≡ t.tasks i)
      × ((i : ℕ) → count i u.timers + count i u.deleted ≡ count i t.timers + count i t.deleted)
unfolding delete_retry try_remove_task
delete_retry_lem removable h t p =
    let gone : (i : ℕ)
        → count i (remove_handle h t.timers) + count i (h ∷ t.deleted)
          ≡ count i t.timers + count i t.deleted =
      λ i. ground (arith, count-remove_handle h i t.timers) in
    elim (Bool-cases (t.tasks h).task_free) [
      | inl e ↦ rw e (refl, refl, λ i ne. set_task_ne h i _ t.tasks ne, gone)
      | inr e ↦ elim (Bool-cases removable) [
        | inl f ↦ rw (e, f) (refl, refl, λ i ne. set_task_ne h i _ t.tasks ne, gone)
        | inr f ↦ rw (e, f) (refl, refl, λ i ne. set_task_ne h i _ t.tasks ne, λ i. refl)
      ]
    ]

delete_retry-Owned :
    (removable : Bool) (h : ℕ) (t : Tasks)
    → 0 < count h t.timers
    → Owned t
    → Owned (delete_retry removable h t)
delete_retry-Owned removable h t p (sorted, once, run) =
    let (m, n, others, counts) = delete_retry_lem removable h t (ground (arith, once h)) in
    rw (m, n)
      (
        sorted,
        λ i. omega (arith, counts i) ∙ once i,
        λ i q. rw (others i (λ e. ground (arith, once h))) (run i q),
      )

-- What the thread of a session does to its tasks: data that arrives, a clearing of one channel's task or of
-- all, and the timer of a task that is being removed.
pub data Step : Tasks → Tasks → Type 0 where
  dispatches :
      {t : Tasks} (alloc server : Bool) (session_id channel_id command : ℕ) (s : Sessions)
      → Step t (dispatch_task_data alloc server session_id channel_id command s t).2
  clears : {t : Tasks} (channel_id : ℕ) → Step t (clear_own_tasks channel_id t)
  fires :
      {t : Tasks} (removable : Bool) (h : ℕ)
      → 0 < count h t.timers
      → Step t (delete_retry removable h t)

pub data Reaches : Tasks → Tasks → Type 0 where
  here : {t : Tasks} → Reaches t t
  there : {t u v : Tasks} → Reaches t u → Step u v → Reaches t v

Step-Owned : {t u : Tasks} → Step t u → Owned t → Owned u
Step-Owned (dispatches {t} alloc server sid cid command s) o =
    dispatch_task_data-Owned alloc server sid cid command s t o
Step-Owned (clears {t} c) o = clear_own_tasks-Owned c t o
Step-Owned (fires {t} removable h p) o = delete_retry-Owned removable h t p o

-- A task that may be used: not deleted, and under its channel, neither stopped nor freed.
abbrev pub Usable : ℕ → ℕ → Tasks → Type 0
Usable channel_id h t =
    (find channel_id t.map_task ≡ some h) × (count h t.deleted ≡ 0) × Running (t.tasks h)

find-count_map : (c h : ℕ) (m : Map ℕ) → find c m ≡ some h → 0 < count_map h m
find-count_map c h [] f = cc
find-count_map c h ((j, i) ∷ m) f = ground (arith, find-count_map c h m, ==_self h)

found-Usable : (c h : ℕ) (t : Tasks) → Owned t → find c t.map_task ≡ some h → Usable c h t
found-Usable c h t (sorted, once, run) f =
    let p = find-count_map c h t.map_task f in (f, ground (arith, once h), run h p)

-- The task that `RedirectToTask` is called on, if it is called.
abbrev pub Redirects : ℕ → Dispatched × Sessions × Tasks → Type 0
Redirects channel_id (d, s, t) = (h : ℕ) → d ≡ redirected h → Usable channel_id h t

redirected_task :
    (b : Bool) (i h : ℕ) → (if b then returned true else redirected i) ≡ redirected h → i ≡ h
redirected_task true i h e = cc
redirected_task false i h e = cc

redirect-Redirects :
    (c : ℕ) (o : Option ℕ) (s : Sessions) (t : Tasks)
    → ((h : ℕ) → o ≡ some h → Usable c h t)
    → Redirects c (redirect (o, s, t))
redirect-Redirects c none s t u h e = cc
redirect-Redirects c (some i) s t u h e =
    u h (ap some (redirected_task ((t.tasks i).task_stop || (t.tasks i).task_free) i h e))

add_new_task-Redirects :
    (server : Bool) (sid c : ℕ) (master : Bool) (s : Sessions) (t : Tasks)
    → Owned t
    → Redirects c (redirect (add_new_task server sid c master s t))
unfolding add_new_task admin_task
add_new_task-Redirects server sid c master s t o =
    let r = add_new_task server sid c master s t in
    redirect-Redirects c (some t.next) s r.2 (λ h e.
      found-Usable c h r.2 (add_new_task-Owned server sid c master s t o)
        (find-put_self c t.next t.map_task ∙ e))

dispatch_task_data-Redirects :
    (alloc server : Bool) (sid c command : ℕ) (s : Sessions) (t : Tasks)
    → Owned t
    → Redirects c (dispatch_task_data alloc server sid c command s t)
unfolding dispatch_task_data admin_task
dispatch_task_data-Redirects alloc server sid c command s t o =
    let (new, master) = need_new_task_info server command in
    elim (Bool-cases new) [
      | inl e ↦ elim (Bool-cases alloc) [
        | inl f ↦ rw (e, f) (add_new_task-Redirects server sid c master s t o)
        | inr f ↦ rw (e, f) (λ h p. cc)
      ]
      | inr e ↦ rw e (redirect-Redirects c (find c t.map_task) s t (λ h f. found-Usable c h t o f))
    ]

reached-Owned : (t u : Tasks) → Owned t → Reaches t u → Owned u
reached-Owned t u o here = o
reached-Owned t u o (there r s) = Step-Owned s (reached-Owned t _ o r)

-- Whatever data arrive, whichever tasks are cleared and whenever timers fire: each task made so far is in
-- exactly one place, the map of a channel, a timer or the deleted ones, and there once. So none is deleted
-- twice, no timer or channel holds a deleted one, and none is lost; those of the map are neither stopped nor
-- freed. Data that come next are handed to no task, or to one that is not deleted, stands under their channel
-- then, and is neither stopped nor freed; a timer that fires next is of a task that is not deleted. This holds
-- from any state that has the first part.
pub tasks-Owned :
    (t u : Tasks)
    → Owned t
    → Reaches t u
    → Owned u
      × ((alloc server : Bool) (session_id channel_id command : ℕ) (s : Sessions)
          → Redirects channel_id
              (dispatch_task_data alloc server session_id channel_id command s u))
      × ((h : ℕ) → 0 < count h u.timers → count h u.deleted ≡ 0)
tasks-Owned t u o r =
    let p = reached-Owned t u o r in
    (
      p,
      λ alloc server sid c command s. dispatch_task_data-Redirects alloc server sid c command s u p,
      λ h k. ground (arith, p.1 h),
    )
