-- ===== src/Session/Life/Safe.antt =====
-- session.cpp: the handles, the references and the end of a session over TCP, over any interleaving of its
-- threads.
use supertools_public.Common.{
  ℕ, zero, suc, ◌+◌, ◌^◌, ◌≤◌, ◌<◌, ◌≡◌, Bool, true, false, ◌||◌, some, arith, if◌then◌else◌,
}
use supertools_public.Session.Admin.{conn_tcp}
use supertools_public.Session.Life.{
  UvHandle, SessionLife, malloc_session_by_connect_type, malloc_session, query_session,
  look_at_dead, write_returns, leave_session, free_session_main, connect, session_work_cleared,
  session_work_end, past, try_close_handle, is_tcp, free_session_continue, free_session_opeate,
  free_session_check, handle_of, HandleName, poll_main_handle, data_pipe_handle, work_tcp_handle,
  close_session_tcp_handle, free_session_finally,
}
use supertools_public.Session.Life.Steps.{
  Step, Reaches, requests, connects, queries, looks, writes, leaves, frees, operates, clears, ends,
  checks, shuts, closes, finishes, here, there,
}

abbrev pub one : Bool → ℕ
one b = if b then 1 else 0

-- In how many stages of its end a session is.
abbrev pub stages : SessionLife → ℕ
stages s = one s.operates + one s.checks + one s.finishes + one s.deleted

abbrev ending : SessionLife → Bool
ending s = s.finishes || s.deleted

-- A handle that libuv owes a callback on is closing and counts, and one does not count before it closes.
abbrev HandleSound : UvHandle → Type 0
HandleSound h =
    (h.owes ≡ true → (h.closing ≡ true) × (h.counts ≡ true)) × (h.counts ≡ false → h.closing ≡ true)

record Threads (s : SessionLife) : Type 0 where
  worked : s.working ≡ true → (s.work_loop ≡ true)
  requested : s.connecting ≡ true → (s.work_loop ≡ false) × (s.child_cleared ≡ false)
  stopped : s.stop_sent ≡ true → (past s ≡ true) × (s.work_loop ≡ true)
  ended :
      ending s ≡ true → (s.working ≡ true → s.child_cleared ≡ true) × (s.work_tcp.closing ≡ true)

record Handles (s : SessionLife) : Type 0 where
  over_tcp : is_tcp s.conn_type ≡ true
  counted :
      s.uv_handle_ref ≡ one s.poll_main.counts + one s.data_pipe.counts + one s.work_tcp.counts
  poll_sound : HandleSound s.poll_main
  pipe_sound : HandleSound s.data_pipe
  tcp_sound : HandleSound s.work_tcp
  kept :
      ending s ≡ false
      → (s.poll_main.closing ≡ false)
        × (s.data_pipe.closing ≡ false)
        × (s.work_tcp.counts ≡ true)
        × (s.work_tcp.owes ≡ false)
  released : s.deleted ≡ true → s.uv_handle_ref ≡ 0
  waiting :
      ending s ≡ true
      → (s.poll_main.owes ≡ s.poll_main.counts)
        × (s.data_pipe.owes ≡ s.data_pipe.counts)
        × (s.work_tcp.owes ≡ s.work_tcp.counts)

-- After `n` steps: each reference is accounted for, the session is in one stage of its end exactly if it
-- is dead, and past the first stage nothing is written.
record Refs (n : ℕ) (s : SessionLife) : Type 0 where
  referred : s.ref ≡ s.held + s.sending + s.leaving
  bounded : s.ref ≤ n
  staged : stages s ≡ one s.is_dead
  quiet : past s ≡ true → (s.sending ≡ 0) × (s.ref ≤ s.late)

Step-Refs : (n : ℕ) {s t : SessionLife} → suc n < 2 ^ 32 → Step s t → Refs n s → Refs (suc n) t
unfolding query_session look_at_dead write_returns leave_session free_session_main connect
    session_work_cleared session_work_end free_session_opeate free_session_check
    free_session_continue free_session_finally close_session_tcp_handle
Step-Refs n h (requests {s} a b c d) r = ground arith
Step-Refs n h (connects {s} ok g a b) r = ground arith
Step-Refs n h (queries {s} l) r = ground arith
Step-Refs n h (looks {s} filled g l) r = ground arith
Step-Refs n h (writes {s} g l) r = ground arith
Step-Refs n h (leaves {s} g l) r = ground arith
Step-Refs n h (frees {s}) r = ground arith
Step-Refs n h (operates {s} l) r = ground arith
Step-Refs n h (ends {s} l k) r = ground arith
Step-Refs n h (clears {s} g l k) r = ground arith
Step-Refs n h (checks {s} l) r = ground arith
Step-Refs n h (shuts {s} g) r = ground arith
Step-Refs n h (closes {s} poll_main_handle l) r = ground arith
Step-Refs n h (closes {s} data_pipe_handle l) r = ground arith
Step-Refs n h (closes {s} work_tcp_handle l) r = ground arith
Step-Refs n h (finishes {s} l) r = ground arith

Step-Threads : (n : ℕ) {s t : SessionLife} → Step s t → Refs n s → Handles s → Threads s → Threads t
unfolding query_session look_at_dead write_returns leave_session free_session_main connect
    session_work_cleared session_work_end free_session_opeate free_session_check
    free_session_continue free_session_finally try_close_handle is_tcp close_session_tcp_handle
Step-Threads n (requests {s} a b c d) r k i = ground arith
Step-Threads n (connects {s} ok g a b) r k i = ground arith
Step-Threads n (queries {s} l) r k i = ground arith
Step-Threads n (looks {s} filled g l) r k i = ground arith
Step-Threads n (writes {s} g l) r k i = ground arith
Step-Threads n (leaves {s} g l) r k i = ground arith
Step-Threads n (frees {s}) r k i = ground arith
Step-Threads n (operates {s} l) r k i = ground arith
Step-Threads n (ends {s} l m) r k i = ground arith
Step-Threads n (clears {s} g l m) r k i = ground arith
Step-Threads n (checks {s} l) r k i = ground arith
Step-Threads n (shuts {s} g) r k i = ground arith
Step-Threads n (closes {s} poll_main_handle l) r k i = ground arith
Step-Threads n (closes {s} data_pipe_handle l) r k i = ground arith
Step-Threads n (closes {s} work_tcp_handle l) r k i = ground arith
Step-Threads n (finishes {s} l) r k i = ground arith

Step-Handles : (n : ℕ) {s t : SessionLife} → Step s t → Refs n s → Handles s → Handles t
unfolding query_session look_at_dead write_returns leave_session free_session_main connect
    session_work_cleared session_work_end free_session_opeate free_session_check
    free_session_continue free_session_finally try_close_handle close_session_tcp_handle
Step-Handles n (requests {s} a b c d) r k = ground arith
Step-Handles n (connects {s} ok g a b) r k = ground arith
Step-Handles n (queries {s} l) r k = ground arith
Step-Handles n (looks {s} filled g l) r k = ground arith
Step-Handles n (writes {s} g l) r k = ground arith
Step-Handles n (leaves {s} g l) r k = ground arith
Step-Handles n (frees {s}) r k = ground arith
Step-Handles n (operates {s} l) r k = ground arith
Step-Handles n (ends {s} l m) r k = ground arith
Step-Handles n (clears {s} g l m) r k = ground arith
Step-Handles n (checks {s} l) r k = ground arith
Step-Handles n (shuts {s} g) r k = ground arith
Step-Handles n (closes {s} poll_main_handle l) r k = ground arith
Step-Handles n (closes {s} data_pipe_handle l) r k = ground arith
Step-Handles n (closes {s} work_tcp_handle l) r k = ground arith
Step-Handles n (finishes {s} l) r k = ground arith

record Sound (n : ℕ) (s : SessionLife) : Type 0 where
  refs : Refs n s
  handles : Handles s
  threads : Threads s

malloc_session-Sound : (s : SessionLife) → malloc_session conn_tcp ≡ some s → Sound 0 s
unfolding malloc_session malloc_session_by_connect_type is_tcp
malloc_session-Sound s e = ground arith

reached-Sound : (n : ℕ) (s : SessionLife) → n < 2 ^ 32 → Reaches n s → Sound n s
reached-Sound zero s h (here e) = malloc_session-Sound s e
reached-Sound _ t h (there {n} {s} r d) =
    let i = reached-Sound n s (omega arith) r in
    record {
      refs = Step-Refs n h d i.refs;
      handles = Step-Handles n d i.refs i.handles;
      threads = Step-Threads n d i.refs i.handles i.threads;
    }

-- A handle is closed, and libuv owes no callback on it.
abbrev pub Released : UvHandle → Type 0
Released h = (h.closing ≡ true) × (h.owes ≡ false)

-- In every state that a session over TCP reaches in fewer than 2 ^ 32 steps, as long as nothing reads or
-- writes it once it is deleted: if it has been deleted, no thread writes for it, the calls of `Send` that
-- still refer to it are at most as many as have asked for it after `FreeSessionOpeate` saw it without a
-- reference, its own thread has ended but for the message of the log behind `childCleared`, and each of its
-- handles is closed without a callback that libuv owes; and it is in exactly one stage of its end if it is
-- dead, in none otherwise.
pub session-deleted :
    (n : ℕ) (s : SessionLife)
    → n < 2 ^ 32
    → Reaches n s
    → (s.deleted ≡ true
        → (s.sending ≡ 0)
          × (s.held + s.leaving ≤ s.late)
          × (s.working ≡ true → s.child_cleared ≡ true)
          × Released s.poll_main
          × Released s.data_pipe
          × Released s.work_tcp)
      × (stages s ≡ one s.is_dead)
session-deleted n s h r =
    let i = reached-Sound n s h r in
    let a = i.refs in let b = i.handles in let c = i.threads in ground arith

-- Libuv's callback on a handle, if it owes one.
abbrev pub call_back : HandleName → SessionLife → SessionLife
call_back k s = if (handle_of k s).owes then close_session_tcp_handle k s else s

-- The turns that end a session once it is freed.
abbrev pub end_session : SessionLife → SessionLife
end_session s =
    let t : SessionLife = free_session_opeate false (free_session_main s) in
    let u : SessionLife =
      if t.checks then free_session_check (session_work_end (session_work_cleared t)) else t in
    free_session_finally
      (call_back work_tcp_handle (call_back data_pipe_handle (call_back poll_main_handle u)))

-- A live session over TCP that is in the table and has no references, in any state that it reaches in fewer
-- than 2 ^ 32 steps: freed, it is deleted and off the table after one turn of the timer, the end of its
-- thread and one turn of the check if it has a thread, the callbacks that libuv then owes on its handles, and
-- one turn of the idle task.
pub free_session-ends :
    (n : ℕ) (s : SessionLife)
    → n < 2 ^ 32
    → Reaches n s
    → s.listed ≡ true
    → s.is_dead ≡ false
    → s.ref ≡ 0
    → ((end_session s).deleted ≡ true) × ((end_session s).listed ≡ false)
unfolding free_session_main session_work_cleared session_work_end free_session_opeate
    free_session_check free_session_continue free_session_finally try_close_handle
    close_session_tcp_handle
free_session-ends n s h r l d e =
    let i = reached-Sound n s h r in let a = i.refs in let b = i.handles in ground arith
