-- ===== src/Session/Life/Steps.antt =====
-- session.cpp: what happens to a session over TCP, as steps of its threads and of libuv.
use supertools_public.Common.{ℕ, suc, ◌<◌, ◌≡◌, Bool, true, false, ◌&&◌, some}
use supertools_public.Session.Admin.{conn_tcp}
use supertools_public.Session.Life.{
  SessionLife, malloc_session, query_session, look_at_dead, write_returns, leave_session,
  free_session_main, connect, session_work_cleared, session_work_end, close_early,
  free_session_opeate, free_session_check, handle_of, HandleName, close_session_tcp_handle,
  free_session_finally,
}

-- What can happen to a session over TCP, by the threads that send, its own and the main one. A connect
-- request fails once its handle is closing, its callback comes before that of the handle, and the thread ends
-- when it has been told to stop. Nothing is said of a call that reads or writes a session once it is deleted:
-- that would be a use of freed memory, and there is no step for it.
pub data Step : SessionLife → SessionLife → Type 0 where
  requests :
      {s : SessionLife}
      → s.work_loop ≡ false
      → s.connecting ≡ false
      → s.is_dead ≡ false
      → s.child_cleared ≡ false
      → Step s (record s { connecting = true })
  connects :
      {s : SessionLife} (connected : Bool)
      → s.deleted ≡ false
      → s.connecting ≡ true
      → connected && s.work_tcp.closing ≡ false
      → Step s (connect connected s)
  queries : {s : SessionLife} → s.listed ≡ true → Step s (query_session s)
  looks :
      {s : SessionLife} (filled : Bool)
      → s.deleted ≡ false
      → 0 < s.held
      → Step s (look_at_dead filled s)
  writes : {s : SessionLife} → s.deleted ≡ false → 0 < s.sending → Step s (write_returns s)
  leaves : {s : SessionLife} → s.deleted ≡ false → 0 < s.leaving → Step s (leave_session s)
  frees : {s : SessionLife} → Step s (free_session_main s)
  operates : {s : SessionLife} → s.operates ≡ true → Step s (free_session_opeate false s)
  clears :
      {s : SessionLife}
      → s.deleted ≡ false
      → s.working ≡ true
      → s.stop_sent ≡ true
      → Step s (session_work_cleared s)
  ends : {s : SessionLife} → s.working ≡ true → s.child_cleared ≡ true → Step s (session_work_end s)
  checks : {s : SessionLife} → s.checks ≡ true → Step s (free_session_check s)
  shuts :
      {s : SessionLife}
      → s.deleted ≡ false
      → Step s (record s { work_tcp = close_early s.work_tcp })
  closes :
      {s : SessionLife} (k : HandleName)
      → (handle_of k s).owes ≡ true
      → Step s (close_session_tcp_handle k s)
  finishes : {s : SessionLife} → s.finishes ≡ true → Step s (free_session_finally s)

-- The states of a session over TCP after so many steps.
pub data Reaches : ℕ → SessionLife → Type 0 where
  here : {s : SessionLife} → malloc_session conn_tcp ≡ some s → Reaches 0 s
  there : {n : ℕ} {s t : SessionLife} → Reaches n s → Step s t → Reaches (suc n) t
