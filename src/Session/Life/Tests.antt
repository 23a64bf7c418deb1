-- ===== src/Session/Life/Tests.antt =====
-- The theorems on the end of a session, at concrete inputs.
use supertools_public.Common.{◌+◌, ◌≤◌, ◌≡◌, refl, true, false, some, arith}
use supertools_public.Session.Admin.{conn_tcp}
use supertools_public.Session.Life.{
  SessionLife, open_handle, new_session, malloc_session_by_connect_type, malloc_session,
  free_session_main, connect, session_work_cleared, try_close_handle, is_tcp, free_session_continue,
  free_session_opeate, free_session_check, poll_main_handle, data_pipe_handle, work_tcp_handle,
  close_session_tcp_handle, free_session_finally,
}
use supertools_public.Session.Life.Steps.{
  Reaches, requests, connects, frees, operates, clears, checks, closes, finishes, here, there,
}
use supertools_public.Session.Life.Safe.{
  one, stages, Released, end_session, session-deleted, free_session-ends,
}

abbrev tcp_session : SessionLife
tcp_session = record (new_session conn_tcp) {
  work_tcp = open_handle;
  uv_handle_ref = 3;
  listed = true;
}

tcp_session_malloc : malloc_session conn_tcp ≡ some tcp_session
unfolding malloc_session malloc_session_by_connect_type
tcp_session_malloc = refl

abbrev joined : SessionLife
joined = connect true (record tcp_session { connecting = true })

joined_reached : Reaches 2 joined
joined_reached =
    there (there (here tcp_session_malloc) (requests refl refl refl refl))
      (connects true refl refl refl)

abbrev told : SessionLife
told = free_session_opeate false (free_session_main joined)

abbrev checked : SessionLife
checked = free_session_check (session_work_cleared told)

abbrev drained : SessionLife
drained =
    close_session_tcp_handle work_tcp_handle (
      close_session_tcp_handle data_pipe_handle (close_session_tcp_handle poll_main_handle checked))

told_reached : Reaches 4 told
unfolding connect free_session_main
told_reached = there (there joined_reached frees) (operates refl)

checked_reached : Reaches 6 checked
unfolding connect free_session_main free_session_opeate session_work_cleared
checked_reached = there (there told_reached (clears refl refl refl)) (checks refl)

drained_reached : Reaches 9 drained
unfolding connect free_session_main free_session_opeate session_work_cleared free_session_check
    free_session_continue try_close_handle close_session_tcp_handle is_tcp
drained_reached =
    there
      (there (there checked_reached (closes poll_main_handle refl)) (closes data_pipe_handle refl))
      (closes work_tcp_handle refl)

session-deleted_example :
    let s = free_session_finally drained in
    (s.deleted ≡ true
      → (s.sending ≡ 0)
        × (s.held + s.leaving ≤ s.late)
        × (s.working ≡ true → s.child_cleared ≡ true)
        × Released s.poll_main
        × Released s.data_pipe
        × Released s.work_tcp)
    × (stages s ≡ one s.is_dead)
unfolding connect free_session_main free_session_opeate session_work_cleared free_session_check
    free_session_continue try_close_handle close_session_tcp_handle is_tcp free_session_finally
session-deleted_example =
    session-deleted 10 (free_session_finally drained) (omega arith)
      (there drained_reached (finishes refl))

drained_deleted : (free_session_finally drained).deleted ≡ true
unfolding connect free_session_main free_session_opeate session_work_cleared free_session_check
    free_session_continue try_close_handle close_session_tcp_handle is_tcp free_session_finally
drained_deleted = refl

free_session-ends_example :
    ((end_session joined).deleted ≡ true) × ((end_session joined).listed ≡ false)
unfolding connect
free_session-ends_example = free_session-ends 2 joined (omega arith) joined_reached refl refl refl
