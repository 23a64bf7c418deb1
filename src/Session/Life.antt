-- ===== src/Session/Life.antt =====
-- session.cpp: a session's libuv handles, its references and its end, `MallocSession`,
-- `MallocSessionByConnectType`, `FreeSession`, `FreeSessionOpeate`, `FreeSessionContinue`,
-- `FreeSessionFinally` and `SessionWorkThread`, with the `Connect` of host_tcp.cpp that starts the thread.
--
-- Several threads send on a session and the main thread frees it, so `Send` is cut where another thread may
-- come between: the query, the test of `isDead` in `SendByProtocol`, the write, and the release. The fields
-- `held`, `sending` and `leaving` count the calls that stand at each cut, and `late` the queries made after
-- `FreeSessionOpeate` has seen the session without a reference. Allocations succeed, and `_exit` is
-- not taken. `ref` is an atomic `uint32_t` and `uvHandleRef` a `uint8_t`.
mod Tests
pub mod Steps
pub mod Safe
use supertools_public.Common.{
  ℕ, ◌+◌, ◌-◌, ◌%◌, ◌^◌, Bool, true, false, not, ◌&&◌, ◌||◌, Option, none, some, ltb, if◌then◌else◌,
}
use supertools_public.Session.Admin.{ConnType, conn_usb, conn_tcp, conn_serial, conn_other}

-- A handle of the main loop: whether `uv_is_closing` holds of it, whether it counts in `uvHandleRef`, and
-- whether libuv owes `closeSessionTCPHandle` on it.
pub record UvHandle : Type 0 where
  pub closing : Bool
  pub counts : Bool
  pub owes : Bool

pub record SessionLife : Type 0 where
  pub conn_type : ConnType
  pub ref : ℕ
  pub is_dead : Bool
  pub uv_handle_ref : ℕ
  -- `pollHandle[STREAM_MAIN]`, `dataPipe[STREAM_MAIN]` and `hWorkTCP`.
  pub poll_main : UvHandle
  pub data_pipe : UvHandle
  pub work_tcp : UvHandle
  -- In `mapSession`.
  pub listed : Bool
  pub held : ℕ
  pub sending : ℕ
  pub leaving : ℕ
  pub late : ℕ
  -- A connect request stands.
  pub connecting : Bool
  -- `pollHandle[STREAM_WORK]->loop`, the thread, the message SP_STOP_SESSION to it, and its last word.
  pub work_loop : Bool
  pub working : Bool
  pub stop_sent : Bool
  pub child_cleared : Bool
  -- The timers of `FreeSessionOpeate` and of its check, the idle handle of `FreeSessionFinally`.
  pub operates : Bool
  pub checks : Bool
  pub finishes : Bool
  pub deleted : Bool

abbrev pub open_handle : UvHandle
open_handle = record { closing = false; counts = true; owes = false }

abbrev pub no_handle : UvHandle
no_handle = record { closing = false; counts = false; owes = false }

-- A `HdcSession` after `MallocSession` has set up the poll handle and the data pipe.
abbrev pub new_session : ConnType → SessionLife
new_session k = record {
  conn_type = k;
  ref = 0;
  is_dead = false;
  uv_handle_ref = 2;
  poll_main = open_handle;
  data_pipe = open_handle;
  work_tcp = no_handle;
  listed = false;
  held = 0;
  sending = 0;
  leaving = 0;
  late = 0;
  connecting = false;
  work_loop = false;
  working = false;
  stop_sent = false;
  child_cleared = false;
  operates = false;
  checks = false;
  finishes = false;
  deleted = false;
}

-- None stands for the return of -1.
unfoldable pub malloc_session_by_connect_type : ConnType → SessionLife → Option SessionLife
malloc_session_by_connect_type conn_tcp s =
    some (record s { work_tcp = open_handle; uv_handle_ref = (s.uv_handle_ref + 1) % 256 })
malloc_session_by_connect_type conn_usb s = some s
malloc_session_by_connect_type conn_serial s = some s
malloc_session_by_connect_type conn_other s = none

abbrev pub list_session : Option SessionLife → Option SessionLife
list_session none = none
list_session (some s) = some (record s { listed = true })

unfoldable pub malloc_session : ConnType → Option SessionLife
unfolding malloc_session_by_connect_type
malloc_session k = list_session (malloc_session_by_connect_type k (new_session k))

-- `FreeSessionOpeate` has seen the session without a reference.
abbrev pub past : SessionLife → Bool
past s = s.checks || (s.finishes || s.deleted)

-- `AdminSession(OP_QUERY_REF, ...)` at the head of `Send`, which finds the session.
unfoldable pub query_session : SessionLife → SessionLife
query_session s = record s {
  ref = (s.ref + 1) % 2 ^ 32;
  held = s.held + 1;
  late = s.late + (if past s then 1 else 0);
}

-- The test of `isDead` in `SendByProtocol`, of a session that is not deleted; a buffer that cannot be had or filled goes to the release at
-- once.
unfoldable pub look_at_dead : Bool → SessionLife → SessionLife
look_at_dead filled s =
    if not filled || s.is_dead
    then record s { held = s.held - 1; leaving = s.leaving + 1 }
    else record s { held = s.held - 1; sending = s.sending + 1 }

-- `WriteUvTcpFd`, `SendUSBBlock` or `SendUARTData` returns.
unfoldable pub write_returns : SessionLife → SessionLife
write_returns s = record s { sending = s.sending - 1; leaving = s.leaving + 1 }

-- `--hSession->ref` at the end of `Send`.
unfoldable pub leave_session : SessionLife → SessionLife
leave_session s = record s { ref = (s.ref + (2 ^ 32 - 1)) % 2 ^ 32; leaving = s.leaving - 1 }

-- `FreeSession` on the main thread. On another thread it only leaves a message for it.
unfoldable pub free_session_main : SessionLife → SessionLife
free_session_main s =
    if not s.listed || s.is_dead then s else record s { operates = true; is_dead = true }

-- `Connect`, the callback of the connect request: `connected` says that it succeeded and the socket could
-- be duplicated. The main thread waits until `SessionWorkThread` has its poll handle.
unfoldable pub connect : Bool → SessionLife → SessionLife
unfolding free_session_main
connect connected s =
    if connected
    then record s { connecting = false; work_loop = true; working = true }
    else free_session_main (record s { connecting = false; child_cleared = true })

-- `SessionWorkThread` sets `childCleared` when its loop has stopped and its tasks are cleared.
unfoldable pub session_work_cleared : SessionLife → SessionLife
session_work_cleared s = record s { child_cleared = true }

-- Then it writes a message of the log, for which it reads the session, and ends.
unfoldable pub session_work_end : SessionLife → SessionLife
session_work_end s = record s { working = false }

-- `TryCloseHandle` without a callback.
abbrev pub close_early : UvHandle → UvHandle
close_early h = record h { closing = true }

-- `TryCloseHandle` with `closeSessionTCPHandle` in any case: whether that runs at once, and the handle.
unfoldable pub try_close_handle : UvHandle → UvHandle
try_close_handle h =
    if h.closing then record h { counts = false } else record h { closing = true; owes = true }

abbrev pub uncount : Bool → ℕ → ℕ
uncount at_once n = if at_once then (n + 255) % 256 else n

unfoldable pub is_tcp : ConnType → Bool
is_tcp conn_tcp = true
is_tcp conn_usb = false
is_tcp conn_serial = false
is_tcp conn_other = false

-- `FreeSessionContinue`.
unfoldable pub free_session_continue : SessionLife → SessionLife
unfolding try_close_handle
free_session_continue s =
    let tcp : SessionLife = record s {
      work_tcp = try_close_handle s.work_tcp;
      uv_handle_ref = uncount s.work_tcp.closing s.uv_handle_ref;
    } in
    let t : SessionLife = if is_tcp s.conn_type then tcp else s in
    let u : SessionLife = record t {
      poll_main = try_close_handle t.poll_main;
      uv_handle_ref = uncount t.poll_main.closing t.uv_handle_ref;
    } in
    record u {
      data_pipe = try_close_handle u.data_pipe;
      uv_handle_ref = uncount u.data_pipe.closing u.uv_handle_ref;
      finishes = true;
    }

-- A turn of the timer. `usb_busy` says whether a bulk transfer of USB is not shut down yet; then it is only
-- cancelled.
unfoldable pub free_session_opeate : Bool → SessionLife → SessionLife
unfolding free_session_continue
free_session_opeate usb_busy s =
    if usb_busy || ltb 0 s.ref
    then s
    else if s.work_loop
    then record s { stop_sent = true; checks = true; operates = false }
    else free_session_continue (record s { operates = false })

-- `callbackCheckFreeSessionContinue`.
unfoldable pub free_session_check : SessionLife → SessionLife
unfolding free_session_continue
free_session_check s =
    if not s.child_cleared then s else free_session_continue (record s { checks = false })

abbrev pub closed : UvHandle → UvHandle
closed h = record h { counts = false; owes = false }

pub data HandleName : Type 0 where
  poll_main_handle data_pipe_handle work_tcp_handle : HandleName

abbrev pub handle_of : HandleName → SessionLife → UvHandle
handle_of poll_main_handle s = s.poll_main
handle_of data_pipe_handle s = s.data_pipe
handle_of work_tcp_handle s = s.work_tcp

-- `closeSessionTCPHandle`, called by libuv.
unfoldable pub close_session_tcp_handle : HandleName → SessionLife → SessionLife
close_session_tcp_handle poll_main_handle s = record s {
  poll_main = closed s.poll_main;
  uv_handle_ref = uncount true s.uv_handle_ref;
}
close_session_tcp_handle data_pipe_handle s = record s {
  data_pipe = closed s.data_pipe;
  uv_handle_ref = uncount true s.uv_handle_ref;
}
close_session_tcp_handle work_tcp_handle s = record s {
  work_tcp = closed s.work_tcp;
  uv_handle_ref = uncount true s.uv_handle_ref;
}

unfoldable pub free_session_finally : SessionLife → SessionLife
free_session_finally s =
    if ltb 0 s.uv_handle_ref
    then s
    else record s { listed = false; finishes = false; deleted = true }
