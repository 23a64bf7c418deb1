-- ===== src/Session/Send.antt =====
-- session.cpp: `HdcSessionBase::Send` and `SendByProtocol`.
--
-- The two allocations (a plain and an SSL buffer) are one test `alloc` on the size, and `memcpy_s` is the
-- test `copies` on a size. What the transports do is outside: a run returns the trace of the calls and of
-- the buffers freed here. `WriteUvTcpFd` takes over the buffer it is given. The parameter
-- `ENABLE_IO_CHECKSUM` is that of `Session.Packet`.
pub mod Balance
use supertools_public.Common.{
  ℕ, ◌+◌, ◌%◌, ◌^◌, Bool, true, false, not, ◌&&◌, ◌||◌, Option, none, some, List, [], ◌∷◌, ◌++◌,
  ◌==◌, ltb, if◌then◌else◌, length,
}
use supertools_public.Session.Admin.{
  ConnType, conn_usb, conn_tcp, conn_serial, conn_other, SessionInfo, Sessions, op_query_ref,
  admin_session, drop_ref,
}
use supertools_public.Session.Packet.{packet, head_len, protect_buf}
use supertools_public.Serial.Message.{serialize_to_string}
use supertools_public.Serial.Structs.{protect_message}

-- The socket of a TCP write, or another transport.
pub data Link : Type 0 where
  work_tcp child_work_tcp usb uart : Link

pub data Event : Type 0 where
  write : Link → ℕ → List ℕ → Event
  free_buf : Event

pub data SendRet : Type 0 where
  err_session_nofound err_buf_alloc err_buf_copy : SendRet
  -- Nothing was written.
  zero_ret : SendRet
  -- What the transport returned.
  from_link : Link → SendRet

abbrev pub by_type : ConnType → Link → ℕ → List ℕ → SendRet × List Event
by_type conn_tcp tcp h buf = (from_link tcp, write tcp h buf ∷ [])
by_type conn_usb tcp h buf = (from_link usb, write usb h buf ∷ free_buf ∷ [])
by_type conn_serial tcp h buf = (from_link uart, write uart h buf ∷ free_buf ∷ [])
by_type conn_other tcp h buf = (zero_ret, free_buf ∷ [])

abbrev pub tcp_link : SessionInfo → Bool → Link
tcp_link x echo =
    if echo && not x.server_or_daemon
    then child_work_tcp
    else if x.on_work_thread
    then work_tcp
    else child_work_tcp

unfoldable pub send_by_protocol : ℕ → SessionInfo → List ℕ → Bool → SendRet × List Event
send_by_protocol h x buf echo =
    if x.is_dead
    then (err_session_nofound, free_buf ∷ [])
    else by_type x.conn_type (tcp_link x echo) h buf

abbrev pub cmd_kernel_echo : ℕ
cmd_kernel_echo = 9

module _ (io_checksum : Bool) (alloc copies : ℕ → Bool) where
  -- The three copies into the buffer.
  abbrev pub all_copied : ℕ → ℕ → Bool
  all_copied head_size data_size =
      copies head_len && copies head_size && (data_size == 0 || copies data_size)

  -- From the allocation on, with a reference to the session held.
  unfoldable pub send_to : ℕ → Sessions → ℕ → ℕ → List ℕ → SendRet × Sessions × List Event
  unfolding send_by_protocol
  send_to h t channel_id command_flag payload =
      let head =
        serialize_to_string
          (protect_message (protect_buf io_checksum channel_id command_flag payload)) in
      let buf = packet io_checksum channel_id command_flag payload in
      let u = record t { heap = drop_ref h t.heap } in
      let (ret, events) = send_by_protocol h (t.heap h) buf (command_flag == cmd_kernel_echo) in
      if not (alloc (head_len + length head + length payload))
      then (err_buf_alloc, u, [])
      else if not (all_copied (length head) (length payload))
      then (err_buf_copy, u, free_buf ∷ [])
      else (ret, u, events)

  abbrev pub send_found : Option ℕ → Sessions → ℕ → ℕ → List ℕ → SendRet × Sessions × List Event
  send_found none t channel_id command_flag payload = (err_session_nofound, t, [])
  send_found (some h) t channel_id command_flag payload =
      send_to h t channel_id command_flag payload

  unfoldable pub send : Bool → Sessions → ℕ → ℕ → ℕ → List ℕ → SendRet × Sessions × List Event
  unfolding send_to admin_session
  send server_or_daemon t session_id channel_id command_flag payload =
      let (found, u) = admin_session server_or_daemon op_query_ref session_id t in
      send_found found u channel_id command_flag payload
