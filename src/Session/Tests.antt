-- ===== src/Session/Tests.antt =====
-- The theorems on sessions at concrete inputs.
use supertools_public.Common.{
  ◌<◌, ℕ, ◌+◌, ◌≡◌, ◌≢◌, ◌↔◌, refl, Bool, true, false, some, List, [], ◌∷◌, ◌++◌, arith, length,
  find, Sorted,
}
use supertools_public.Session.Packet.{
  packet, on_read, taken, decrypt_payload, deliver, payload_head, protect_buf,
}
use supertools_public.Serial.Structs.{parsed, protect_of}
use supertools_public.Serial.Varint.{
  read_varint32, read_varint_loop, write_varint32, write_varint_loop,
}
use supertools_public.Serial.Message.{
  parse_from_string, read_message, read_fields, read_field, parse, parse_payload, write_message,
  serialize, write_payload,
}
use supertools_public.Session.Packet.RoundTrip.{on_read-packet}
use supertools_public.Session.Read.{
  Session, Receiver, bytes, consumed, fetch_io_buf, fetch_loop, stuck,
}
use supertools_public.Session.Read.Ends.{fetch_loop-ne-stuck}
use supertools_public.Session.Read.Split.{SameRead, fetch_io_buf_split}
use supertools_public.Session.Read.Stream.{Command, packets, fetch_io_buf-packets}
use supertools_public.Session.Admin.{
  SessionInfo, conn_usb, Sessions, op_update, op_vote_reset, admin_session,
}
use supertools_public.Session.Admin.Table.{
  table_after, found_by, admin_session-table, admin_session-vote,
}
use supertools_public.Session.Send.{send}
use supertools_public.Session.Send.Balance.{released, written, send-sessions, send-buffer}
use supertools_public.Session.Tasks.{TaskInformation, Tasks, dispatch_task_data, clear_own_tasks}
use supertools_public.Session.Tasks.Clear.{count}
use supertools_public.Session.Tasks.Life.{
  Owned, Redirects, dispatches, clears, here, there, tasks-Owned,
}

-- A receiver that adds up the sizes of the data.
abbrev adder : Receiver ℕ
adder = record {
  io_checksum = false;
  fetch_command = λ s c f p. (s + length p, true);
  is_dead = λ s. false;
  free_session = λ s. s;
}

abbrev fresh : Session ℕ
fresh = record {
  peer = 0;
  available = [];
  heartbeat = record {
    heartbeat_count = 0;
    message_count = 0;
    support_heartbeat = true;
    last_time = 0;
  };
  data_recv_bytes = 0;
}

abbrev two_commands : List Command
two_commands =
    record { channel_id = 1; command_flag = 2001; payload = 7 ∷ 8 ∷ [] }
    ∷ record { channel_id = 300; command_flag = 9; payload = 5 ∷ [] }
    ∷ []

fetch_io_buf-packets_example :
    let (a, u) = fetch_io_buf adder fresh (bytes (packets adder two_commands ++ (72 ∷ []))) in
    (a ≡ consumed (length (packets adder two_commands))) × (u.peer ≡ 3) × (u.available ≡ 72 ∷ [])
fetch_io_buf-packets_example =
    fetch_io_buf-packets adder fresh 3 two_commands (72 ∷ []) refl refl (omega arith) (omega arith)

on_read-packet_example :
    on_read {S = ℕ} false
      (λ s c f p. (s + length p, true))
      0
      (packet false 1 2001 (7 ∷ []) ++ (72 ∷ []))
    ≡ (taken (length (packet false 1 2001 (7 ∷ []))), 1)
on_read-packet_example =
    on_read-packet false (λ s c f p. (s + length p, true)) 0 1 2001 (7 ∷ []) (72 ∷ []) (omega arith)
      (omega arith) (omega arith)

abbrev first_piece : List ℕ
first_piece = packet false 1 2001 (7 ∷ []) ++ (72 ∷ [])

abbrev first_read : Session ℕ
first_read = record fresh {
  peer = 1;
  available = 72 ∷ [];
  data_recv_bytes = 22;
  heartbeat = record fresh.heartbeat { message_count = 1 };
}

fetch_io_buf_split_example :
    SameRead adder 21
      (fetch_io_buf adder fresh (bytes (first_piece ++ (87 ∷ []))))
      (fetch_io_buf adder first_read (bytes (87 ∷ [])))
unfolding fetch_io_buf fetch_loop on_read decrypt_payload deliver packet payload_head protect_buf
    parsed parse_from_string read_message read_fields read_field parse parse_payload protect_of
    read_varint32 read_varint_loop write_varint32 write_varint_loop write_message serialize
    write_payload
fetch_io_buf_split_example = fetch_io_buf_split adder fresh first_read first_piece (87 ∷ []) 21 refl

abbrev no_packet : List ℕ
no_packet = 72 ∷ 87 ∷ 0 ∷ 0 ∷ 1 ∷ 0 ∷ 0 ∷ 0 ∷ 0 ∷ 0 ∷ 0 ∷ 5 ∷ 5 ∷ []

fetch_loop-ne-stuck_example : fetch_loop adder 14 0 no_packet 0 ≢ stuck
fetch_loop-ne-stuck_example = fetch_loop-ne-stuck adder 14 0 0 no_packet (omega arith)

-- One session, under the id 7, that talks over USB.
abbrev usb_session : SessionInfo
usb_session = record {
  session_id = 8;
  server_or_daemon = true;
  ref = 2;
  is_dead = false;
  vote_reset = false;
  conn_type = conn_usb;
  on_work_thread = true;
}

abbrev one_session : Sessions
one_session = record { heap = λ h. usb_session; map_session = (7, 0) ∷ []; aborted = false }

admin_session-table_example :
    let (found, u) = admin_session true (op_update 0) 7 one_session in
    (found ≡ found_by true (op_update 0) (some 0))
    × Sorted u.map_session
    × ((j : ℕ)
        → find j u.map_session ≡ table_after (op_update 0) 7 (λ h. 8) (λ i. find i ((7, 0) ∷ [])) j)
admin_session-table_example = admin_session-table true (op_update 0) 7 one_session (tt, tt)

admin_session-vote_example :
    let u = (admin_session true op_vote_reset 7 one_session).1 in
    (u.aborted ≡ true) ↔ ((j i : ℕ) → find j u.map_session ≡ some i → (u.heap i).vote_reset ≡ true)
admin_session-vote_example = admin_session-vote 7 0 one_session (tt, tt) refl refl

abbrev enough : ℕ → Bool
enough n = true

send-sessions_example :
    let (ret, u, events) = send false enough enough true one_session 7 1 2001 (5 ∷ []) in
    ((h : ℕ) → u.heap h ≡ usb_session) × (u.map_session ≡ (7, 0) ∷ []) × (u.aborted ≡ false)
send-sessions_example =
    send-sessions false enough enough true one_session 7 1 2001 (5 ∷ []) (λ h. omega arith)

send-buffer_example :
    let es = (send false enough enough true one_session 7 1 2001 (5 ∷ [])).2 in
    (released es ≡ 1) × (written es ≡ (0, packet false 1 2001 (5 ∷ [])) ∷ [])
send-buffer_example = send-buffer false enough enough true one_session 7 0 1 2001 (5 ∷ []) refl

abbrev no_task : TaskInformation
no_task = record {
  channel_id = 0;
  session_id = 0;
  task_stop = false;
  task_free = false;
  server_or_daemon = true;
  master_slave = false;
  close_retry_count = 0;
  channel_task = false;
  is_cleared = false;
}

abbrev no_tasks : Tasks
no_tasks = record {
  tasks = λ h. no_task;
  next = 0;
  map_task = [];
  timers = [];
  deleted = [];
  task_count = 0;
}

-- A file transfer on channel 4 starts, and is cleared.
abbrev started : Tasks
started = (dispatch_task_data true true 7 4 3000 one_session no_tasks).2

tasks-Owned_example :
    let u = clear_own_tasks 0 started in
    Owned u
    × ((alloc server : Bool) (session_id channel_id command : ℕ) (s : Sessions)
        → Redirects channel_id (dispatch_task_data alloc server session_id channel_id command s u))
    × ((h : ℕ) → 0 < count h u.timers → count h u.deleted ≡ 0)
tasks-Owned_example =
    tasks-Owned no_tasks (clear_own_tasks 0 started)
      (tt, (λ h. ground arith), (λ h p. absurd (omega (arith, p))))
      (there (there here (dispatches true true 7 4 3000 one_session)) (clears 0))
