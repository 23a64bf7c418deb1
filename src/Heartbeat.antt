-- ===== src/Heartbeat.antt =====
-- heartbeat.cpp, heartbeat.h: the counters of a session. HDC_HOST is defined by the build
-- (hdctools/CMakeLists.txt), so `HandleMessageCount` does not look at the time.
use supertools_public.Common.{ℕ, ◌+◌, ◌%◌, ◌^◌, Bool, true, false, List, [], ◌∷◌}
use supertools_public.Serial.Structs.{HeartbeatMsg, heartbeat_message, heartbeat_of, parsed}

-- `last_time` is a reading of the steady clock.
pub record HdcHeartbeat : Type 0 where
  pub heartbeat_count : ℕ
  pub message_count : ℕ
  pub support_heartbeat : Bool
  pub last_time : ℕ

unfoldable pub init : ℕ → HdcHeartbeat
init now = record {
  heartbeat_count = 0;
  message_count = 0;
  support_heartbeat = false;
  last_time = now;
}

unfoldable pub add_heartbeat_count : HdcHeartbeat → HdcHeartbeat
add_heartbeat_count h = record h { heartbeat_count = (h.heartbeat_count + 1) % 2 ^ 64 }

unfoldable pub handle_message_count : HdcHeartbeat → Bool × HdcHeartbeat
handle_message_count h = (true, record h { message_count = (h.message_count + 1) % 2 ^ 64 })

unfoldable pub set_support_heartbeat : Bool → HdcHeartbeat → HdcHeartbeat
set_support_heartbeat b h = record h { support_heartbeat = b }

-- The count that a peer's message reports, which the caller logs. The first case is the empty payload.
unfoldable pub handle_recv_heartbeat_msg : ℕ → List ℕ → HdcHeartbeat → List ℕ × HdcHeartbeat
handle_recv_heartbeat_msg now [] h = ([], h)
handle_recv_heartbeat_msg now (b ∷ bs) h =
    let blank : HeartbeatMsg = record { heartbeat_count = 0; reserved = [] } in
    let m = heartbeat_of (parsed (heartbeat_message blank) (b ∷ bs)) in
    (m.heartbeat_count ∷ [], record h { last_time = now })
