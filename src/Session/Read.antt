-- ===== src/Session/Read.antt =====
-- session.cpp: `HdcSessionBase::FetchIOBuf`, which cuts the bytes that have arrived into packets.
--
-- The receiver's own state, a parameter `S`, goes through `FetchCommand`; it also says whether the
-- session is dead, which `FetchCommand` may bring about. `available` are the first `availTailIndex` bytes
-- of `ioBuf`; the rest of the buffer is not modelled, and it is taken to be large enough for `memmove_s`.
pub mod Ends
pub mod Split
pub mod Stream
use supertools_public.Common.{
  ℕ, zero, suc, ◌+◌, ◌%◌, ◌^◌, Bool, true, false, not, ◌&&◌, ◌||◌, List, [], ◌∷◌, ◌++◌, ltb,
  if◌then◌else◌, length, drop,
}
use supertools_public.Heartbeat.{HdcHeartbeat, handle_message_count}
use supertools_public.Session.Packet.{head_len, Taken, taken, not_enough, bad_packet, on_read}

pub record Session (S : Type 0) : Type 0 where
  pub peer : S
  pub available : List ℕ
  pub heartbeat : HdcHeartbeat
  pub data_recv_bytes : ℕ

-- A read of the stream: an error code of libuv, or bytes.
pub data Input : Type 0 where
  failed : Input
  bytes : List ℕ → Input

pub data Fetched : Type 0 where
  consumed : ℕ → Fetched
  err_io_fail err_buf_size : Fetched

-- How the loop ends: the receiver, what is left, and `indexBuf`. `stuck` means that the fuel ran out.
pub data Loop (S : Type 0) : Type 0 where
  stopped : S → List ℕ → ℕ → Loop S
  broken : S → Loop S
  stuck : Loop S

pub record Receiver (S : Type 0) : Type 0 where
  pub io_checksum : Bool
  pub fetch_command : S → ℕ → ℕ → List ℕ → S × Bool
  pub is_dead : S → Bool
  pub free_session : S → S

module _ {S : Type 0} (r : Receiver S) where
  -- One turn of the loop after its test, the rest of it given.
  abbrev pub next_packet : (S → List ℕ → ℕ → Loop S) → List ℕ → ℕ → Taken × S → Loop S
  next_packet continue available index (taken n, s) = continue s (drop n available) (index + n)
  next_packet continue available index (not_enough, s) = stopped s available index
  next_packet continue available index (bad_packet, s) = broken s

  unfoldable pub fetch_loop : ℕ → S → List ℕ → ℕ → Loop S
  fetch_loop zero s available index = stuck
  fetch_loop (suc fuel) s available index =
      if r.is_dead s || not (ltb head_len (length available))
      then stopped s available index
      else next_packet (fetch_loop fuel) available index
          (on_read r.io_checksum r.fetch_command s available)

  -- Every packet is longer than its head, so this fuel suffices.
  abbrev pub fetch_all : S → List ℕ → Loop S
  fetch_all s available = fetch_loop (suc (length available)) s available 0

  -- On an error the bytes are dropped.
  abbrev pub finish : Session S → Loop S → Fetched × Session S
  finish t (stopped s rest index) = (consumed index, record t { peer = s; available = rest })
  finish t (broken s) = (err_buf_size, record t { peer = s; available = [] })
  finish t stuck = (err_buf_size, t)

  abbrev pub receive : Session S → HdcHeartbeat → List ℕ → Fetched × Session S
  receive t h xs =
      let t' : Session S = record t {
        heartbeat = h;
        available = t.available ++ xs;
        data_recv_bytes = (t.data_recv_bytes + length xs) % 2 ^ 64;
      } in
      finish t' (fetch_all t.peer (t.available ++ xs))

  unfoldable pub fetch_io_buf : Session S → Input → Fetched × Session S
  unfolding fetch_loop handle_message_count
  fetch_io_buf t failed = (err_io_fail, t)
  fetch_io_buf t (bytes xs) =
      let (alive, h) = handle_message_count t.heartbeat in
      if t.heartbeat.support_heartbeat
      then (if alive
          then receive t h xs
          else (err_io_fail, record t { heartbeat = h; peer = r.free_session t.peer }))
      else receive t t.heartbeat xs
