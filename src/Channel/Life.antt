-- ===== src/Channel/Life.antt =====
-- channel.cpp: one channel's references and its end, `SendWithCmd` and `Send`, `SendChannel`,
-- `EchoToAllChannelsViaSessionId` and `EchoToClient`, `WriteCallback`, `FreeChannel`, `FreeChannelOpeate`,
-- `FreeChannelContinue` and `FreeChannelFinally`; and `AttachChannel` of server.cpp.
--
-- Several threads send on a channel and the main thread frees it, so `Send` is cut where another thread
-- may come between: the query, the look at `isDead`, `SendChannel`, and the release; an echo takes no
-- reference and is cut at the look and the write. The fields `held`, `sending` and `leaving` count the calls of
-- `Send` that stand at each cut, `echoing` the echoes, and `writes` the requests for which libuv owes a
-- callback. `lost` counts the references that refused writes leave behind before `FreeChannelOpeate` has seen
-- the channel without one, `late_lost` those from then on, and `late` the references that are taken from then
-- on. `ref` is an atomic `uint32_t` and `uvHandleRef` a `uint8_t`. As in the host build, `FreeChannelFinally`
-- deletes a channel through the close of `hChildWorkTCP`.
pub mod Safe
use supertools_public.Common.{
  ℕ, ◌+◌, ◌-◌, ◌%◌, ◌^◌, Bool, true, false, not, ◌&&◌, ◌||◌, ltb, ◌==◌, if◌then◌else◌,
}

pub record Life : Type 0 where
  pub ref : ℕ
  pub is_dead : Bool
  pub write_failed_times : ℕ
  pub child_cleared : Bool
  pub uv_handle_ref : ℕ
  -- In `mapChannel`.
  pub listed : Bool
  pub held : ℕ
  pub sending : ℕ
  pub leaving : ℕ
  pub writes : ℕ
  pub echoing : ℕ
  pub lost : ℕ
  pub late_lost : ℕ
  pub late : ℕ
  -- `hChildWorkTCP` has a loop and its `data`.
  pub attached : Bool
  -- The timers of `FreeChannelOpeate` and of its check, the idle handle of `FreeChannelFinally`
  -- and the close of `hChildWorkTCP`; a channel that is left is in no table and not deleted.
  pub operates : Bool
  pub checks : Bool
  pub finishes : Bool
  pub deleting : Bool
  pub left : Bool
  pub deleted : Bool

abbrev pub up : ℕ → ℕ
up n = (n + 1) % 2 ^ 32

abbrev pub down : ℕ → ℕ
down n = (n + (2 ^ 32 - 1)) % 2 ^ 32

abbrev pub down_u8 : ℕ → ℕ
down_u8 n = (n + 255) % 256

-- `FreeChannelOpeate` has seen the channel without a reference.
abbrev pub past : Life → Bool
past c = c.checks || (c.finishes || (c.deleting || (c.left || c.deleted)))

-- One more reference, or one more loss of one, from then on.
abbrev pub if_past : Life → ℕ
if_past c = if past c then 1 else 0

-- `AdminChannel(OP_QUERY_REF, ...)` at the head of `Send`, which finds the channel.
unfoldable pub send_query : Life → Life
send_query c = record c { ref = up c.ref; held = c.held + 1; late = c.late + if_past c }

-- The test of `isDead`, of a channel that is not deleted.
unfoldable pub send_check : Life → Life
send_check c =
    if c.is_dead
    then record c { held = c.held - 1; leaving = c.leaving + 1 }
    else record c { held = c.held - 1; sending = c.sending + 1 }

-- What becomes of the write: the stream is closing or not writable, `SendToStreamEx` refuses it, or libuv
-- takes it.
pub data Write : Type 0 where
  unwritable refused accepted : Write

unfoldable pub send_channel : Write → Life → Life
send_channel unwritable c = record c { sending = c.sending - 1; leaving = c.leaving + 1 }
send_channel refused c = record c {
  sending = c.sending - 1;
  leaving = c.leaving + 1;
  ref = up c.ref;
  late = c.late + if_past c;
  lost = c.lost + (1 - if_past c);
  late_lost = c.late_lost + if_past c;
}
send_channel accepted c = record c {
  sending = c.sending - 1;
  leaving = c.leaving + 1;
  ref = up c.ref;
  late = c.late + if_past c;
  writes = c.writes + 1;
}

-- `EchoToAllChannelsViaSessionId`, which finds the channel and looks at `isDead`.
unfoldable pub echo_look : Life → Life
echo_look c = if c.is_dead then c else record c { echoing = c.echoing + 1 }

-- `EchoToClient`.
unfoldable pub echo_to_client : Write → Life → Life
echo_to_client unwritable c = record c { echoing = c.echoing - 1 }
echo_to_client refused c = record c {
  echoing = c.echoing - 1;
  ref = up c.ref;
  late = c.late + if_past c;
  lost = c.lost + (1 - if_past c);
  late_lost = c.late_lost + if_past c;
}
echo_to_client accepted c = record c {
  echoing = c.echoing - 1;
  ref = up c.ref;
  late = c.late + if_past c;
  writes = c.writes + 1;
}

-- `AttachChannel` on a session's thread, behind its query and up to its release.
unfoldable pub attach_channel : Life → Life
attach_channel c = record c { attached = true; held = c.held - 1; leaving = c.leaving + 1 }

-- `--hChannel->ref` at the end of `Send`.
unfoldable pub send_leave : Life → Life
send_leave c = record c { ref = down c.ref; leaving = c.leaving - 1 }

-- `FreeChannel` on the main thread.
unfoldable pub free_channel : Life → Life
free_channel c =
    if not c.listed || c.is_dead then c else record c { operates = true; is_dead = true }

-- On another thread than the main one, `FreeChannel` only leaves a message for it.
abbrev pub free_from : Bool → Life → Life
free_from on_main c = if on_main then free_channel c else c

unfoldable pub write_callback : Bool → Bool → Life → Life
unfolding free_channel
write_callback on_main failed c =
    let c' : Life = record c { ref = down c.ref; writes = c.writes - 1 } in
    let c'' : Life = record c' { write_failed_times = up c.write_failed_times } in
    if not failed then c' else if not c'.is_dead && c'.ref == 0 then free_from on_main c'' else c''

-- Whether the stream's handle is closing already; if not, its close callback counts it off later.
unfoldable pub free_channel_continue : Bool → Life → Life
free_channel_continue closing c = record c {
  uv_handle_ref = if closing then down_u8 c.uv_handle_ref else c.uv_handle_ref;
  finishes = true;
}

-- A turn of the timer. `told` says whether the message to the session's thread could be sent.
unfoldable pub free_channel_opeate : Bool → Bool → Life → Life
unfolding free_channel_continue
free_channel_opeate told closing c =
    if ltb 0 c.ref
    then c
    else if c.attached
    then record c {
      child_cleared = if told then c.child_cleared else true;
      checks = true;
      operates = false;
    }
    else free_channel_continue closing (record c { operates = false })

-- `callbackCheckFreeChannelContinue`.
unfoldable pub free_channel_check : Bool → Life → Life
unfolding free_channel_continue
free_channel_check closing c =
    if not c.child_cleared then c else free_channel_continue closing (record c { checks = false })

-- `closeChannelHandle`.
unfoldable pub close_channel_handle : Life → Life
close_channel_handle c = record c { uv_handle_ref = down_u8 c.uv_handle_ref }

-- `child_closing` says whether `hChildWorkTCP` is closing already; if not, `deleteChannel` comes later. It does
-- nothing for a channel that no session's thread has had.
unfoldable pub free_channel_finally : Bool → Life → Life
free_channel_finally child_closing c =
    let d : Life = record c { listed = false; finishes = false } in
    if ltb 0 c.uv_handle_ref
    then c
    else if not c.attached
    then record d { left = true }
    else if child_closing
    then record d { deleted = true }
    else record d { deleting = true }

-- `deleteChannel`, called by libuv.
unfoldable pub delete_channel : Life → Life
delete_channel c = record c { deleting = false; deleted = true }

-- `MallocChannel`: one libuv handle, and in the table.
abbrev pub malloc_channel : Life
malloc_channel = record {
  ref = 0;
  is_dead = false;
  write_failed_times = 0;
  child_cleared = false;
  uv_handle_ref = 1;
  listed = true;
  held = 0;
  sending = 0;
  leaving = 0;
  writes = 0;
  echoing = 0;
  lost = 0;
  late_lost = 0;
  late = 0;
  attached = false;
  operates = false;
  checks = false;
  finishes = false;
  deleting = false;
  left = false;
  deleted = false;
}
