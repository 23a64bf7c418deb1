-- ===== src/Channel/Life/Safe.antt =====
-- channel.cpp: a channel's references and its end, over any interleaving of its threads.
use supertools_public.Common.{
  ℕ, zero, suc, ◌+◌, ◌^◌, ◌≤◌, ◌<◌, ◌≡◌, Bool, true, false, arith, if◌then◌else◌,
}
use supertools_public.Channel.Life.{
  Life, Write, unwritable, refused, accepted, past, send_query, send_check, send_channel,
  send_leave, echo_look, echo_to_client, attach_channel, delete_channel, free_channel,
  write_callback, free_channel_continue, free_channel_opeate, free_channel_check,
  close_channel_handle, free_channel_finally, malloc_channel,
}

abbrev pub one : Bool → ℕ
one b = if b then 1 else 0

-- In how many stages of its end a channel is.
abbrev pub stages : Life → ℕ
stages c =
    one c.operates + one c.checks + one c.finishes + one c.deleting + one c.left + one c.deleted

-- What can happen to a channel, by the threads that send or echo, a session's thread and the main thread.
-- Nothing is said of a call that reads or writes a channel once it is deleted: that would be a use of freed
-- memory, and there is no step for it.
pub data Step : Life → Life → Type 0 where
  queries : {c : Life} → c.listed ≡ true → c.deleted ≡ false → Step c (send_query c)
  looks : {c : Life} → c.deleted ≡ false → 0 < c.held → Step c (send_check c)
  attaches : {c : Life} → c.deleted ≡ false → 0 < c.held → Step c (attach_channel c)
  sends : {c : Life} (w : Write) → c.deleted ≡ false → 0 < c.sending → Step c (send_channel w c)
  leaves : {c : Life} → c.deleted ≡ false → 0 < c.leaving → Step c (send_leave c)
  echo_looks : {c : Life} → c.listed ≡ true → c.deleted ≡ false → Step c (echo_look c)
  echoes : {c : Life} (w : Write) → c.deleted ≡ false → 0 < c.echoing → Step c (echo_to_client w c)
  calls_back :
      {c : Life} (on_main failed : Bool)
      → c.deleted ≡ false
      → 0 < c.writes
      → Step c (write_callback on_main failed c)
  frees : {c : Life} → c.deleted ≡ false → Step c (free_channel c)
  operates :
      {c : Life} (told closing : Bool)
      → c.operates ≡ true
      → Step c (free_channel_opeate told closing c)
  clears : {c : Life} → c.deleted ≡ false → Step c (record c { child_cleared = true })
  checks : {c : Life} (closing : Bool) → c.checks ≡ true → Step c (free_channel_check closing c)
  closes : {c : Life} → c.deleted ≡ false → Step c (close_channel_handle c)
  finishes :
      {c : Life} (child_closing : Bool)
      → c.finishes ≡ true
      → Step c (free_channel_finally child_closing c)
  deletes : {c : Life} → c.deleting ≡ true → Step c (delete_channel c)

-- The states of a channel after so many steps.
pub data Reaches : ℕ → Life → Type 0 where
  here : Reaches 0 malloc_channel
  there : {n : ℕ} {c d : Life} → Reaches n c → Step c d → Reaches (suc n) d

-- After `n` steps: each reference is accounted for, the channel is in one stage of its end exactly if it is
-- dead, and past the first stage no call of `Send` writes, nothing was lost before, and each reference was
-- taken since.
record Sound (n : ℕ) (c : Life) : Type 0 where
  counted : c.ref ≡ c.held + c.sending + c.leaving + c.writes + c.lost + c.late_lost
  bounded : c.ref ≤ n
  staged : stages c ≡ one c.is_dead
  quiet : past c ≡ true → (c.sending ≡ 0) × (c.lost ≡ 0) × (c.ref ≤ c.late)

Step-Sound : (n : ℕ) {c d : Life} → suc n < 2 ^ 32 → Step c d → Sound n c → Sound (suc n) d
unfolding send_query send_check send_channel send_leave write_callback free_channel echo_look
    echo_to_client attach_channel free_channel_opeate free_channel_check close_channel_handle
    free_channel_finally free_channel_continue delete_channel
Step-Sound n h (queries {c} l g) s = ground arith
Step-Sound n h (looks {c} g l) s = ground arith
Step-Sound n h (attaches {c} g l) s = ground arith
Step-Sound n h (sends {c} unwritable g l) s = ground arith
Step-Sound n h (sends {c} refused g l) s = ground arith
Step-Sound n h (sends {c} accepted g l) s = ground arith
Step-Sound n h (leaves {c} g l) s = ground arith
Step-Sound n h (echo_looks {c} l g) s = ground arith
Step-Sound n h (echoes {c} unwritable g l) s = ground arith
Step-Sound n h (echoes {c} refused g l) s = ground arith
Step-Sound n h (echoes {c} accepted g l) s = ground arith
Step-Sound n h (calls_back {c} on_main failed g l) s = ground arith
Step-Sound n h (frees {c} g) s = ground arith
Step-Sound n h (operates {c} told closing l) s = ground arith
Step-Sound n h (clears {c} g) s = ground arith
Step-Sound n h (checks {c} closing l) s = ground arith
Step-Sound n h (closes {c} g) s = ground arith
Step-Sound n h (finishes {c} child_closing l) s = ground arith
Step-Sound n h (deletes {c} l) s = ground arith

reached-Sound : (n : ℕ) (c : Life) → n < 2 ^ 32 → Reaches n c → Sound n c
reached-Sound zero c h here = ground arith
reached-Sound _ d h (there {n} {c} r s) = Step-Sound n h s (reached-Sound n c (omega arith) r)

-- In every state that a channel reaches in fewer than 2 ^ 32 steps: once libuv has refused a write before
-- `FreeChannelOpeate` saw the channel without a reference, the channel keeps one and is not deleted, ever.
pub channel-lost :
    (n : ℕ) (c : Life) → n < 2 ^ 32 → Reaches n c → 0 < c.lost → (0 < c.ref) × (c.deleted ≡ false)
channel-lost n c h r l = let s = reached-Sound n c h r in ground arith

-- The turns that end a channel once it is freed.
abbrev pub end_channel : Bool → Bool → Life → Life
end_channel told child_closing c =
    let d : Life = free_channel_opeate told false (free_channel c) in
    let e : Life =
      if c.attached then free_channel_check false (record d { child_cleared = true }) else d in
    let f : Life = free_channel_finally child_closing (close_channel_handle e) in
    if f.deleting then delete_channel f else f
