-- ===== src/Channel/Tests.antt =====
-- The theorems on channels at concrete inputs.
use supertools_public.Common.{
  ◌≤◌, ℕ, ◌+◌, ◌≤◌, ◌<◌, ◌≡◌, refl, true, false, [], ◌∷◌, ◌++◌, arith, ◌==◌, length, take, find,
}
use supertools_public.Channel.Stream.{Reader, Channel, bytes, frame, read_stream}
use supertools_public.Channel.Stream.Frames.{frames, read_stream-frames}
use supertools_public.Channel.Table.{Channels, channel_query_ref, admin_channel}
use supertools_public.Channel.Table.Lookup.{Keeps, promise, admin_channel-Keeps}
use supertools_public.Channel.Life.{
  Life, malloc_channel, send_query, send_check, send_channel, send_leave, attach_channel,
  free_channel, free_channel_opeate, free_channel_check, free_channel_finally, close_channel_handle,
  free_channel_continue, refused,
}
use supertools_public.Channel.Life.Safe.{here, there, queries, looks, sends, leaves, channel-lost}

-- A reader that adds up the sizes, and fails on a message of one byte.
abbrev adder : Reader ℕ
adder = record {
  read_channel = λ s m. (s + length m, length m == 1);
  keep_alive = λ s. true;
  fill_channel_result = λ text s. s;
  judge_success = λ s. s;
  free_this = λ s. 0;
}

abbrev fresh : Channel ℕ
fresh = record { peer = 0; available = [] }

unfinished : 5 < length (frame (4 ∷ 5 ∷ []))
unfolding frame
unfinished = omega arith

read_stream-frames_example :
    read_stream adder
      (bytes (frames ((7 ∷ 8 ∷ []) ∷ (9 ∷ []) ∷ []) ++ take 5 (frame (4 ∷ 5 ∷ []))))
      fresh
    ≡ record { peer = 3; available = take 5 (frame (4 ∷ 5 ∷ [])) }
read_stream-frames_example =
    read_stream-frames adder fresh 3 ((7 ∷ 8 ∷ []) ∷ (9 ∷ []) ∷ []) (4 ∷ 5 ∷ []) 5 refl refl
      ((omega arith, omega arith), ((omega arith, omega arith), tt)) (omega arith, omega arith)
      unfinished

abbrev one_channel : Channels
one_channel = record { heap = λ h. record { channel_id = h; ref = 0 }; map_channel = (5, 5) ∷ [] }

admin_channel-Keeps_example :
    Keeps
      (promise channel_query_ref 5 (λ h. h) (λ j. find j one_channel.map_channel))
      one_channel
      (admin_channel channel_query_ref 5 one_channel)
admin_channel-Keeps_example =
    admin_channel-Keeps channel_query_ref 5 one_channel ((tt, tt), λ h. omega arith)

abbrev refused_once : Life
refused_once = send_leave (send_channel refused (send_check (send_query malloc_channel)))

channel-lost_example : (0 < refused_once.ref) × (refused_once.deleted ≡ false)
unfolding send_query send_check send_channel send_leave
channel-lost_example =
    channel-lost 4 refused_once (omega arith)
      (there
        (there (there (there here (queries refl refl)) (looks refl (omega arith)))
          (sends refused refl (omega arith)))
        (leaves refl (omega arith)))
      (omega arith)

-- A session's thread has the channel.
abbrev had : Life
had = send_leave (attach_channel (send_query malloc_channel))

abbrev detached : Life
detached =
    free_channel_check false
      (record (free_channel_opeate true false (free_channel had)) { child_cleared = true })

abbrev ended : Life
ended = free_channel_finally true (close_channel_handle detached)

ended_deleted : ended.deleted ≡ true
unfolding send_query attach_channel send_leave free_channel free_channel_opeate free_channel_check
    free_channel_continue close_channel_handle free_channel_finally
ended_deleted = refl
