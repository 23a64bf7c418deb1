-- ===== src/Channel/Stream/Frames.antt =====
-- channel.cpp: `ReadStream` on a run of frames, as `SendChannel` builds them.
use supertools_public.Common.{
  ℕ, zero, suc, ◌+◌, ◌^◌, ◌≤◌, ◌<◌, ◌≡◌, refl, ap, ◌∙◌, inl, inr, Option, none, some, List, [], ◌∷◌,
  ◌++◌, append_assoc, arith, if◌then◌else◌, Bool-cases, All, length, take, drop, length-append,
  length-take, take_prefix, drop_prefix,
}
use supertools_public.Common.Bytes.{be32, read_be32}
use supertools_public.Channel.Stream.{
  dword_serialize_size, buf_max_bytes, frame, Reader, End, kept, after_read, read_loop, Channel,
  bytes, read_stream,
}

-- What `SendChannel` can send: `size` is an `int` and not 0.
abbrev pub IsMessage : List ℕ → Type 0
IsMessage m = (0 < length m) × (length m ≤ buf_max_bytes)

abbrev pub frames : List (List ℕ) → List ℕ
frames [] = []
frames (m ∷ ms) = frame m ++ frames ms

pub frame_lem : (m : List ℕ) → IsMessage m → frame m ≡ be32 (length m) ++ m
unfolding frame
frame_lem [] ok = absurd (omega (arith, ok.0))
frame_lem (b ∷ bs) ok = refl

pub read_be32-frame : (n : ℕ) (zs : List ℕ) → n < 2 ^ 32 → read_be32 (be32 n ++ zs) ≡ n
read_be32-frame n zs h = omega arith

module _ {S : Type 0} (r : Reader S) where
  open r use {read_channel, keep_alive}

  -- The channel after the messages; none if one fails and the channel is not kept alive then.
  abbrev pub feed : S → List (List ℕ) → Option S
  feed s [] = some s
  feed s (m ∷ ms) =
      let (s', bad) = read_channel s m in
      let rest = feed s' ms in if bad then (if keep_alive s' then rest else none) else rest

  -- A turn of the loop whose size field is in order.
  pub loop_takes :
      (f : ℕ) (s : S) (xs : List ℕ) (n : ℕ)
      → read_be32 xs ≡ n
      → 0 < n
      → n ≤ buf_max_bytes
      → n + dword_serialize_size ≤ length xs
      → read_loop r (suc f) s xs
        ≡ after_read r (read_loop r f) xs n (read_channel s (take n (drop dword_serialize_size xs)))
  unfolding read_loop
  loop_takes f s xs n e pos small long = rw e (ground arith)

  pub loop_waits :
      (f : ℕ) (s : S) (xs : List ℕ) (n : ℕ)
      → read_be32 xs ≡ n
      → 0 < n
      → n ≤ buf_max_bytes
      → length xs < n + dword_serialize_size
      → read_loop r (suc f) s xs ≡ kept s xs
  unfolding read_loop
  loop_waits f s xs n e pos small short = rw e (ground arith)

  pub loop_idle :
      (f : ℕ) (s : S) (xs : List ℕ)
      → length xs ≤ dword_serialize_size
      → read_loop r (suc f) s xs ≡ kept s xs
  unfolding read_loop
  loop_idle f s xs short = ground arith

  read_loop-frame :
      (f : ℕ) (s : S) (m zs : List ℕ)
      → IsMessage m
      → read_loop r (suc f) s (frame m ++ zs)
        ≡ after_read r (read_loop r f) (frame m ++ zs) (length m) (read_channel s m)
  read_loop-frame f s m zs ok = rw (frame_lem m ok) (
      loop_takes f s (be32 (length m) ++ (m ++ zs)) (length m)
        (read_be32-frame (length m) (m ++ zs) (omega (arith, ok))) ok.0 ok.1
        (omega (arith, length-append m zs))
      ∙ rw (take_prefix (length m) m zs refl))

  -- A proper beginning of a frame.
  loop_partial :
      (f : ℕ) (s : S) (m : List ℕ) (k : ℕ)
      → IsMessage m
      → k < length (frame m)
      → read_loop r (suc f) s (take k (frame m)) ≡ kept s (take k (frame m))
  loop_partial f s m zero ok h = loop_idle f s [] (omega arith)
  loop_partial f s m (suc zero) ok h = rw (frame_lem m ok) (loop_idle f s _ (omega arith))
  loop_partial f s m (suc (suc zero)) ok h = rw (frame_lem m ok) (loop_idle f s _ (omega arith))
  loop_partial f s m (suc (suc (suc zero))) ok h =
      rw (frame_lem m ok) (loop_idle f s _ (omega arith))
  loop_partial f s m (suc (suc (suc (suc k)))) ok h = rw (frame_lem m ok) (
      loop_waits f s (be32 (length m) ++ take k m) (length m)
        (read_be32-frame (length m) (take k m) (omega (arith, ok))) ok.0 ok.1
        (omega (arith, length-take k m, ap length (frame_lem m ok))))

  -- A message that does not end the loop.
  feed_step :
      (go : S → List ℕ → End S) (xs : List ℕ) (s s' : S) (n : List ℕ) (ms : List (List ℕ))
      → feed s (n ∷ ms) ≡ some s'
      → (feed (read_channel s n).0 ms ≡ some s')
        × (after_read r go xs (length n) (read_channel s n)
            ≡ go (read_channel s n).0 (drop (dword_serialize_size + length n) xs))
  feed_step go xs s s' n ms e = elim (Bool-cases (read_channel s n).1) [
    | inl b ↦ rw b (ground arith)
    | inr b ↦ rw b (ground arith)
  ]

  read_loop-frames :
      (f : ℕ) (s s' : S) (ms : List (List ℕ)) (m : List ℕ) (k : ℕ)
      → feed s ms ≡ some s'
      → All IsMessage ms
      → IsMessage m
      → k < length (frame m)
      → length (frames ms ++ take k (frame m)) < f
      → read_loop r f s (frames ms ++ take k (frame m)) ≡ kept s' (take k (frame m))
  read_loop-frames zero s s' ms m k e ok okm h lt = absurd (omega arith)
  read_loop-frames (suc f) s s' [] m k e ok okm h lt = loop_partial f s m k okm h ∙ ground arith
  read_loop-frames (suc f) s s' (n ∷ ms) m k e ok okm h lt =
      let rest : List ℕ = frames ms ++ take k (frame m) in
      let size = ap length (frame_lem n ok.0) in
      let (more, on) = feed_step (read_loop r f) (frame n ++ rest) s s' n ms e in
      rw (append_assoc (frame n) (frames ms) (take k (frame m))) (
        read_loop-frame f s n rest ok.0
        ∙ on
        ∙ ap (read_loop r f (read_channel s n).0)
            (drop_prefix (dword_serialize_size + length n) (frame n) rest (omega (arith, size)))
        ∙ read_loop-frames f (read_channel s n).0 s' ms m k more ok.1 okm h (
            omega (
              arith,
              size,
              length-append (frame n) rest,
              ap length (append_assoc (frame n) (frames ms) (take k (frame m))),
            )))

  -- Bytes that are the frames of some messages, and a proper beginning of one more, arriving while none
  -- are left from before: each message reaches `ReadChannel` once, in order, the channel ends in the state
  -- that this gives, and exactly the unfinished frame is kept. The messages are in range, and the channel
  -- is kept alive where one fails.
  pub read_stream-frames :
      (c : Channel S) (s' : S) (ms : List (List ℕ)) (m : List ℕ) (k : ℕ)
      → c.available ≡ []
      → feed c.peer ms ≡ some s'
      → All IsMessage ms
      → IsMessage m
      → k < length (frame m)
      → read_stream r (bytes (frames ms ++ take k (frame m))) c
        ≡ record { peer = r.judge_success s'; available = take k (frame m) }
  unfolding read_stream
  read_stream-frames c s' ms m k a e ok okm h = rw (
    a,
    read_loop-frames (suc (length (frames ms ++ take k (frame m)))) c.peer s' ms m k e ok okm h
        (omega arith),
  )
