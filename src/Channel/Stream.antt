-- ===== src/Channel/Stream.antt =====
-- channel.cpp: `SendChannel`'s frame and `ReadStream`, which cuts the bytes that have arrived into frames.
--
-- `S` is the channel object as the virtual `ReadChannel` leaves it, with the flag `keepAlive` and the
-- record of faults of the host build; the theorems take any. `available` are the first `availTailIndex`
-- bytes of `ioBuf`, which is taken to be large enough for `memmove_s`.
pub mod Frames
pub mod Split
use supertools_public.Common.{
  ℕ, zero, suc, ◌+◌, ◌-◌, ◌^◌, Bool, true, false, not, ◌||◌, List, [], ◌∷◌, ◌++◌, ltb, ◌==◌,
  if◌then◌else◌, length, take, drop, codes,
}
use supertools_public.Common.Bytes.{be32, read_be32}

-- `DWORD_SERIALIZE_SIZE`.
abbrev pub dword_serialize_size : ℕ
dword_serialize_size = 4

-- `HDC_BUF_MAX_BYTES`, which is `INT_MAX`.
abbrev pub buf_max_bytes : ℕ
buf_max_bytes = 2 ^ 31 - 1

-- What `SendChannel` writes: the size in network order and the bytes. `memcpy_s` refuses to copy into
-- no room, so nothing is written of no bytes.
unfoldable pub frame : List ℕ → List ℕ
frame [] = []
frame (b ∷ bs) = be32 (length (b ∷ bs)) ++ (b ∷ bs)

-- `nread`: `UV_ENOBUFS` or another error with the text that libuv has for it, nothing, or bytes.
pub data NumRead : Type 0 where
  enobufs : List ℕ → NumRead
  idle : NumRead
  failed : List ℕ → NumRead
  bytes : List ℕ → NumRead

-- `ReadChannel` says with true that it returned a negative number.
pub record Reader (S : Type 0) : Type 0 where
  pub read_channel : S → List ℕ → S × Bool
  pub keep_alive : S → Bool
  pub fill_channel_result : List ℕ → S → S
  pub judge_success : S → S
  pub free_this : S → S

-- How the loop ends: with the bytes that are left, or with `needExit`. `stuck` means that the fuel ran
-- out.
pub data End (S : Type 0) : Type 0 where
  kept : S → List ℕ → End S
  exits : S → List ℕ → End S
  stuck : End S

pub record Channel (S : Type 0) : Type 0 where
  pub peer : S
  pub available : List ℕ

abbrev pub size_fault : List ℕ
size_fault = codes "parse error: size field is too big"

module _ {S : Type 0} (r : Reader S) where
  -- Behind `ReadChannel`.
  abbrev pub after_read : (S → List ℕ → End S) → List ℕ → ℕ → S × Bool → End S
  after_read continue xs size (s, false) = continue s (drop (dword_serialize_size + size) xs)
  after_read continue xs size (s, true) =
      if r.keep_alive s then continue s (drop (dword_serialize_size + size) xs) else exits s xs

  -- The `while` loop; `xs` is what stands from `indexBuf` on.
  unfoldable pub read_loop : ℕ → S → List ℕ → End S
  read_loop zero s xs = stuck
  read_loop (suc fuel) s xs =
      let size = read_be32 xs in
      if not (ltb dword_serialize_size (length xs))
      then kept s xs
      else if size == 0 || ltb buf_max_bytes size
      then exits (r.fill_channel_result size_fault s) xs
      else if ltb (length xs - dword_serialize_size) size
      then kept s xs
      else after_read (read_loop fuel) xs size
          (r.read_channel s (take size (drop dword_serialize_size xs)))

  -- Every frame is longer than its size field, so this fuel suffices.
  abbrev pub read_all : S → List ℕ → End S
  read_all s xs = read_loop (suc (length xs)) s xs

  -- `Finish`.
  abbrev pub finish_read : Channel S → End S → Channel S
  finish_read c (kept s rest) = record { peer = r.judge_success s; available = rest }
  finish_read c (exits s rest) = record { peer = r.free_this s; available = rest }
  finish_read c stuck = c

  unfoldable pub read_stream : NumRead → Channel S → Channel S
  unfolding read_loop
  read_stream (enobufs text) c = record c { peer = r.fill_channel_result text c.peer }
  read_stream idle c = c
  read_stream (failed name) c = record c { peer = r.free_this (r.fill_channel_result name c.peer) }
  read_stream (bytes xs) c = finish_read c (read_all c.peer (c.available ++ xs))
