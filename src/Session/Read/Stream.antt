-- ===== src/Session/Read/Stream.antt =====
-- session.cpp: `FetchIOBuf` on a run of packets, as `Send` builds them.
use supertools_public.Common.{
  ℕ, zero, suc, ◌+◌, ◌^◌, ◌≤◌, ◌<◌, ◌≡◌, refl, ap, ◌∙◌, true, false, Option, none, some, List, [],
  ◌∷◌, ◌++◌, append_assoc, arith, if◌then◌else◌, length, length-append, drop_prefix, Bool-cases,
  All,
}
use supertools_public.Session.Packet.{head_len, hdc_buf_max_bytes, taken, packet, on_read}
use supertools_public.Session.Packet.RoundTrip.{on_read-packet}
use supertools_public.Session.Read.{
  Session, Receiver, bytes, consumed, stopped, next_packet, fetch_loop, fetch_io_buf,
}
use supertools_public.Session.Read.Ends.{on_read_taken, loop_halts, loop_reads}
use supertools_public.Session.Read.Split.{fetch_io_buf-receive}

pub record Command : Type 0 where
  pub channel_id : ℕ
  pub command_flag : ℕ
  pub payload : List ℕ

-- What the arguments of `Send` can be. `OnRead` takes no more than `INT_MAX` bytes behind the head.
abbrev pub IsCommand : Command → Type 0
IsCommand c =
    (c.channel_id < 2 ^ 32)
    × (c.command_flag < 2 ^ 16)
    × (length c.payload + 40 ≤ hdc_buf_max_bytes)

module _ {S : Type 0} (r : Receiver S) where
  open r use {io_checksum as io, fetch_command as fetch, is_dead}

  -- The receiver after the commands, none of which fails and before none of which it is dead.
  abbrev pub feed : S → List Command → Option S
  feed s [] = some s
  feed s (c ∷ cs) =
      let (s', done) = fetch s c.channel_id c.command_flag c.payload in
      let rest = feed s' cs in if is_dead s then none else if done then rest else none

  abbrev pub packets : List Command → List ℕ
  packets [] = []
  packets (c ∷ cs) = packet io c.channel_id c.command_flag c.payload ++ packets cs

  feed_step :
      (s s' : S) (c : Command) (cs : List Command)
      → feed s (c ∷ cs) ≡ some s'
      → let (t, done) = fetch s c.channel_id c.command_flag c.payload in
        (is_dead s ≡ false) × (done ≡ true) × (feed t cs ≡ some s')
  feed_step s s' c cs h = ground arith

  fetch_loop-packets :
      (f i : ℕ) (s s' : S) (cs : List Command) (tail : List ℕ)
      → feed s cs ≡ some s'
      → All IsCommand cs
      → length tail ≤ head_len
      → length (packets cs ++ tail) < f
      → fetch_loop r f s (packets cs ++ tail) i ≡ stopped s' tail (i + length (packets cs))
  fetch_loop-packets zero i s s' cs tail h ok short k = absurd (omega arith)
  fetch_loop-packets (suc f) i s s' [] tail h ok short k =
      loop_halts r f i s tail (ground (arith, Bool-cases (is_dead s))) ∙ ground arith
  fetch_loop-packets (suc f) i s s' (c ∷ cs) tail h ok short k =
      let p = packet io c.channel_id c.command_flag c.payload in
      let t = (fetch s c.channel_id c.command_flag c.payload).0 in
      let (alive, done, more) = feed_step s s' c cs h in
      let read : on_read io fetch s (p ++ (packets cs ++ tail)) ≡ (taken (length p), t) =
        on_read-packet io fetch s c.channel_id c.command_flag c.payload (packets cs ++ tail) ok.0.0
          ok.0.1 ok.0.2
        ∙ rw done in
      let (long, within) = on_read_taken io fetch s (p ++ (packets cs ++ tail)) read in
      rw (append_assoc p (packets cs) tail) (
        loop_reads r f i s (p ++ (packets cs ++ tail)) (rw alive (ground (arith, long, within)))
        ∙ ap (next_packet r (fetch_loop r f) (p ++ (packets cs ++ tail)) i) read
        ∙ ap (λ zs. fetch_loop r f t zs (i + length p))
            (drop_prefix (length p) p (packets cs ++ tail) refl)
        ∙ fetch_loop-packets f (i + length p) t s' cs tail more ok.1 short (
            omega (
              arith,
              length-append p (packets cs ++ tail),
              ap length (append_assoc p (packets cs) tail),
              long,
            ))
        ∙ ap (stopped s' tail) (omega (arith, length-append p (packets cs))))

  -- Bytes that are the packets of some commands, and at most 11 bytes more, arriving while none are left
  -- from before: each command reaches `FetchCommand` once, in order, the session ends in the state that
  -- this gives, exactly the packets are consumed, and the bytes behind them are kept. The commands are
  -- in range, none fails, and the session is not dead before any of them.
  pub fetch_io_buf-packets :
      (t : Session S) (s' : S) (cs : List Command) (tail : List ℕ)
      → t.available ≡ []
      → feed t.peer cs ≡ some s'
      → All IsCommand cs
      → length tail ≤ head_len
      → let (a, u) = fetch_io_buf r t (bytes (packets cs ++ tail)) in
        (a ≡ consumed (length (packets cs))) × (u.peer ≡ s') × (u.available ≡ tail)
  fetch_io_buf-packets t s' cs tail e h ok short =
      let (hb, q) = fetch_io_buf-receive r t (packets cs ++ tail) in
      rw
        (
          q,
          e,
          fetch_loop-packets (suc (length (packets cs ++ tail))) 0 t.peer s' cs tail h ok short
              (omega arith),
        )
        (ap consumed (omega arith), refl, refl)
