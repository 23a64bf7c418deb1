-- ===== src/Session/Read/Split.antt =====
-- session.cpp: `FetchIOBuf` on bytes that arrive in pieces.
use native.Mathlib.Nat.{add_assoc, add-zero}
use supertools_public.Common.{
  ℕ, zero, suc, ◌+◌, ◌%◌, ◌^◌, ◌<◌, ◌≡◌, ◌≢◌, refl, sym, ap, ◌∙◌, subst, false, List, ◌++◌,
  append_assoc, arith, length, length-append, drop, length-drop, drop-append, Bool-cases, inl, inr,
}
use supertools_public.Heartbeat.{HdcHeartbeat, handle_message_count}
use supertools_public.Session.Packet.{Taken, taken, not_enough, bad_packet, on_read}
use supertools_public.Session.Read.{
  Session, Receiver, bytes, Fetched, consumed, err_io_fail, err_buf_size, Loop, stopped, broken,
  stuck, next_packet, fetch_loop, fetch_all, finish, receive, fetch_io_buf,
}
use supertools_public.Session.Read.Ends.{
  on_read-append, on_read_taken, on_read_waits, verdict, halts, loop_halts, loop_reads, halts-long,
  shorter, fetch_loop_fuel, fetch_loop-ne-stuck, took, waits, bad,
}

-- The bytes handled before count too.
abbrev advance : {S : Type 0} → ℕ → Loop S → Loop S
advance k (stopped s rest i) = stopped s rest (k + i)
advance k (broken s) = broken s
advance k stuck = stuck

module _ {S : Type 0} (r : Receiver S) where
  open r use {io_checksum as io, fetch_command as fetch, is_dead}

  fetch_loop_index :
      (f k i : ℕ) (s : S) (xs : List ℕ)
      → fetch_loop r f s xs (k + i) ≡ advance k (fetch_loop r f s xs i)
  fetch_loop_index zero k i s xs = unfold fetch_loop in refl
  fetch_loop_index (suc f) k i s xs = elim (Bool-cases (halts r s xs)) [
    | inl e ↦ rw (loop_halts r f (k + i) s xs e, loop_halts r f i s xs e)
    | inr e ↦
        rw (loop_reads r f (k + i) s xs e, loop_reads r f i s xs e)
          (elim (verdict (on_read io fetch s xs)) [
            | took n s' p ↦ rw p (
                ap (fetch_loop r f s' (drop n xs)) (add_assoc k i n)
                ∙ fetch_loop_index f k (i + n) s' (drop n xs))
            | waits s' p ↦ rw p
            | bad s' p ↦ rw p
          ])
  ]

  -- What more bytes do to a loop that has stopped, and to one that has failed.
  abbrev Continues : ℕ → S → List ℕ → List ℕ → ℕ → Loop S → Type 0
  Continues g s xs ys i (stopped s' rest j) =
      (h : ℕ)
      → length (rest ++ ys) < h
      → fetch_loop r g s (xs ++ ys) i ≡ fetch_loop r h s' (rest ++ ys) j
  Continues g s xs ys i (broken s') = fetch_loop r g s (xs ++ ys) i ≡ broken s'
  Continues g s xs ys i stuck = Unit

  Continues-step :
      (g i i' : ℕ) (s s' : S) (xs xs' ys : List ℕ) (l : Loop S)
      → fetch_loop r (suc g) s (xs ++ ys) i ≡ fetch_loop r g s' (xs' ++ ys) i'
      → Continues g s' xs' ys i' l
      → Continues (suc g) s xs ys i l
  Continues-step g i i' s s' xs xs' ys (stopped t rest j) e c = λ h lt. e ∙ c h lt
  Continues-step g i i' s s' xs xs' ys (broken t) e c = e ∙ c
  Continues-step g i i' s s' xs xs' ys stuck e c = tt

  -- With more bytes behind it, a packet is read as before.
  loop_reads-append :
      (g i : ℕ) (s : S) (xs ys : List ℕ) (p : Taken × S)
      → halts r s xs ≡ false
      → on_read io fetch s xs ≡ p
      → p.0 ≢ not_enough
      → fetch_loop r (suc g) s (xs ++ ys) i ≡ next_packet r (fetch_loop r g) (xs ++ ys) i p
  loop_reads-append g i s xs ys p e q ne =
      loop_reads r g i s (xs ++ ys)
        (rw (halts-long r s xs e).0 (ground (arith, halts-long r s xs e, length-append xs ys)))
      ∙ ap (next_packet r (fetch_loop r g) (xs ++ ys) i) (
          on_read-append io fetch s xs ys (halts-long r s xs e).1
            (λ w. ne (ap (λ t. t.0) (sym q) ∙ w))
          ∙ q)

  fetch_loop-append :
      (f g i : ℕ) (s : S) (xs ys : List ℕ)
      → length xs < f
      → length (xs ++ ys) < g
      → Continues g s xs ys i (fetch_loop r f s xs i)
  fetch_loop-append zero g i s xs ys h k = absurd (omega arith)
  fetch_loop-append (suc f) zero i s xs ys h k = absurd (omega arith)
  fetch_loop-append (suc f) (suc g) i s xs ys h k = elim (Bool-cases (halts r s xs)) [
    | inl e ↦ rw (loop_halts r f i s xs e) (λ m lt. fetch_loop_fuel r (suc g) m i s (xs ++ ys) k lt)
    | inr e ↦ rw (loop_reads r f i s xs e) (elim (verdict (on_read io fetch s xs)) [
      | took n s' p ↦ rw p (
          Continues-step g i (i + n) s s' xs (drop n xs) ys (fetch_loop r f s' (drop n xs) (i + n))
            (loop_reads-append g i s xs ys (taken n, s') e p (λ q. cc)
              ∙ ap (λ zs. fetch_loop r g s' zs (i + n))
                  (drop-append n xs ys (on_read_taken io fetch s xs p).1))
            (fetch_loop-append f g (i + n) s' (drop n xs) ys (shorter r n f s s' xs p h) (
              omega (
                arith,
                length-append (drop n xs) ys,
                length-append xs ys,
                length-drop n xs,
                on_read_taken io fetch s xs p,
              ))))
      | waits s' p ↦
          rw (p, on_read_waits io fetch s xs p)
            (λ m lt. fetch_loop_fuel r (suc g) m i s (xs ++ ys) k lt)
      | bad s' p ↦ rw p (loop_reads-append g i s xs ys (bad_packet, s') e p (λ q. cc))
    ])
  ]

  fetch_all_split :
      (s s' : S) (xs ys rest : List ℕ) (i : ℕ)
      → fetch_all r s xs ≡ stopped s' rest i
      → fetch_all r s (xs ++ ys) ≡ advance i (fetch_all r s' (rest ++ ys))
  fetch_all_split s s' xs ys rest i e =
      (subst (Continues (suc (length (xs ++ ys))) s xs ys 0) e (
          fetch_loop-append (suc (length xs)) (suc (length (xs ++ ys))) 0 s xs ys (omega arith)
            (omega arith)))
        (suc (length (rest ++ ys))) (omega arith)
      ∙ ap (fetch_loop r (suc (length (rest ++ ys))) s' (rest ++ ys)) (sym (add-zero i))
      ∙ fetch_loop_index (suc (length (rest ++ ys))) i 0 s' (rest ++ ys)

  abbrev pub after : ℕ → Fetched → Fetched
  after i (consumed j) = consumed (i + j)
  after i err_io_fail = err_io_fail
  after i err_buf_size = err_buf_size

  -- The state that a read leaves, but for the count of messages.
  abbrev pub SameRead : ℕ → Fetched × Session S → Fetched × Session S → Type 0
  SameRead i (a, v) (b, w) =
      (a ≡ after i b)
      × (v.peer ≡ w.peer)
      × (v.available ≡ w.available)
      × (v.data_recv_bytes ≡ w.data_recv_bytes)

  finish_split :
      (i : ℕ) (v w : Session S) (l : Loop S)
      → l ≢ stuck
      → v.data_recv_bytes ≡ w.data_recv_bytes
      → SameRead i (finish r v (advance i l)) (finish r w l)
  finish_split i v w (stopped s rest j) ne e = (refl, refl, refl, e)
  finish_split i v w (broken s) ne e = (refl, refl, refl, e)
  finish_split i v w stuck ne e = absurd (ne refl)

  pub fetch_io_buf-receive :
      (t : Session S) (xs : List ℕ)
      → (h : HdcHeartbeat) × (fetch_io_buf r t (bytes xs) ≡ receive r t h xs)
  unfolding fetch_io_buf
  fetch_io_buf-receive t xs = elim (Bool-cases t.heartbeat.support_heartbeat) [
    | inl e ↦ ((handle_message_count t.heartbeat).1, unfold handle_message_count in rw e)
    | inr e ↦ (t.heartbeat, rw e)
  ]

  -- The session after a read whose loop stopped so.
  abbrev left : Session S → HdcHeartbeat → List ℕ → S → List ℕ → Session S
  left t h xs s' rest = record t {
    peer = s';
    available = rest;
    heartbeat = h;
    data_recv_bytes = (t.data_recv_bytes + length xs) % 2 ^ 64;
  }

  read_split_left :
      (t : Session S) (h : HdcHeartbeat) (xs ys rest : List ℕ) (s' : S) (j : ℕ)
      → fetch_all r t.peer (t.available ++ xs) ≡ stopped s' rest j
      → SameRead j
          (fetch_io_buf r t (bytes (xs ++ ys)))
          (fetch_io_buf r (left t h xs s' rest) (bytes ys))
  read_split_left t h xs ys rest s' j e =
      let u = left t h xs s' rest in
      let (h2, e2) = fetch_io_buf-receive t (xs ++ ys) in
      let (h3, e3) = fetch_io_buf-receive u ys in
      let split : fetch_all r t.peer (t.available ++ (xs ++ ys))
          ≡ advance j (fetch_all r s' (rest ++ ys)) =
        ap (fetch_all r t.peer) (sym (append_assoc t.available xs ys))
        ∙ fetch_all_split t.peer s' (t.available ++ xs) ys rest j e in
      rw (e2, e3, split)
        (finish_split j _ _ (fetch_all r s' (rest ++ ys))
          (fetch_loop-ne-stuck r (suc (length (rest ++ ys))) 0 s' (rest ++ ys) (omega arith))
          (omega (arith, length-append xs ys)))

  abbrev index : Fetched → ℕ
  index (consumed i) = i
  index _ = 0

  read_split_at :
      (t u : Session S) (xs ys : List ℕ) (i : ℕ) (h : HdcHeartbeat) (l : Loop S)
      → fetch_all r t.peer (t.available ++ xs) ≡ l
      → receive r t h xs ≡ (consumed i, u)
      → SameRead i (fetch_io_buf r t (bytes (xs ++ ys))) (fetch_io_buf r u (bytes ys))
  read_split_at t u xs ys i h (stopped s' rest j) e q =
      subst
        (λ (p : Fetched × Session S).
          SameRead (index p.0) (fetch_io_buf r t (bytes (xs ++ ys)))
            (fetch_io_buf r p.1 (bytes ys)))
        (rw e at q) (read_split_left t h xs ys rest s' j e)
  read_split_at t u xs ys i h (broken s') e q = absurd (clash (rw e at q))
    where
      clash : {v : Session S} → ◌≡◌ {A = Fetched × Session S} (err_buf_size, v) (consumed i, u) → ⊥
      clash w = cc
  read_split_at t u xs ys i h stuck e q = absurd (clash (rw e at q))
    where
      clash : {v : Session S} → ◌≡◌ {A = Fetched × Session S} (err_buf_size, v) (consumed i, u) → ⊥
      clash w = cc

  -- Reading bytes in two pieces is reading them in one: if the first read reports no error, then the
  -- second ends as the read of all the bytes does, with the same receiver, the same bytes left over and
  -- the same count of bytes received, and what the two consume adds up to what the one does; an error
  -- of the second is the error of the one.
  pub fetch_io_buf_split :
      (t u : Session S) (xs ys : List ℕ) (i : ℕ)
      → fetch_io_buf r t (bytes xs) ≡ (consumed i, u)
      → SameRead i (fetch_io_buf r t (bytes (xs ++ ys))) (fetch_io_buf r u (bytes ys))
  fetch_io_buf_split t u xs ys i e =
      let (h, q) = fetch_io_buf-receive t xs in
      read_split_at t u xs ys i h (fetch_all r t.peer (t.available ++ xs)) refl (sym q ∙ e)
