-- ===== src/Session/Read/Ends.antt =====
-- session.cpp: the loop of `FetchIOBuf`, its turns and its end.
use supertools_public.Common.{
  ℕ, zero, suc, ◌+◌, ◌≤◌, ◌<◌, ◌≡◌, ◌≢◌, refl, sym, ◌∙◌, Bool, true, false, not, ◌||◌, List, [],
  ◌∷◌, ◌++◌, arith, ltb, length, length-append, drop, length-drop, Bool-cases, inl, inr,
  take-append, drop-append,
}
use supertools_public.Common.Bytes.{read_be16, read_be32}
use supertools_public.Session.Packet.{
  head_len, Taken, taken, not_enough, bad_packet, decrypt_payload, on_read,
}
use supertools_public.Session.Read.{Receiver, Loop, stopped, stuck, next_packet, fetch_loop}

module _ {S : Type 0} (io : Bool) (fetch : S → ℕ → ℕ → List ℕ → S × Bool) where
  decrypt_payload-append :
      (s : S) (hs ds : ℕ) (body ys : List ℕ)
      → ds + hs ≤ length body
      → decrypt_payload io fetch s hs ds (body ++ ys) ≡ decrypt_payload io fetch s hs ds body
  unfolding decrypt_payload
  decrypt_payload-append s hs ds body ys h = rw (
    take-append hs body ys (omega arith),
    drop-append hs body ys (omega arith),
    take-append ds (drop hs body) ys (omega (arith, length-drop hs body)),
  )

  -- A verdict of `OnRead`, other than to wait, does not depend on what follows.
  pub on_read-append :
      (s : S) (buf ys : List ℕ)
      → head_len < length buf
      → (on_read io fetch s buf).0 ≢ not_enough
      → on_read io fetch s (buf ++ ys) ≡ on_read io fetch s buf
  unfolding on_read
  on_read-append s (b0 ∷ b1 ∷ b2 ∷ b3 ∷ b4 ∷ b5 ∷ b6 ∷ b7 ∷ b8 ∷ b9 ∷ b10 ∷ body) ys h ne =
      let hs : ℕ = read_be16 (b5 ∷ b6 ∷ []) in
      let ds : ℕ = read_be32 (b7 ∷ b8 ∷ b9 ∷ b10 ∷ []) in
      ground (arith, length-append body ys, decrypt_payload-append s hs ds body ys)
  on_read-append s _ ys h ne = absurd (omega arith)

  pub on_read_taken :
      (s : S) (buf : List ℕ) {n : ℕ} {s' : S}
      → on_read io fetch s buf ≡ (taken n, s')
      → (head_len < n) × (n ≤ length buf)
  unfolding on_read
  on_read_taken s buf e = ground arith

  pub on_read_waits :
      (s : S) (buf : List ℕ) {s' : S} → on_read io fetch s buf ≡ (not_enough, s') → s' ≡ s
  unfolding on_read
  on_read_waits s buf e = ground arith

pub data Verdict {S : Type 0} (p : Taken × S) : Type 0 where
  took : (n : ℕ) (s : S) → p ≡ (taken n, s) → Verdict p
  waits : (s : S) → p ≡ (not_enough, s) → Verdict p
  bad : (s : S) → p ≡ (bad_packet, s) → Verdict p

pub verdict : {S : Type 0} (p : Taken × S) → Verdict p
verdict (taken n, s) = took n s refl
verdict (not_enough, s) = waits s refl
verdict (bad_packet, s) = bad s refl

module _ {S : Type 0} (r : Receiver S) where
  open r use {io_checksum as io, fetch_command as fetch, is_dead}

  -- The test at the head of the loop fails.
  abbrev pub halts : S → List ℕ → Bool
  halts s xs = is_dead s || not (ltb head_len (length xs))

  pub loop_halts :
      (f i : ℕ) (s : S) (xs : List ℕ)
      → halts s xs ≡ true
      → fetch_loop r (suc f) s xs i ≡ stopped s xs i
  unfolding fetch_loop
  loop_halts f i s xs h = rw h

  pub loop_reads :
      (f i : ℕ) (s : S) (xs : List ℕ)
      → halts s xs ≡ false
      → fetch_loop r (suc f) s xs i ≡ next_packet r (fetch_loop r f) xs i (on_read io fetch s xs)
  unfolding fetch_loop
  loop_reads f i s xs h = rw h

  pub halts-long :
      (s : S) (xs : List ℕ) → halts s xs ≡ false → (is_dead s ≡ false) × (head_len < length xs)
  halts-long s xs h = ground arith

  pub next_packet_congr :
      (go go' : S → List ℕ → ℕ → Loop S) (i : ℕ) (s : S) (xs : List ℕ)
      → ((n : ℕ) (s' : S)
          → on_read io fetch s xs ≡ (taken n, s')
          → go s' (drop n xs) (i + n) ≡ go' s' (drop n xs) (i + n))
      → next_packet r go xs i (on_read io fetch s xs)
        ≡ next_packet r go' xs i (on_read io fetch s xs)
  next_packet_congr go go' i s xs same = elim (verdict (on_read io fetch s xs)) [
    | took n s' e ↦ rw e (same n s' e)
    | waits s' e ↦ rw e
    | bad s' e ↦ rw e
  ]

  pub shorter :
      (n f : ℕ) (s s' : S) (xs : List ℕ)
      → on_read io fetch s xs ≡ (taken n, s')
      → length xs < suc f
      → length (drop n xs) < f
  shorter n f s s' xs e h = omega (arith, length-drop n xs, on_read_taken io fetch s xs e)

  -- Any fuel that is enough gives the same.
  pub fetch_loop_fuel :
      (f g i : ℕ) (s : S) (xs : List ℕ)
      → length xs < f
      → length xs < g
      → fetch_loop r f s xs i ≡ fetch_loop r g s xs i
  fetch_loop_fuel zero g i s xs h k = absurd (omega arith)
  fetch_loop_fuel (suc f) zero i s xs h k = absurd (omega arith)
  fetch_loop_fuel (suc f) (suc g) i s xs h k = elim (Bool-cases (halts s xs)) [
    | inl e ↦ loop_halts f i s xs e ∙ sym (loop_halts g i s xs e)
    | inr e ↦
        loop_reads f i s xs e
        ∙ next_packet_congr (fetch_loop r f) (fetch_loop r g) i s xs (λ n s' p.
          fetch_loop_fuel f g (i + n) s' (drop n xs) (shorter n f s s' xs p h)
            (shorter n g s s' xs p k))
        ∙ sym (loop_reads g i s xs e)
  ]

  -- The loop of `FetchIOBuf` ends: it takes fewer turns than there are bytes and one more.
  pub fetch_loop-ne-stuck :
      (f i : ℕ) (s : S) (xs : List ℕ) → length xs < f → fetch_loop r f s xs i ≢ stuck
  fetch_loop-ne-stuck zero i s xs h = absurd (omega arith)
  fetch_loop-ne-stuck (suc f) i s xs h = elim (Bool-cases (halts s xs)) [
    | inl e ↦ rw (loop_halts f i s xs e) (λ p. cc)
    | inr e ↦ rw (loop_reads f i s xs e) (elim (verdict (on_read io fetch s xs)) [
      | took n s' p ↦ rw p (fetch_loop-ne-stuck f (i + n) s' (drop n xs) (shorter n f s s' xs p h))
      | waits s' p ↦ rw p (λ q. cc)
      | bad s' p ↦ rw p (λ q. cc)
    ])
  ]
