-- ===== src/Channel/Stream/Split.antt =====
-- channel.cpp: the loop of `ReadStream` on bytes that arrive in pieces.
use supertools_public.Common.{
  ℕ, zero, suc, ◌+◌, ◌≤◌, ◌<◌, ◌≡◌, refl, sym, ap, ◌∙◌, subst, ◌≢◌, ◌⊎◌, inl, inr, Bool, true,
  false, not, ◌||◌, List, ◌∷◌, ◌++◌, arith, leb, ◌==◌, Bool-cases, length, take, drop,
  length-append, length-drop, take-append, drop-append,
}
use supertools_public.Common.Bytes.{read_be32}
use supertools_public.Channel.Stream.{
  size_fault, dword_serialize_size, buf_max_bytes, Reader, End, kept, exits, stuck, after_read,
  read_loop, read_all,
}
use supertools_public.Channel.Stream.Frames.{loop_takes, loop_idle, loop_waits}

-- What the loop does first: it waits for more, finds a bad size, or takes a frame of a size.
data Turn (xs : List ℕ) : Type 0 where
  idles : length xs ≤ dword_serialize_size → Turn xs
  waits :
      0 < read_be32 xs
      → read_be32 xs ≤ buf_max_bytes
      → dword_serialize_size < length xs
      → length xs < read_be32 xs + dword_serialize_size
      → Turn xs
  spoils :
      dword_serialize_size < length xs
      → (read_be32 xs ≡ 0) ⊎ (buf_max_bytes < read_be32 xs)
      → Turn xs
  takes :
      0 < read_be32 xs
      → read_be32 xs ≤ buf_max_bytes
      → read_be32 xs + dword_serialize_size ≤ length xs
      → Turn xs

turn : (xs : List ℕ) → Turn xs
turn xs = elim (Bool-cases (leb (length xs) dword_serialize_size)) [
  | inl e ↦ idles (ground arith)
  | inr e ↦ elim (Bool-cases (read_be32 xs == 0)) [
    | inl z ↦ spoils (ground arith) (inl (ground arith))
    | inr z ↦ elim (Bool-cases (leb (read_be32 xs) buf_max_bytes)) [
      | inr w ↦ spoils (ground arith) (inr (ground arith))
      | inl w ↦ elim (Bool-cases (leb (read_be32 xs + dword_serialize_size) (length xs))) [
        | inl l ↦ takes (ground arith) (ground arith) (ground arith)
        | inr l ↦ waits (ground arith) (ground arith) (ground arith) (ground arith)
      ]
    ]
  ]
]

read_be32-append :
    (xs ys : List ℕ) → dword_serialize_size ≤ length xs → read_be32 (xs ++ ys) ≡ read_be32 xs
read_be32-append (a ∷ b ∷ c ∷ d ∷ xs) ys h = refl
read_be32-append _ ys h = absurd (omega arith)

module _ {S : Type 0} (r : Reader S) where
  open r use {read_channel, keep_alive, fill_channel_result}

  loop_spoils :
      (f : ℕ) (s : S) (xs : List ℕ)
      → dword_serialize_size < length xs
      → (read_be32 xs ≡ 0) ⊎ (buf_max_bytes < read_be32 xs)
      → read_loop r (suc f) s xs ≡ exits (fill_channel_result size_fault s) xs
  unfolding read_loop
  loop_spoils f s xs h z = ground arith

  -- Whether the loop goes on behind a frame.
  abbrev goes_on : S × Bool → Bool
  goes_on p = not p.1 || keep_alive p.0

  after_on :
      (go : S → List ℕ → End S) (xs : List ℕ) (n : ℕ) (p : S × Bool)
      → goes_on p ≡ true
      → after_read r go xs n p ≡ go p.0 (drop (dword_serialize_size + n) xs)
  after_on go xs n (s, false) e = refl
  after_on go xs n (s, true) e = rw e refl

  after_off :
      (go : S → List ℕ → End S) (xs : List ℕ) (n : ℕ) (p : S × Bool)
      → goes_on p ≡ false
      → after_read r go xs n p ≡ exits p.0 xs
  after_off go xs n (s, false) e = cc
  after_off go xs n (s, true) e = rw e refl

  -- The channel behind the frame that starts `xs`, and what `ReadChannel` says.
  abbrev outcome : S → List ℕ → S × Bool
  outcome s xs = read_channel s (take (read_be32 xs) (drop dword_serialize_size xs))

  abbrev behind : List ℕ → List ℕ
  behind xs = drop (dword_serialize_size + read_be32 xs) xs

  behind_shorter :
      (f : ℕ) (xs : List ℕ)
      → read_be32 xs + dword_serialize_size ≤ length xs
      → length xs < suc f
      → length (behind xs) < f
  behind_shorter f xs l h = omega (arith, length-drop (dword_serialize_size + read_be32 xs) xs)

  -- Any fuel that is enough gives the same.
  read_loop_fuel :
      (f g : ℕ) (s : S) (xs : List ℕ)
      → length xs < f
      → length xs < g
      → read_loop r f s xs ≡ read_loop r g s xs
  read_loop_fuel zero g s xs h k = absurd (omega arith)
  read_loop_fuel (suc f) zero s xs h k = absurd (omega arith)
  read_loop_fuel (suc f) (suc g) s xs h k = elim (turn xs) [
    | idles l ↦ loop_idle r f s xs l ∙ sym (loop_idle r g s xs l)
    | waits a b c d ↦ loop_waits r f s xs _ refl a b d ∙ sym (loop_waits r g s xs _ refl a b d)
    | spoils l z ↦ loop_spoils f s xs l z ∙ sym (loop_spoils g s xs l z)
    | takes a b l ↦
        loop_takes r f s xs _ refl a b l
        ∙ elim (Bool-cases (goes_on (outcome s xs))) [
          | inl e ↦
              after_on (read_loop r f) xs (read_be32 xs) (outcome s xs) e
              ∙ read_loop_fuel f g (outcome s xs).0 (behind xs) (behind_shorter f xs l h)
                  (behind_shorter g xs l k)
              ∙ sym (after_on (read_loop r g) xs (read_be32 xs) (outcome s xs) e)
          | inr e ↦
              after_off (read_loop r f) xs (read_be32 xs) (outcome s xs) e
              ∙ sym (after_off (read_loop r g) xs (read_be32 xs) (outcome s xs) e)
        ]
        ∙ sym (loop_takes r g s xs _ refl a b l)
  ]

  -- The `while` loop of `ReadStream` ends: it takes fewer turns than there are bytes and one more.
  pub read_loop-ne-stuck :
      (f : ℕ) (s : S) (xs : List ℕ) → length xs < f → read_loop r f s xs ≢ stuck
  read_loop-ne-stuck zero s xs h = absurd (omega arith)
  read_loop-ne-stuck (suc f) s xs h = elim (turn xs) [
    | idles l ↦ rw (loop_idle r f s xs l) (λ p. cc)
    | waits a b c d ↦ rw (loop_waits r f s xs _ refl a b d) (λ p. cc)
    | spoils l z ↦ rw (loop_spoils f s xs l z) (λ p. cc)
    | takes a b l ↦
        rw (loop_takes r f s xs _ refl a b l) (elim (Bool-cases (goes_on (outcome s xs))) [
          | inl e ↦
              rw (after_on (read_loop r f) xs (read_be32 xs) (outcome s xs) e)
                (read_loop-ne-stuck f (outcome s xs).0 (behind xs) (behind_shorter f xs l h))
          | inr e ↦ rw (after_off (read_loop r f) xs (read_be32 xs) (outcome s xs) e) (λ p. cc)
        ])
  ]

  resume :
      (g h : ℕ) (s s' : S) (xs rest ys : List ℕ)
      → kept s xs ≡ kept s' rest
      → length (xs ++ ys) < g
      → length (rest ++ ys) < h
      → read_loop r g s (xs ++ ys) ≡ read_loop r h s' (rest ++ ys)
  resume g h s s' xs rest ys q b c =
      let e : xs ≡ rest = cc in
      let w : s ≡ s' = cc in
      rw (sym w, sym e)
        (read_loop_fuel g h s (xs ++ ys) b (subst (λ z. length (z ++ ys) < h) (sym e) c))

  -- With more bytes behind it, a frame is read as before.
  loop_takes-append :
      (g : ℕ) (s : S) (xs ys : List ℕ)
      → 0 < read_be32 xs
      → read_be32 xs ≤ buf_max_bytes
      → read_be32 xs + dword_serialize_size ≤ length xs
      → read_loop r (suc g) s (xs ++ ys)
        ≡ after_read r (read_loop r g) (xs ++ ys) (read_be32 xs) (outcome s xs)
  loop_takes-append g s xs ys x y l =
      let n = read_be32 xs in
      loop_takes r g s (xs ++ ys) n (read_be32-append xs ys (omega arith)) x y
        (omega (arith, length-append xs ys))
      ∙ ap (λ z. after_read r (read_loop r g) (xs ++ ys) n (read_channel s z))
          (ap (take n) (drop-append dword_serialize_size xs ys (omega arith))
            ∙ take-append n (drop dword_serialize_size xs) ys
                (omega (arith, length-drop dword_serialize_size xs)))

  read_loop-append :
      (f g h : ℕ) (s s' : S) (xs rest ys : List ℕ)
      → read_loop r f s xs ≡ kept s' rest
      → length xs < f
      → length (xs ++ ys) < g
      → length (rest ++ ys) < h
      → read_loop r g s (xs ++ ys) ≡ read_loop r h s' (rest ++ ys)
  read_loop-append zero g h s s' xs rest ys e a b c = absurd (omega arith)
  read_loop-append (suc f) zero h s s' xs rest ys e a b c = absurd (omega arith)
  read_loop-append (suc f) (suc g) h s s' xs rest ys e a b c = elim (turn xs) [
    | idles l ↦ resume (suc g) h s s' xs rest ys (sym (loop_idle r f s xs l) ∙ e) b c
    | waits x y z w ↦
        resume (suc g) h s s' xs rest ys (sym (loop_waits r f s xs _ refl x y w) ∙ e) b c
    | spoils l z ↦ let q = sym (loop_spoils f s xs l z) ∙ e in absurd cc
    | takes x y l ↦
        let n = read_be32 xs in
        let p = outcome s xs in
        let q = sym (loop_takes r f s xs n refl x y l) ∙ e in
        elim (Bool-cases (goes_on p)) [
          | inl on ↦
              loop_takes-append g s xs ys x y l
              ∙ after_on (read_loop r g) (xs ++ ys) n p on
              ∙ ap (read_loop r g p.0) (drop-append (dword_serialize_size + n) xs ys (omega arith))
              ∙ read_loop-append f g h p.0 s' (behind xs) rest ys
                  (sym (after_on (read_loop r f) xs n p on) ∙ q) (behind_shorter f xs l a)
                  (omega (
                    arith,
                    length-append (behind xs) ys,
                    length-append xs ys,
                    length-drop (dword_serialize_size + n) xs,
                  ))
                  c
          | inr off ↦ let w = sym (after_off (read_loop r f) xs n p off) ∙ q in absurd cc
        ]
  ]

  -- Where the loop of `ReadStream` ends without an error and keeps some bytes, the same bytes with more
  -- behind them give what the kept bytes and those more give from there: how the bytes are cut into reads
  -- does not matter.
  pub read_all-append :
      (s s' : S) (xs rest ys : List ℕ)
      → read_all r s xs ≡ kept s' rest
      → read_all r s (xs ++ ys) ≡ read_all r s' (rest ++ ys)
  read_all-append s s' xs rest ys e =
      read_loop-append (suc (length xs)) (suc (length (xs ++ ys))) (suc (length (rest ++ ys))) s s'
        xs rest ys e (omega arith) (omega arith) (omega arith)
