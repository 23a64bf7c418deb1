-- ===== src/Tar/Archive/Reads.antt =====
-- entry.cpp: the payload of a file, read back with its padding.
use supertools_public.Common.{
  ℕ, zero, suc, ◌+◌, ◌-◌, ◌%◌, ◌≤◌, ◌<◌, ◌≡◌, refl, sym, ap, ap₂, ◌∙◌, true, false, List, [], ◌∷◌,
  ◌++◌, length, take, drop, ltb, if◌then◌else◌, arith, append_assoc, append-nil, take-append,
  drop-append, take-append-drop, take_prefix, drop_prefix, length-append, length-drop, Bool-cases,
  inl, inr,
}
use supertools_public.Tar.Archive.{
  Payload, read_and_write_data, payload_loop, payload_to_file, last_buf_size,
}

abbrev at : ℕ → List ℕ → List ℕ → Payload
at need input written = record { done = true; need = need; input = input; written = written }

-- How many zeros follow a payload of a size.
abbrev pub padding_of : ℕ → ℕ
padding_of n = (512 - n % 512) % 512

pub ltb_lt : (a b : ℕ) → ltb a b ≡ true → a < b
ltb_lt a b h = ground arith

pub ltb_ge : (a b : ℕ) → ltb a b ≡ false → b ≤ a
ltb_ge a b h = ground arith

ge_ltb : (a b : ℕ) → b ≤ a → ltb a b ≡ false
ge_ltb a b h = ground arith

payload_turn :
    (fuel n : ℕ) (content tail written : List ℕ)
    → ltb n 4096 ≡ false
    → 4096 ≤ length content
    → payload_loop (suc fuel) (at n (content ++ tail) written)
      ≡ payload_loop fuel (at (n - 4096) (drop 4096 content ++ tail) (written ++ take 4096 content))
unfolding payload_loop read_and_write_data
payload_turn fuel n content tail written e big =
    let size : 4096 ≤ length (content ++ tail) = omega (arith, length-append content tail) in
    rw
      (
        e,
        ge_ltb (length (content ++ tail)) 4096 size,
        take-append 4096 content tail big,
        drop-append 4096 content tail big,
      )
      refl

payload_stop :
    (fuel n : ℕ) (input written : List ℕ)
    → ltb n 4096 ≡ true
    → payload_loop (suc fuel) (at n input written) ≡ at n input written
unfolding payload_loop read_and_write_data
payload_stop fuel n input written e = rw e refl

-- The whole turns take a front of the content and leave less than a buffer of it.
record Left (fuel n : ℕ) (content tail written : List ℕ) : Type 0 where
  front : List ℕ
  last : List ℕ
  left :
      payload_loop fuel (at n (content ++ tail) written)
      ≡ at (length last) (last ++ tail) (written ++ front)
  whole : front ++ last ≡ content
  padded : padding_of (length last) ≡ padding_of (length content)

payload_loop-Left :
    (fuel n : ℕ) (content tail written : List ℕ)
    → n ≡ length content
    → n < fuel
    → Left fuel n content tail written
payload_loop-Left zero n content tail written q h = absurd (omega arith)
payload_loop-Left (suc fuel) n content tail written q h = elim (Bool-cases (ltb n 4096)) [
  | inl e ↦ record {
    front = [];
    last = content;
    left =
        payload_stop fuel n (content ++ tail) written e
        ∙ ap₂ (λ k w. at k (content ++ tail) w) q (sym (append-nil written));
    whole = refl;
    padded = refl;
  }
  | inr e ↦
      let big : 4096 ≤ n = ltb_ge n 4096 e in
      let size : n - 4096 ≡ length (drop 4096 content) = omega (arith, length-drop 4096 content) in
      let front = take 4096 content in
      let r =
        payload_loop-Left fuel (n - 4096) (drop 4096 content) tail (written ++ front) size
          (omega arith) in
      record {
        front = front ++ r.front;
        last = r.last;
        left =
            payload_turn fuel n content tail written e (omega arith)
            ∙ r.left
            ∙ ap (at (length r.last) (r.last ++ tail)) (append_assoc written front r.front);
        whole =
            append_assoc front r.front r.last
            ∙ ap (◌++◌ front) r.whole
            ∙ take-append-drop 4096 content;
        padded = r.padded ∙ omega (arith, size);
      }
]

-- The last read takes the content that is left and its padding, and writes the content.
last_read :
    (last zeros rest : List ℕ)
    → length zeros ≡ padding_of (length last)
    → 0 < length last
    → (drop (last_buf_size (length last)) (last ++ (zeros ++ rest)) ≡ rest)
      × (ltb (length (last ++ (zeros ++ rest))) (last_buf_size (length last)) ≡ false)
last_read last zeros rest z h =
    let size : last_buf_size (length last) ≡ length (last ++ zeros) =
      ground (arith, length-append last zeros) in
    let whole : length (last ++ (zeros ++ rest)) ≡ length (last ++ zeros) + length rest = omega (
      arith,
      length-append last (zeros ++ rest),
      length-append zeros rest,
      length-append last zeros,
    ) in
    (
      ap (drop (last_buf_size (length last))) (sym (append_assoc last zeros rest))
          ∙ drop_prefix (last_buf_size (length last)) (last ++ zeros) rest size,
      rw (size, whole) (ground arith),
    )

ltb-suc : (n : ℕ) → ltb 0 (suc n) ≡ true
ltb-suc n = ground arith

finish_payload :
    (last zeros rest front : List ℕ)
    → length zeros ≡ padding_of (length last)
    → let p = at (length last) (last ++ (zeros ++ rest)) front in
      let q = if ltb 0 p.need then read_and_write_data (last_buf_size p.need) p.need p else p in
      (q.done ≡ true) × (q.input ≡ rest) × (q.written ≡ front ++ last)
unfolding read_and_write_data
finish_payload [] [] rest front z = (refl, refl, sym (append-nil front))
finish_payload [] (a ∷ zeros) rest front z = absurd (omega arith)
finish_payload (a ∷ last) zeros rest front z =
    let (left, enough) = last_read (a ∷ last) zeros rest z (omega arith) in
    rw (ltb-suc (length last), enough, left, take_prefix (length last) last (zeros ++ rest) refl)
      (refl, refl, refl)

pub payload_to_file-reads :
    (content zeros rest : List ℕ)
    → length zeros ≡ padding_of (length content)
    → let p = payload_to_file (length content) (content ++ (zeros ++ rest)) in
      (p.done ≡ true) × (p.input ≡ rest) × (p.written ≡ content)
unfolding payload_to_file
payload_to_file-reads content zeros rest z =
    let r =
      payload_loop-Left (suc (length content)) (length content) content (zeros ++ rest) [] refl
        (omega arith) in
    let (done, input, written) = finish_payload r.last zeros rest r.front (z ∙ sym r.padded) in
    rw r.left (done, input, written ∙ r.whole)
