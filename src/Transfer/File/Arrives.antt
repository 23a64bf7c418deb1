-- ===== src/Transfer/File/Arrives.antt =====
-- transfer.cpp: a file from the sender's reads to the receiver's writes.
use supertools_public.Common.{
  ℕ, zero, suc, ◌+◌, ◌^◌, ◌≤◌, ◌<◌, ◌≡◌, refl, sym, ◌∙◌, subst, inl, inr, Bool, true, false, Option,
  some, List, [], ◌∷◌, arith, ltb, ◌==◌, if◌then◌else◌, Bool-cases, All, length, get_elem?, take,
  drop, length-take, length-drop,
}
use supertools_public.Transfer.Block.{Block, send_io_payload, recv_io_payload}
use supertools_public.Transfer.Block.RoundTrip.{Unpacks, recv_io_payload-send_io_payload}
use supertools_public.Transfer.File.{read_size, send_file, write_all, on_write, receive_payload}
use supertools_public.Transfer.File.Whole.{
  Among, IsSlice, Covers, get_elem?-drop, get_elem?-take, write_all-file,
}

-- The blocks into which the reads cut the file from a place on.
unfoldable pub cuts : (ℕ → ℕ) → ℕ → List ℕ → ℕ → List Block
cuts amount zero file i = []
cuts amount (suc fuel) file i =
    let n = amount i in
    let rest = cuts amount fuel file (i + n) in
    (record { index = i; bytes = take n (drop i file) })
    ∷ (if n == 0 then [] else if ltb (i + n) (length file) then rest else [])

-- The payloads are taken as these blocks, by a receiver that has not finished and has large buffers.
abbrev pub Receives : (List ℕ → ℕ → Option (List ℕ)) → List (List ℕ) → List Block → Type 0
Receives decompress [] [] = Unit
Receives decompress [] (b ∷ bs) = ⊥
Receives decompress (p ∷ ps) [] = ⊥
Receives decompress (p ∷ ps) (b ∷ bs) =
    (receive_payload decompress false false p ≡ some b) × Receives decompress ps bs

-- What libuv does on a read: some bytes of what is left, and no more than were asked for.
abbrev pub Reads : Bool → ℕ → (ℕ → ℕ) → Type 0
Reads stable size amount =
    (i : ℕ)
    → (amount i ≤ read_size stable) × (i ≤ size → i + amount i ≤ size) × (i < size → 0 < amount i)

-- Whether each write finishes the file, if the blocks are written in this order.
unfoldable pub finishes : ℕ → ℕ → List Block → List Bool
finishes size index_io [] = []
finishes size index_io (b ∷ bs) =
    let (index_io', finish) = on_write size index_io (length b.bytes) in
    finish ∷ finishes size index_io' bs

-- The last one is true, and no other.
abbrev pub LastOnly : List Bool → Type 0
LastOnly [] = ⊥
LastOnly (f ∷ []) = f ≡ true
LastOnly (f ∷ g ∷ fs) = (f ≡ false) × LastOnly (g ∷ fs)

LastOnly-later : (fs : List Bool) → LastOnly fs → LastOnly (false ∷ fs)
LastOnly-later [] l = absurd l
LastOnly-later (f ∷ fs) l = (refl, l)

receive_payload_takes :
    (decompress : List ℕ → ℕ → Option (List ℕ)) (stable : Bool) (payload : List ℕ) (b : Block)
    → recv_io_payload decompress payload ≡ some b
    → length b.bytes ≤ read_size stable
    → receive_payload decompress false false payload ≡ some b
unfolding receive_payload
receive_payload_takes decompress true payload b e h = rw (receive_payload, e) (ground arith)
receive_payload_takes decompress false payload b e h = rw (receive_payload, e) (ground arith)

IsSlice-take :
    (file : List ℕ) (i n : ℕ)
    → i + n ≤ length file
    → (length (take n (drop i file)) ≡ n)
      × IsSlice file (record { index = i; bytes = take n (drop i file) })
IsSlice-take file i n h =
    let size : length (take n (drop i file)) ≡ n =
      omega (arith, length-take n (drop i file), length-drop i file) in
    (
      size,
      (
        omega (arith, size),
        λ j lt. get_elem?-take n j (drop i file) (omega (arith, size)) ∙ get_elem?-drop i j file,
      ),
    )

module _ (compress : List ℕ → Option (List ℕ)) (decompress : List ℕ → ℕ → Option (List ℕ))
    (amount : ℕ → ℕ) (stable : Bool) (compress_type : ℕ) (file : List ℕ)
    (unpacks : (block : List ℕ) → Unpacks compress decompress block)
    (type_small : compress_type < 2 ^ 8) (file_small : length file < 2 ^ 64)
    (reads : Reads stable (length file) amount) where
  -- One read at a place of the file: its payload, and the block that it is taken as.
  one_block :
      (i : ℕ)
      → i ≤ length file
      → let b : Block = record { index = i; bytes = take (amount i) (drop i file) } in
        (payload : List ℕ) × (send_io_payload compress compress_type i
            (take (amount i) (drop i file))
          ≡ some payload)
        × (receive_payload decompress false false payload ≡ some b)
        × IsSlice file b
  one_block i h =
      let n = amount i in
      let r = reads i in
      let (size, slice) = IsSlice-take file i n (r.1 h) in
      let limit : n ≤ 418611 = below stable (reads i).0 in
      let (payload, e, back) =
        recv_io_payload-send_io_payload compress decompress compress_type i (take n (drop i file))
          (unpacks (take n (drop i file))) type_small (omega arith) (omega (arith, size)) in
      (
        payload,
        e,
        receive_payload_takes decompress stable payload
            (record { index = i; bytes = take n (drop i file) }) back
            (subst (λ k. k ≤ read_size stable) (sym size) (reads i).0),
        slice,
      )
    where
      below : {n : ℕ} (b : Bool) → n ≤ read_size b → n ≤ 418611
      below true l = omega arith
      below false l = l

  send_file_lem :
      (fuel i : ℕ)
      → i ≤ length file
      → length file < i + fuel
      → (ps : List (List ℕ)) × (send_file compress amount fuel compress_type file i ≡ some ps)
        × Receives decompress ps (cuts amount fuel file i)
        × All (IsSlice file) (cuts amount fuel file i)
        × ((k : ℕ) → i ≤ k → k < length file → Covers k (cuts amount fuel file i))
  unfolding send_file cuts
  send_file_lem zero i h lt = absurd (omega arith)
  send_file_lem (suc fuel) i h lt =
      let n = amount i in
      let (payload, e, r, s) = one_block i h in
      let size = (IsSlice-take file i n ((reads i).1 h)).0 in
      let moves = (reads i).2 in
      elim (Bool-cases (n == 0)) [
        | inl z ↦
            rw (e, z)
              (payload ∷ [], refl, (r, tt), (s, tt), λ k p q. absurd (ground (arith, moves)))
        | inr z ↦ elim (Bool-cases (ltb (i + n) (length file))) [
          | inr l ↦
              rw (e, z, l)
                (payload ∷ [], refl, (r, tt), (s, tt), λ k p q. inl (p, ground (arith, size)))
          | inl l ↦
              let (ps, f, rs, ss, cs) = send_file_lem fuel (i + n) (ground arith) (ground arith) in
              rw (e, z, l, f)
                (
                  payload ∷ ps,
                  refl,
                  (r, rs),
                  (s, ss),
                  λ k p q. elim (Bool-cases (ltb k (i + n))) [
                    | inl w ↦ inl (p, ground (arith, size))
                    | inr w ↦ inr (cs k (ground arith) q)
                  ],
                )
        ]
      ]

  finishes-cuts :
      (fuel i : ℕ)
      → i ≤ length file
      → length file < i + fuel
      → LastOnly (finishes (length file) i (cuts amount fuel file i))
  unfolding finishes cuts on_write
  finishes-cuts zero i h lt = absurd (omega arith)
  finishes-cuts (suc fuel) i h lt =
      let n = amount i in
      let size = (IsSlice-take file i n ((reads i).1 h)).0 in
      let moves = (reads i).2 in
      elim (Bool-cases (n == 0)) [
        | inl z ↦ rw (z, size) (ground arith)
        | inr z ↦ elim (Bool-cases (ltb (i + n) (length file))) [
          | inr l ↦ rw (z, l, size) (ground arith)
          | inl l ↦
              let going : (on_write (length file) i (length (take n (drop i file)))).1 ≡ false =
                ground (arith, size) in
              rw (going, z, l, size)
                (LastOnly-later (finishes (length file) (i + n) (cuts amount fuel file (i + n)))
                  (finishes-cuts fuel (i + n) (ground arith) (ground arith)))
        ]
      ]

-- A file of less than 2 ^ 64 bytes, reads that give some bytes of what is left, an LZ4 that keeps its
-- promise, and writes `ws` of the blocks that the reads cut the file into, in any order and also repeatedly,
-- with none left out. The sender comes to an end within one turn more than there are bytes, the receiver
-- takes each payload as its block, and the file written is the sender's, byte for byte. Written in the order
-- in which they are sent, the last block finishes the file and no earlier one does.
pub send_file-write_all :
    (compress : List ℕ → Option (List ℕ)) (decompress : List ℕ → ℕ → Option (List ℕ))
    (amount : ℕ → ℕ) (stable : Bool) (compress_type : ℕ) (file : List ℕ) (ws : List Block)
    → ((block : List ℕ) → Unpacks compress decompress block)
    → compress_type < 2 ^ 8
    → length file < 2 ^ 64
    → Reads stable (length file) amount
    → All (λ b. Among b (cuts amount (suc (length file)) file 0)) ws
    → All (λ b. Among b ws) (cuts amount (suc (length file)) file 0)
    → (ps : List (List ℕ)) × (send_file compress amount (suc (length file)) compress_type file 0
        ≡ some ps)
      × Receives decompress ps (cuts amount (suc (length file)) file 0)
      × ((i : ℕ) → write_all ws i ≡ get_elem? file i)
      × LastOnly (finishes (length file) 0 (cuts amount (suc (length file)) file 0))
send_file-write_all compress decompress amount stable compress_type file ws u t l r a d =
    let (ps, e, rs, ss, cs) =
      send_file_lem compress decompress amount stable compress_type file u t l r (suc (length file))
        0 (omega arith) (omega arith) in
    (
      ps,
      e,
      rs,
      λ i.
          write_all-file file (cuts amount (suc (length file)) file 0) ws i ss
            (λ k lt. cs k (omega arith) lt) a d,
      finishes-cuts compress decompress amount stable compress_type file u t l r (suc (length file))
          0 (omega arith) (omega arith),
    )
