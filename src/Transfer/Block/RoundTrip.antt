-- ===== src/Transfer/Block/RoundTrip.antt =====
-- transfer.cpp: `RecvIOPayload` on what `SendIOPayload` hands over.
use supertools_public.Common.{
  ℕ, ◌+◌, ◌-◌, ◌^◌, ◌≤◌, ◌<◌, ◌≡◌, refl, sym, ap, ◌∙◌, ◌≢◌, inl, inr, false, Option, none, some,
  List, [], ◌∷◌, ◌++◌, arith, ◌==◌, ==_ne, Bool-cases, length, replicate, length-append,
  length-replicate, take_prefix, drop_prefix, take_all,
}
use supertools_public.Serial.Varint.{write_varint32, write_varint64}
use supertools_public.Serial.Varint.RoundTrip.{write_varint32_shape, write_varint64_shape}
use supertools_public.Serial.Message.{
  serialize_to_string, Cell, u8, u32, u64, make_tag_wire_type, wire_type, serialize, write_payload,
  write_message,
}
use supertools_public.Serial.Message.Padded.{parse_from_string-padded}
use supertools_public.Serial.Structs.{TransferPayload, payload_message, payload_of, parsed, field}
use supertools_public.Serial.Structs.RoundTrip.{IsPayload}
use supertools_public.Transfer.Block.{
  payload_prefix_reserve, max_size_iobuf, compress_none, compress_lz4, Block, head_of, prefix,
  framed, packed, send_io_payload, zero_payload, clear_data, checked_block, received_head,
  recv_io_payload,
}

field32_size :
    (t v : ℕ) (c : Cell)
    → t < 16
    → v < 2 ^ 32
    → wire_type c ≡ 0
    → write_payload c ≡ write_varint32 v
    → length (serialize (field t c)) ≤ 10
unfolding serialize
field32_size t v c h k w e =
    rw (w, e)
      (omega (
        arith,
        length-append (write_varint32 (make_tag_wire_type t 0)) (write_varint32 v),
        (write_varint32_shape (make_tag_wire_type t 0) (omega arith)).1,
        (write_varint32_shape v k).1,
      ))

field64_size : (t v : ℕ) → t < 16 → v < 2 ^ 64 → length (serialize (field t (u64 v))) ≤ 15
unfolding serialize write_payload
field64_size t v h k = omega (
  arith,
  length-append (write_varint32 (make_tag_wire_type t 0)) (write_varint64 v),
  (write_varint32_shape (make_tag_wire_type t 0) (omega arith)).1,
  (write_varint64_shape v k).1,
)

-- A serialized head leaves room in the 64 bytes.
head_size :
    (p : TransferPayload) → IsPayload p → length (serialize_to_string (payload_message p)) ≤ 45
unfolding write_payload write_message
head_size p h =
    let a = serialize (field 1 (u64 p.index)) in
    let b = serialize (field 2 (u8 p.compress_type)) in
    let c = serialize (field 3 (u32 p.compress_size)) in
    let d = serialize (field 4 (u32 p.uncompress_size)) in
    omega (
      arith,
      length-append a (b ++ (c ++ (d ++ []))),
      length-append b (c ++ (d ++ [])),
      length-append c (d ++ []),
      length-append d [],
      field64_size 1 p.index (omega arith) h.0,
      field32_size 2 p.compress_type (u8 p.compress_type) (omega arith) (omega (arith, h)) refl
          refl,
      field32_size 3 p.compress_size (u32 p.compress_size) (omega arith) (omega (arith, h)) refl
          refl,
      field32_size 4 p.uncompress_size (u32 p.uncompress_size) (omega arith) (omega (arith, h)) refl
          refl,
    )

prefix_lem :
    (p : TransferPayload)
    → IsPayload p
    → prefix p
      ≡ some (
          serialize_to_string (payload_message p)
          ++ replicate
              (payload_prefix_reserve - length (serialize_to_string (payload_message p)))
              0)
unfolding prefix
prefix_lem p h = let s = head_size p h in ground arith

parsed-padded :
    (p : TransferPayload) (k : ℕ)
    → IsPayload p
    → parsed
        (payload_message zero_payload)
        (serialize_to_string (payload_message p) ++ replicate k 0)
      ≡ payload_message p
unfolding parsed
parsed-padded p k h = rw (
  parse_from_string-padded k (payload_message zero_payload) (payload_message p) (omega arith)
      (omega arith) (omega arith),
  parsed,
)

head_back :
    (p : TransferPayload) (body : List ℕ) (head : List ℕ)
    → IsPayload p
    → prefix p ≡ some head
    → (length head ≡ 64) × (received_head (head ++ body) ≡ p)
unfolding payload_of
head_back p body head h e =
    let s = serialize_to_string (payload_message p) in
    let zs : List ℕ = replicate (64 - length s) 0 in
    let same : s ++ zs ≡ head = ap get (sym (prefix_lem p h) ∙ e) in
    let size : length head ≡ 64 =
      ap length (sym same)
      ∙ omega
          (arith, length-append s zs, length-replicate {A = ℕ} (64 - length s) 0, head_size p h) in
    (
      size,
      ap (λ (z : List ℕ). payload_of (parsed (payload_message zero_payload) z))
            (take_prefix 64 head body (sym size) ∙ sym same)
          ∙ ap payload_of (parsed-padded p (64 - length s) h),
    )
  where
    get : Option (List ℕ) → List ℕ
    get none = []
    get (some x) = x

-- What LZ4 promises of the block: what it packs is not empty and not longer, and comes back.
abbrev pub Unpacks : (List ℕ → Option (List ℕ)) → (List ℕ → ℕ → Option (List ℕ)) → List ℕ → Type 0
Unpacks compress decompress block =
    (small : List ℕ)
    → compress block ≡ some small
    → (0 < length small)
      × (length small ≤ length block)
      × (decompress small (length block) ≡ some block)

-- A block that `SendIOPayload` can be handed: a place in the file and no more bytes than an `IOBUF` has.
abbrev pub IsBlock : Block → Type 0
IsBlock b = (b.index < 2 ^ 64) × (length b.bytes ≤ max_size_iobuf)

recv_framed :
    (decompress : List ℕ → ℕ → Option (List ℕ)) (p : TransferPayload) (body payload : List ℕ)
    (b : Block)
    → IsPayload p
    → framed body (prefix p) ≡ some payload
    → p.compress_size ≡ length body
    → p.uncompress_size ≤ max_size_iobuf
    → checked_block p (64 + length body) (clear_data decompress p body) ≡ some b
    → recv_io_payload decompress payload ≡ some b
unfolding recv_io_payload
recv_framed decompress p body payload b h e c u k =
    let s = serialize_to_string (payload_message p) in
    let head : List ℕ = s ++ replicate (64 - length s) 0 in
    let (size, back) = head_back p body head h (prefix_lem p h) in
    let whole : payload ≡ head ++ body = ap get (sym e ∙ ap (framed body) (prefix_lem p h)) in
    rw (whole, back, drop_prefix 64 head body (sym size))
      (let long : length (head ++ body) ≡ 64 + length body =
          length-append head body ∙ omega (arith, size) in
        rw (long, k) (ground (arith)))
  where
    get : Option (List ℕ) → List ℕ
    get none = []
    get (some x) = x

checked_plain :
    (decompress : List ℕ → ℕ → Option (List ℕ)) (index compress_type : ℕ) (block : List ℕ)
    → (0 < length block → compress_type ≢ compress_lz4)
    → let p = head_of index compress_type (length block) (length block) in
      checked_block p (64 + length block) (clear_data decompress p block)
      ≡ some (record { index = index; bytes = block })
unfolding clear_data
checked_plain decompress index compress_type [] ne = ground arith
checked_plain decompress index compress_type (x ∷ xs) ne =
    rw
      (
        ==_ne compress_type compress_lz4 (ne (omega arith)),
        take_all (length (x ∷ xs)) (x ∷ xs) (omega arith),
      )
      (ground arith)

checked_packed :
    (decompress : List ℕ → ℕ → Option (List ℕ)) (index : ℕ) (block small : List ℕ)
    → 0 < length small
    → decompress small (length block) ≡ some block
    → let p = head_of index compress_lz4 (length small) (length block) in
      checked_block p (64 + length small) (clear_data decompress p small)
      ≡ some (record { index = index; bytes = block })
unfolding clear_data
checked_packed decompress index block small h e =
    rw (take_all (length small) small (omega arith), e) (ground arith)

-- What is sent for a head that fits.
framed_lem :
    (p : TransferPayload) (body : List ℕ)
    → IsPayload p
    → (payload : List ℕ) × (framed body (prefix p) ≡ some payload)
framed_lem p body h = (_, ap (framed body) (prefix_lem p h))

send_plain :
    (decompress : List ℕ → ℕ → Option (List ℕ)) (compress_type : ℕ) (b : Block)
    → compress_type < 2 ^ 8
    → IsBlock b
    → (0 < length b.bytes → compress_type ≢ compress_lz4)
    → (payload : List ℕ) × (framed b.bytes
          (prefix (head_of b.index compress_type (length b.bytes) (length b.bytes)))
        ≡ some payload)
      × (recv_io_payload decompress payload ≡ some b)
send_plain decompress compress_type b t h ne =
    let p = head_of b.index compress_type (length b.bytes) (length b.bytes) in
    let fits : IsPayload p = (h.0, t, omega (arith, h), omega (arith, h)) in
    let (payload, e) = framed_lem p b.bytes fits in
    (
      payload,
      e,
      recv_framed decompress p b.bytes payload b fits e refl h.1
          (checked_plain decompress b.index compress_type b.bytes ne),
    )

send_packed :
    (compress : List ℕ → Option (List ℕ)) (decompress : List ℕ → ℕ → Option (List ℕ)) (b : Block)
    (o : Option (List ℕ))
    → IsBlock b
    → Unpacks compress decompress b.bytes
    → compress b.bytes ≡ o
    → (payload : List ℕ) × (packed b.index b.bytes o ≡ some payload)
      × (recv_io_payload decompress payload ≡ some b)
send_packed compress decompress b none h u e =
    send_plain decompress compress_none b (omega arith) h (λ l. ground arith)
send_packed compress decompress b (some small) h u e =
    let (pos, short, back) = u small e in
    let p = head_of b.index compress_lz4 (length small) (length b.bytes) in
    let fits : IsPayload p = (h.0, omega arith, omega (arith, h, short), omega (arith, h)) in
    let (payload, f) = framed_lem p small fits in
    (
      payload,
      f,
      recv_framed decompress p small payload b fits f refl h.1
          (checked_packed decompress b.index b.bytes small pos back),
    )

-- A block of no more than 511 KiB, with any type of compression, and an LZ4 that keeps its promise on it:
-- `SendIOPayload` hands over a payload, and `RecvIOPayload` makes of that payload the same bytes to be
-- written at the same place in the file, whether LZ4 packs the block or not.
pub recv_io_payload-send_io_payload :
    (compress : List ℕ → Option (List ℕ)) (decompress : List ℕ → ℕ → Option (List ℕ))
    (compress_type index : ℕ) (block : List ℕ)
    → Unpacks compress decompress block
    → compress_type < 2 ^ 8
    → index < 2 ^ 64
    → length block ≤ max_size_iobuf
    → (payload : List ℕ) × (send_io_payload compress compress_type index block ≡ some payload)
      × (recv_io_payload decompress payload ≡ some (record { index = index; bytes = block }))
unfolding send_io_payload
recv_io_payload-send_io_payload compress decompress compress_type index [] u t h k =
    send_plain decompress compress_type (record { index = index; bytes = [] }) t (h, k)
      (λ l. absurd (omega arith))
recv_io_payload-send_io_payload compress decompress compress_type index (x ∷ xs) u t h k =
    let b : Block = record { index = index; bytes = x ∷ xs } in
    let some_bytes : (length (x ∷ xs) == 0) ≡ false = ground arith in
    elim (Bool-cases (compress_type == compress_lz4)) [
      | inl l ↦
          rw (some_bytes, l) (send_packed compress decompress b (compress (x ∷ xs)) (h, k) u refl)
      | inr l ↦
          rw (some_bytes, l) (send_plain decompress compress_type b t (h, k) (λ q e. ground arith))
    ]
