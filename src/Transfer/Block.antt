-- ===== src/Transfer/Block.antt =====
-- transfer.cpp: `SendIOPayload` and `RecvIOPayload`, one block of a file on its way.
--
-- LZ4 is a parameter: `compress` gives the bytes, or none where LZ4_compress_default returns 0 or less, and
-- `decompress` gives the bytes that LZ4_decompress_safe writes within a capacity, or none where it returns a
-- negative number. It is handed `compressSize` bytes, or what there is of them. Allocation succeeds. The 64
-- bytes before the data are zeros, as `CircleBuffer::Malloc` and `new uint8_t[n]()` leave them.
pub mod RoundTrip
use supertools_public.Common.{
  ℕ, zero, suc, ◌+◌, ◌-◌, ◌*◌, ◌^◌, ◌≡◌, ◌≤◌, ◌<◌, Bool, true, false, not, ◌&&◌, ◌||◌, Option, none,
  some, List, [], ◌∷◌, ◌++◌, ltb, ◌==◌, if◌then◌else◌, length, take, drop, replicate,
}
use supertools_public.Serial.Message.{serialize_to_string}
use supertools_public.Serial.Structs.{TransferPayload, payload_message, payload_of, parsed}

-- `payloadPrefixReserve`.
abbrev pub payload_prefix_reserve : ℕ
payload_prefix_reserve = 64

abbrev pub max_size_iobuf : ℕ
max_size_iobuf = 511 * 1024

abbrev pub compress_none : ℕ
compress_none = 0

abbrev pub compress_lz4 : ℕ
compress_lz4 = 1

-- A block: where it stands in the file, and its bytes.
pub record Block : Type 0 where
  pub index : ℕ
  pub bytes : List ℕ

abbrev pub head_of : ℕ → ℕ → ℕ → ℕ → TransferPayload
head_of index compress_type compress_size uncompress_size = record {
  index = index;
  compress_type = compress_type;
  compress_size = compress_size;
  uncompress_size = uncompress_size;
}

-- The head with its 0, in the 64 bytes before the block; none if they do not hold it.
unfoldable pub prefix : TransferPayload → Option (List ℕ)
prefix p =
    let head = serialize_to_string (payload_message p) in
    if ltb payload_prefix_reserve (length head + 1)
    then none
    else some (head ++ replicate (payload_prefix_reserve - length head) 0)

abbrev pub framed : List ℕ → Option (List ℕ) → Option (List ℕ)
framed body none = none
framed body (some head) = some (head ++ body)

-- Behind LZ4: without a result the block goes as it is.
abbrev pub packed : ℕ → List ℕ → Option (List ℕ) → Option (List ℕ)
packed index block none =
    framed block (prefix (head_of index compress_none (length block) (length block)))
packed index block (some small) =
    framed small (prefix (head_of index compress_lz4 (length small) (length block)))

-- What `SendIOPayload` hands to `SendToAnother`.
unfoldable pub send_io_payload : (List ℕ → Option (List ℕ)) → ℕ → ℕ → List ℕ → Option (List ℕ)
send_io_payload compress compress_type index block =
    if length block == 0
    then framed [] (prefix (head_of index compress_type 0 0))
    else if compress_type == compress_lz4
    then packed index block (compress block)
    else framed block (prefix (head_of index compress_type (length block) (length block)))

-- `TransferPayload pld` after `ZeroStruct`.
abbrev pub zero_payload : TransferPayload
zero_payload = head_of 0 0 0 0

abbrev pub sized : Option (List ℕ) → Option (ℕ × List ℕ)
sized none = none
sized (some bytes) = some (length bytes, bytes)

-- `clearSize` and the bytes at `clearBuf`; none where `clearSize` is negative.
unfoldable pub clear_data :
    (List ℕ → ℕ → Option (List ℕ)) → TransferPayload → List ℕ → Option (ℕ × List ℕ)
clear_data decompress p body =
    if p.compress_size == 0
    then some (0, [])
    else if p.compress_type == compress_lz4
    then sized (decompress (take p.compress_size body) p.uncompress_size)
    else some (p.compress_size, take p.compress_size body)

-- The tests behind the decompression, then `SimpleFileIO`. A negative `clearSize` is no `uncompressSize`.
abbrev pub checked_block : TransferPayload → ℕ → Option (ℕ × List ℕ) → Option Block
checked_block p size none = none
checked_block p size (some (clear_size, bytes)) =
    if not (clear_size == p.uncompress_size)
    then none
    else if p.compress_type == compress_none && ltb (size - payload_prefix_reserve) clear_size
    then none
    else some (record { index = p.index; bytes = bytes })

abbrev pub received_head : List ℕ → TransferPayload
received_head payload =
    payload_of (parsed (payload_message zero_payload) (take payload_prefix_reserve payload))

-- What `RecvIOPayload` hands to `SimpleFileIO`, if it comes so far.
unfoldable pub recv_io_payload : (List ℕ → ℕ → Option (List ℕ)) → List ℕ → Option Block
recv_io_payload decompress payload =
    let p = received_head payload in
    if ltb (length payload) payload_prefix_reserve
    then none
    else if ltb (length payload) p.compress_size || ltb max_size_iobuf p.uncompress_size
    then none
    else checked_block p (length payload)
        (clear_data decompress p (drop payload_prefix_reserve payload))
