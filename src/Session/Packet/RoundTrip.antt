-- ===== src/Session/Packet/RoundTrip.antt =====
-- session.cpp: `OnRead` on the packets of `Send`.
use native.Mathlib.Nat.{mod-eq_of_lt}
use supertools_public.Common.{
  ℕ, ◌+◌, ◌%◌, ◌^◌, ◌≤◌, ◌<◌, ◌≡◌, refl, ap, Bool, List, [], ◌∷◌, ◌++◌, append_assoc, append-nil,
  arith, if◌then◌else◌, length, length-append, drop, take_prefix, drop_prefix,
}
use supertools_public.Common.Bytes.{read_be16, read_be32}
use supertools_public.Serial.Varint.{write_varint32}
use supertools_public.Serial.Varint.RoundTrip.{write_varint32_shape}
use supertools_public.Serial.Message.{
  serialize, write_payload, write_message, make_tag_wire_type, serialize_to_string,
}
use supertools_public.Serial.Structs.{PayloadProtect, protect_message}
use supertools_public.Serial.Structs.RoundTrip.{IsProtect, protect_roundtrip}
use supertools_public.Session.Packet.{
  hdc_buf_max_bytes, check_sum_from, protect_buf, payload_head, packet, blank_protect, taken,
  bad_packet, deliver, decrypt_payload, read_result, on_read,
}

check_sum_from-lt : (sum : ℕ) (bs : List ℕ) → sum < 256 → check_sum_from sum bs < 256
unfolding check_sum_from
check_sum_from-lt sum [] h = h
check_sum_from-lt sum (b ∷ bs) h = check_sum_from-lt ((sum + b) % 256) bs (omega arith)

protect_buf-IsProtect :
    (io : Bool) (cid cmd : ℕ) (payload : List ℕ)
    → cid < 2 ^ 32
    → cmd < 2 ^ 16
    → IsProtect (protect_buf io cid cmd payload)
unfolding protect_buf
protect_buf-IsProtect io cid cmd payload h k = ground (arith, check_sum_from-lt 0 payload)

serialize_small :
    (t v : ℕ)
    → t < 2 ^ 29
    → v < 2 ^ 32
    → (length (write_varint32 (make_tag_wire_type t 0) ++ write_varint32 v) ≤ 10)
      × (1 ≤ length (write_varint32 (make_tag_wire_type t 0) ++ write_varint32 v))
serialize_small t v h k =
    let key : ℕ = make_tag_wire_type t 0 in
    let a = write_varint32_shape key (omega arith) in
    let b = write_varint32_shape v k in
    let l = length-append (write_varint32 key) (write_varint32 v) in
    (omega (arith, a.0, a.1, b.0, b.1, l), omega (arith, a.0, a.1, b.0, b.1, l))

length_four :
    (a b c d : List ℕ)
    → length (a ++ (b ++ (c ++ (d ++ [])))) ≡ length a + length b + length c + length d
length_four a b c d = omega (
  arith,
  length-append a (b ++ (c ++ (d ++ []))),
  length-append b (c ++ (d ++ [])),
  length-append c (d ++ []),
  ap length (append-nil d),
)

-- The protect buffer takes at most 40 bytes, so its size fits the head.
protect_length :
    (p : PayloadProtect)
    → IsProtect p
    → (1 ≤ length (serialize_to_string (protect_message p)))
      × (length (serialize_to_string (protect_message p)) ≤ 40)
unfolding write_message serialize write_payload
protect_length p h =
    let a = serialize_small 1 p.channel_id (omega arith) h.0 in
    let b = serialize_small 2 p.command_flag (omega arith) h.1 in
    let c = serialize_small 3 p.check_sum (omega arith) (omega arith) in
    let d = serialize_small 4 p.v_code (omega arith) (omega arith) in
    let l =
      length_four (write_varint32 8 ++ write_varint32 p.channel_id)
        (write_varint32 16 ++ write_varint32 p.command_flag)
        (write_varint32 24 ++ write_varint32 p.check_sum)
        (write_varint32 32 ++ write_varint32 p.v_code) in
    (omega (arith, a, b, c, d, l), omega (arith, a, b, c, d, l))

be_roundtrip :
    (hs ds : ℕ) (body : List ℕ)
    → hs < 2 ^ 16
    → ds < 2 ^ 32
    → (read_be16 (drop 5 (payload_head hs ds ++ body)) ≡ hs)
      × (read_be32 (drop 7 (payload_head hs ds ++ body)) ≡ ds)
unfolding payload_head
be_roundtrip hs ds body h k = (omega arith, omega arith)

module _ {S : Type 0} (io : Bool) (fetch : S → ℕ → ℕ → List ℕ → S × Bool) where
  on_read_head :
      (s : S) (hs ds : ℕ) (body : List ℕ)
      → hs < 2 ^ 16
      → 0 < ds + hs
      → ds + hs ≤ hdc_buf_max_bytes
      → ds + hs ≤ length body
      → on_read io fetch s (payload_head hs ds ++ body)
        ≡ read_result io fetch (11 + (ds + hs)) (decrypt_payload io fetch s hs ds body)
  unfolding on_read payload_head
  on_read_head s hs ds body h pos fits all = ground (arith, be_roundtrip hs ds body h)

  decrypt_payload_packed :
      (s : S) (cid cmd : ℕ) (payload rest : List ℕ)
      → cid < 2 ^ 32
      → cmd < 2 ^ 16
      → let b = serialize_to_string (protect_message (protect_buf io cid cmd payload)) in
        decrypt_payload io fetch s (length b) (length payload) (b ++ (payload ++ rest))
        ≡ deliver io fetch s (protect_buf io cid cmd payload) payload
  unfolding decrypt_payload
  decrypt_payload_packed s cid cmd payload rest h k =
      let p = protect_buf io cid cmd payload in
      let b = serialize_to_string (protect_message p) in
      rw
        (
          take_prefix (length b) b (payload ++ rest) refl,
          drop_prefix (length b) b (payload ++ rest) refl,
          take_prefix (length payload) payload rest refl,
          protect_roundtrip blank_protect p (protect_buf-IsProtect io cid cmd payload h k),
        )
        (unfold protect_buf in ground (arith))

  -- `OnRead` on a packet that `Send` built, whatever bytes follow it, calls `FetchCommand` with the same
  -- channel, command and data, and takes exactly the packet; if `FetchCommand` fails, so does `OnRead`.
  -- The data is at most `INT_MAX - 40` bytes.
  pub on_read-packet :
      (s : S) (cid cmd : ℕ) (payload rest : List ℕ)
      → cid < 2 ^ 32
      → cmd < 2 ^ 16
      → length payload + 40 ≤ hdc_buf_max_bytes
      → on_read io fetch s (packet io cid cmd payload ++ rest) ≡ (
          let (s', done) = fetch s cid cmd payload in
          (if done then taken (length (packet io cid cmd payload)) else bad_packet, s'))
  unfolding packet deliver protect_buf payload_head
  on_read-packet s cid cmd payload rest h k fits =
      let p = protect_buf io cid cmd payload in
      let b = serialize_to_string (protect_message p) in
      ground (
        arith,
        protect_length p (protect_buf-IsProtect io cid cmd payload h k),
        on_read_head s (length b) (length payload) (b ++ (payload ++ rest)),
        append_assoc b payload rest,
        length-append b (payload ++ rest),
        length-append b payload,
        length-append payload rest,
        decrypt_payload_packed s cid cmd payload rest h k,
        mod-eq_of_lt {n = length b} {m = 2 ^ 16},
      )
