-- ===== src/Session/Packet.antt =====
-- session.cpp: the packet that `HdcSessionBase::Send` builds, and `DecryptPayload`, `OnRead`.
--
-- A packet is a head of 11 bytes (session.h, `PayloadHead`, packed), a serialized `PayloadProtect` and
-- the data. `FetchCommand` is virtual: it is a parameter that takes and returns the receiver's state.
-- `ENABLE_IO_CHECKSUM` is the parameter `io_checksum`; define.h sets it to false.
pub mod RoundTrip
use supertools_public.Common.{
  ℕ, zero, suc, ◌+◌, ◌-◌, ◌*◌, ◌/◌, ◌%◌, ◌^◌, Bool, true, false, not, ◌&&◌, List, [], ◌∷◌, ◌++◌,
  ltb, ◌==◌, if◌then◌else◌, length, take, drop, get_or, str_eq, codes,
}
use supertools_public.Common.Bytes.{be16, be32, read_be16, read_be32}
use supertools_public.Serial.Message.{serialize_to_string}
use supertools_public.Serial.Structs.{PayloadProtect, protect_message, protect_of, parsed}

-- `sizeof(PayloadHead)`.
abbrev pub head_len : ℕ
head_len = 11

-- "HW".
abbrev pub packet_flag : List ℕ
packet_flag = codes "HW"

abbrev pub ver_protocol : ℕ
ver_protocol = 1

abbrev pub static_vcode : ℕ
static_vcode = 9

-- `INT_MAX`.
abbrev pub hdc_buf_max_bytes : ℕ
hdc_buf_max_bytes = 2 ^ 31 - 1

-- `Base::CalcCheckSum`: a sum of bytes in a `uint8_t`.
unfoldable pub check_sum_from : ℕ → List ℕ → ℕ
check_sum_from sum [] = sum
check_sum_from sum (b ∷ bs) = check_sum_from ((sum + b) % 256) bs

abbrev pub calc_check_sum : List ℕ → ℕ
calc_check_sum = check_sum_from 0

-- The `PayloadProtect` that `Send` fills in.
unfoldable pub protect_buf : Bool → ℕ → ℕ → List ℕ → PayloadProtect
protect_buf io_checksum channel_id command_flag payload = record {
  channel_id = channel_id;
  command_flag = command_flag;
  check_sum = if io_checksum && ltb 0 (length payload) then calc_check_sum payload else 0;
  v_code = static_vcode;
}

-- `payloadHead`, for a protect buffer and data of these sizes.
unfoldable pub payload_head : ℕ → ℕ → List ℕ
payload_head head_size data_size =
    packet_flag ++ (0 ∷ 0 ∷ ver_protocol ∷ []) ++ be16 (head_size % 2 ^ 16) ++ be32 data_size

-- What `Send` copies into `finayBuf`.
unfoldable pub packet : Bool → ℕ → ℕ → List ℕ → List ℕ
unfolding protect_buf payload_head
packet io_checksum channel_id command_flag payload =
    let s =
      serialize_to_string
        (protect_message (protect_buf io_checksum channel_id command_flag payload)) in
    payload_head (length s) (length payload) ++ s ++ payload

-- `PayloadProtect protectBuf = {}`.
abbrev pub blank_protect : PayloadProtect
blank_protect = record { channel_id = 0; command_flag = 0; check_sum = 0; v_code = 0 }

pub data RetCode : Type 0 where
  success err_buf_check err_generic : RetCode

-- What `OnRead` returns: a number of bytes, 0, or `ERR_BUF_CHECK`.
pub data Taken : Type 0 where
  taken : ℕ → Taken
  not_enough bad_packet : Taken

module _ {S : Type 0} (io_checksum : Bool) (fetch_command : S → ℕ → ℕ → List ℕ → S × Bool) where
  -- `FetchCommand` takes the command as a `uint16_t`.
  unfoldable pub deliver : S → PayloadProtect → List ℕ → RetCode × S
  deliver s p payload =
      let (s', done) = fetch_command s p.channel_id (p.command_flag % 2 ^ 16) payload in
      (if done then success else err_generic, s')

  -- `DecryptPayload`: `enc_buf` starts behind the head.
  unfoldable pub decrypt_payload : S → ℕ → ℕ → List ℕ → RetCode × S
  unfolding deliver
  decrypt_payload s head_size data_size enc_buf =
      let p = protect_of (parsed (protect_message blank_protect) (take head_size enc_buf)) in
      let payload = take data_size (drop head_size enc_buf) in
      if not (p.v_code == static_vcode)
      then (err_buf_check, s)
      else if io_checksum && not (p.check_sum == 0) && not (p.check_sum == calc_check_sum payload)
      then (err_buf_check, s)
      else deliver s p payload

  abbrev pub read_result : ℕ → RetCode × S → Taken × S
  read_result n (success, s) = (taken n, s)
  read_result n (err_buf_check, s) = (bad_packet, s)
  read_result n (err_generic, s) = (bad_packet, s)

  -- `OnRead`: `buf` holds the `availTailIndex` bytes from `bufPtr` on; the caller has seen to it that they
  -- are more than a head.
  unfoldable pub on_read : S → List ℕ → Taken × S
  unfolding decrypt_payload
  on_read s buf =
      let head_size = read_be16 (drop 5 buf) in
      let data_size = read_be32 (drop 7 buf) in
      let size = data_size + head_size in
      if not (str_eq (take 2 buf) packet_flag)
      then (bad_packet, s)
      else if size == 0
      then (bad_packet, s)
      else if ltb hdc_buf_max_bytes size
      then (bad_packet, s)
      else if ltb (length buf) (head_len + size)
      then (not_enough, s)
      else read_result (head_len + size) (decrypt_payload s head_size data_size (drop head_len buf))
