-- ===== src/Uart/Head.antt =====
-- uart.h: `UartHead` and its check sums; uart.cpp: `ValidateUartPacket`.
--
-- The head stands in memory in the machine's order, little-endian. What `ValidateUartPacket` makes happen
-- elsewhere is a list of actions.
pub mod Link
use supertools_public.Common.{
  ℕ, ◌+◌, ◌/◌, ◌%◌, ◌*◌, ◌^◌, Bool, true, false, not, ◌&&◌, ◌||◌, List, [], ◌∷◌, ◌++◌, ltb, leb,
  ◌==◌, if◌then◌else◌, length, take, drop, get_or, codes, str_eq,
}
use supertools_public.Common.Bytes.{le32, read_le32}

-- `sizeof(UartHead)`, and the part before `headCheckSum`.
abbrev pub uart_head_size : ℕ
uart_head_size = 24

abbrev pub head_check_sum_len : ℕ
head_check_sum_len = 20

abbrev pub max_uart_size_iobuf : ℕ
max_uart_size_iobuf = 4096

abbrev pub uart_flag : List ℕ
uart_flag = codes "HW"

pub record UartHead : Type 0 where
  pub option : ℕ
  pub session_id : ℕ
  pub data_size : ℕ
  pub package_index : ℕ
  pub data_check_sum : ℕ
  pub head_check_sum : ℕ

-- `std::accumulate` of bytes from `0u`.
abbrev pub total : List ℕ → ℕ
total [] = 0
total (b ∷ bs) = b + total bs

abbrev pub accumulate : List ℕ → ℕ
accumulate bs = total bs % 2 ^ 32

abbrev pub le16 : ℕ → List ℕ
le16 n = n % 256 ∷ n / 256 % 256 ∷ []

unfoldable pub head_front : UartHead → List ℕ
head_front h =
    uart_flag
    ++ le16 h.option
    ++ le32 h.session_id
    ++ le32 h.data_size
    ++ le32 h.package_index
    ++ le32 h.data_check_sum

-- The head and the data behind it.
unfoldable pub whole_package : UartHead → List ℕ → List ℕ
unfolding head_front
whole_package h content = head_front h ++ le32 h.head_check_sum ++ content

unfoldable pub update_check_sum : UartHead → List ℕ → UartHead
unfolding head_front
update_check_sum h content =
    let h' = record h {
      data_check_sum =
          if h.data_size == 0 then h.data_check_sum else accumulate (take h.data_size content);
    } in
    record h' { head_check_sum = accumulate (head_front h') }

abbrev pub bit : ℕ → ℕ → Bool
bit mask option = option / mask % 2 == 1

abbrev pub pkg_option_tail : ℕ
pkg_option_tail = 1

abbrev pub pkg_option_reset : ℕ
pkg_option_reset = 2

abbrev pub pkg_option_ack : ℕ
pkg_option_ack = 4

abbrev pub pkg_option_nak : ℕ
pkg_option_nak = 8

abbrev pub pkg_option_free : ℕ
pkg_option_free = 16

-- `UartHead` laid over the front of some bytes.
unfoldable pub head_of : List ℕ → UartHead
head_of bytes = record {
  option = get_or bytes 2 0 + get_or bytes 3 0 * 256;
  session_id = read_le32 (drop 4 bytes);
  data_size = read_le32 (drop 8 bytes);
  package_index = read_le32 (drop 12 bytes);
  data_check_sum = read_le32 (drop 16 bytes);
  head_check_sum = read_le32 (drop 20 bytes);
}

abbrev pub is_response_package : UartHead → Bool
is_response_package h = bit pkg_option_ack h.option || bit pkg_option_nak h.option

-- `ValidateHead`, given the bytes before the check sum.
abbrev pub validate_head : UartHead → List ℕ → Bool
validate_head h front = h.head_check_sum == accumulate front

-- `ValidateData`, given the bytes behind the head.
abbrev pub validate_data : UartHead → List ℕ → Bool
validate_data h behind =
    h.data_size == 0 || h.data_check_sum == accumulate (take h.data_size behind)

pub data Action : Type 0 where
  reset_old_session restart_session : ℕ → Action
  process_response : UartHead → Action
  -- `ResponseUartTrans` with an acknowledgement, of a session and an index.
  acknowledge : ℕ → ℕ → Action

pub data Verdict : Type 0 where
  err_buf_check err_buf_overflow : Verdict
  err_io_soft_reset : Verdict
  -- The session, the index and the size of the package.
  ret_success : ℕ → ℕ → ℕ → Verdict

-- The end of `ValidateUartPacket`: the data, if they are all among the `size` bytes.
unfoldable pub validate_content : UartHead → ℕ → List ℕ → List Action → Verdict × List Action
validate_content h size behind done =
    let packet_size = h.data_size + uart_head_size in
    let ok = ret_success h.session_id h.package_index packet_size in
    if not (leb packet_size size)
    then (ok, done)
    else if not (validate_data h behind)
    then (err_buf_check, done)
    else if is_response_package h
    then (ok, done ++ (process_response h ∷ []))
    else (ok, done ++ (acknowledge h.session_id h.package_index ∷ []))

-- The checks in their order, on a head, the flag, the bytes before the check sum, the size of all bytes, and
-- the bytes behind the head.
unfoldable pub validate_parts : UartHead → List ℕ → List ℕ → ℕ → List ℕ → Verdict × List Action
unfolding validate_content
validate_parts h flag front size behind =
    if not (str_eq flag uart_flag)
    then (err_buf_check, [])
    else if not (validate_head h front)
    then (err_buf_check, [])
    else if ltb max_uart_size_iobuf (h.data_size + uart_head_size)
    then (err_buf_overflow, [])
    else if bit pkg_option_reset h.option
    then (err_io_soft_reset, reset_old_session h.session_id ∷ [])
    else if bit pkg_option_free h.option
    then validate_content h size behind (restart_session h.session_id ∷ [])
    else validate_content h size behind []

-- The caller has at least a head.
unfoldable pub validate_uart_packet : List ℕ → Verdict × List Action
validate_uart_packet bytes =
    validate_parts (head_of bytes) (take 2 bytes) (take head_check_sum_len bytes) (length bytes)
      (drop uart_head_size bytes)
