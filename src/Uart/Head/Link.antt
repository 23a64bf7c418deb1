-- ===== src/Uart/Head/Link.antt =====
-- uart.cpp: `ValidateUartPacket` on packages with their check sums.
use supertools_public.Common.{
  ℕ, ◌+◌, ◌^◌, ◌<◌, ◌≤◌, ◌≡◌, refl, ap, ◌∙◌, true, false, List, [], ◌∷◌, ◌++◌, ltb, leb, ◌==◌,
  if◌then◌else◌, length, length-append, take, drop, take_prefix, take_all, arith, ==_self,
  Bool-cases, inl, inr,
}
use supertools_public.Uart.Head.{
  UartHead, head_front, whole_package, update_check_sum, head_of, validate_head, validate_data,
  validate_uart_packet, validate_parts, validate_content, ret_success, Action, restart_session,
  acknowledge, process_response, is_response_package, uart_flag, bit, pkg_option_reset,
  pkg_option_free, uart_head_size, max_uart_size_iobuf, accumulate,
}

abbrev pub IsHead : UartHead → Type 0
IsHead h =
    (h.option < 2 ^ 16)
    × (h.session_id < 2 ^ 32)
    × (h.data_size < 2 ^ 32)
    × (h.package_index < 2 ^ 32)
    × (h.data_check_sum < 2 ^ 32)
    × (h.head_check_sum < 2 ^ 32)

head_ext :
    (h k : UartHead)
    → h.option ≡ k.option
    → h.session_id ≡ k.session_id
    → h.data_size ≡ k.data_size
    → h.package_index ≡ k.package_index
    → h.data_check_sum ≡ k.data_check_sum
    → h.head_check_sum ≡ k.head_check_sum
    → h ≡ k
head_ext h k a b c d e f = cc

head_of-whole_package :
    (h : UartHead) (content : List ℕ) → IsHead h → head_of (whole_package h content) ≡ h
unfolding head_of whole_package head_front
head_of-whole_package h content r =
    head_ext (head_of (whole_package h content)) h (omega arith) (omega arith) (omega arith)
      (omega arith) (omega arith) (omega arith)

-- What `ValidateUartPacket` makes of a package whose head is valid.
abbrev pub reply : UartHead → List Action
reply h =
    (if bit pkg_option_free h.option then restart_session h.session_id ∷ [] else [])
    ++ ((if is_response_package h
          then process_response h
          else acknowledge h.session_id h.package_index)
        ∷ [])

validate_content-reply :
    (h : UartHead) (size : ℕ) (behind : List ℕ) (done : List Action)
    → h.data_size + uart_head_size ≤ size
    → validate_data h behind ≡ true
    → validate_content h size behind done ≡ (
      ret_success h.session_id h.package_index (h.data_size + uart_head_size),
      done
          ++ ((if is_response_package h
                then process_response h
                else acknowledge h.session_id h.package_index)
              ∷ []),
    )
unfolding validate_content
validate_content-reply h size behind done there data_ok =
    let full : leb (h.data_size + uart_head_size) size ≡ true = ground arith in
    rw (full, data_ok)
      (elim (Bool-cases (is_response_package h)) [ inl e ↦ rw e refl | inr e ↦ rw e refl ])

take_flag : (h : UartHead) (content : List ℕ) → take 2 (whole_package h content) ≡ uart_flag
unfolding whole_package head_front
take_flag h content = refl

take_front : (h : UartHead) (content : List ℕ) → take 20 (whole_package h content) ≡ head_front h
unfolding whole_package head_front
take_front h content = refl

drop_head : (h : UartHead) (content : List ℕ) → drop 24 (whole_package h content) ≡ content
unfolding whole_package head_front
drop_head h content = refl

length_package :
    (h : UartHead) (content : List ℕ) → length (whole_package h content) ≡ 24 + length content
unfolding whole_package head_front
length_package h content = omega arith

validate_parts-reply :
    (h : UartHead) (size : ℕ) (front behind : List ℕ)
    → h.data_size + uart_head_size ≤ size
    → h.data_size + uart_head_size ≤ max_uart_size_iobuf
    → h.head_check_sum ≡ accumulate front
    → validate_data h behind ≡ true
    → bit pkg_option_reset h.option ≡ false
    → validate_parts h uart_flag front size behind
      ≡ (ret_success h.session_id h.package_index (h.data_size + uart_head_size), reply h)
unfolding validate_parts
validate_parts-reply h size front behind there small head_ok data_ok no_reset =
    let head_ok' : validate_head h front ≡ true = ground arith in
    let short : ltb max_uart_size_iobuf (h.data_size + uart_head_size) ≡ false = ground arith in
    rw (head_ok', short, no_reset)
      (elim (Bool-cases (bit pkg_option_free h.option)) [
        | inl e ↦
            rw e (
              validate_content-reply h size behind (restart_session h.session_id ∷ []) there
                data_ok)
        | inr e ↦ rw e (validate_content-reply h size behind [] there data_ok)
      ])

validate_uart_packet_lem :
    (h : UartHead) (behind : List ℕ)
    → IsHead h
    → validate_uart_packet (whole_package h behind)
      ≡ validate_parts h uart_flag (head_front h) (uart_head_size + length behind) behind
unfolding validate_uart_packet
validate_uart_packet_lem h behind r =
    rw
      (
        head_of-whole_package h behind r,
        take_flag h behind,
        take_front h behind,
        length_package h behind,
        drop_head h behind,
      )
      refl

package_append :
    (h : UartHead) (content behind : List ℕ)
    → whole_package h content ++ behind ≡ whole_package h (content ++ behind)
unfolding whole_package head_front
package_append h content behind = refl

-- The fields after `UpdateCheckSum`.
update_check_sum_lem :
    (h : UartHead) (content : List ℕ)
    → let k = update_check_sum h content in
      (k.option ≡ h.option)
      × (k.session_id ≡ h.session_id)
      × (k.data_size ≡ h.data_size)
      × (k.package_index ≡ h.package_index)
      × (k.data_check_sum
          ≡ (if h.data_size == 0 then h.data_check_sum else accumulate (take h.data_size content)))
      × (k.head_check_sum ≡ accumulate (head_front k))
unfolding update_check_sum head_front
update_check_sum_lem h content = (refl, refl, refl, refl, refl, refl)

validate_data-update :
    (h : UartHead) (content behind : List ℕ)
    → h.data_size ≡ length content
    → validate_data (update_check_sum h content) (content ++ behind) ≡ true
validate_data-update h content behind e =
    let (o, sid, ds, idx, dsum, hsum) = update_check_sum_lem h content in
    rw
      (
        dsum,
        ds,
        e,
        take_prefix (length content) content behind refl,
        take_all (length content) content (omega arith),
      )
      (elim (Bool-cases (length content == 0)) [
        | inl z ↦ rw z refl
        | inr z ↦ rw z (==_self (accumulate content))
      ])

verdict_eq :
    {a b c a' b' c' : ℕ} → a ≡ a' → b ≡ b' → c ≡ c' → ret_success a b c ≡ ret_success a' b' c'
verdict_eq p q r = cc

-- A package whose check sums `UpdateCheckSum` has filled in, with whatever stands behind it: the other side
-- takes it, finds its session, index and size, and answers it once, with the processing of a response if it
-- is one and an acknowledgement if not. Its fields are in range, it is within the line's limit and does not
-- ask for a reset.
pub validate_uart_packet-package :
    (h : UartHead) (content behind : List ℕ)
    → IsHead h
    → h.data_size ≡ length content
    → length content + uart_head_size ≤ max_uart_size_iobuf
    → bit pkg_option_reset h.option ≡ false
    → let k = update_check_sum h content in
      validate_uart_packet (whole_package k content ++ behind)
      ≡ (ret_success h.session_id h.package_index (uart_head_size + length content), reply k)
validate_uart_packet-package h content behind r e small no_reset =
    let k = update_check_sum h content in
    let (o, sid, ds, idx, dsum, hsum) = update_check_sum_lem h content in
    let dsum' : k.data_check_sum < 2 ^ 32 = rw dsum (ground arith) in
    let hsum' : k.head_check_sum < 2 ^ 32 = rw hsum (omega arith) in
    let r' : IsHead k = (rw o r.0, rw sid r.1, rw ds r.2, rw idx r.3, dsum', hsum') in
    let more = length-append content behind in
    let there : k.data_size + uart_head_size ≤ uart_head_size + length (content ++ behind) =
      omega (arith, ds, e, more) in
    let small' : k.data_size + uart_head_size ≤ max_uart_size_iobuf = omega (arith, ds, e) in
    rw (package_append k content behind) (
      validate_uart_packet_lem k (content ++ behind) r'
      ∙ validate_parts-reply k (uart_head_size + length (content ++ behind)) (head_front k)
          (content ++ behind) there small' hsum (validate_data-update h content behind e)
          (rw o no_reset)
      ∙ ap (λ v. (v, reply k)) (verdict_eq sid idx (omega (arith, ds, e))))
