-- ===== src/Uart/Tests.antt =====
-- The theorems on the serial line at concrete inputs.
use supertools_public.Common.{◌+◌, ◌≡◌, refl, true, false, [], ◌∷◌, ◌++◌, arith}
use supertools_public.Uart.Head.{
  UartHead, update_check_sum, whole_package, validate_uart_packet, ret_success, uart_head_size,
}
use supertools_public.Uart.Head.Link.{reply, validate_uart_packet-package}
use supertools_public.Uart.Fragments.{send_uart_data}
use supertools_public.Uart.Fragments.Whole.{contents, Numbered, send_uart_data-whole}
use supertools_public.Uart.Queue.{Request, Uart, request_send_package, new_pkg, send_pkgs}
use supertools_public.Uart.Queue.Slots.{in_order, requests, runs, here, there, uart-in_order}

abbrev head : UartHead
head = record {
  option = 1;
  session_id = 77;
  data_size = 3;
  package_index = 4;
  data_check_sum = 0;
  head_check_sum = 0;
}

validate_uart_packet-package_example :
    let k = update_check_sum head (1 ∷ 2 ∷ 3 ∷ []) in
    validate_uart_packet (whole_package k (1 ∷ 2 ∷ 3 ∷ []) ++ (72 ∷ []))
    ≡ (ret_success 77 4 (uart_head_size + 3), reply k)
validate_uart_packet-package_example =
    validate_uart_packet-package head (1 ∷ 2 ∷ 3 ∷ []) (72 ∷ []) (omega arith) refl (omega arith)
      refl

send_uart_data-whole_example :
    (contents (send_uart_data 77 4294967295 (1 ∷ 2 ∷ [])) ≡ 1 ∷ 2 ∷ [])
    × Numbered 77 4294967295 (send_uart_data 77 4294967295 (1 ∷ 2 ∷ []))
send_uart_data-whole_example = send_uart_data-whole 77 4294967295 (1 ∷ 2 ∷ [])

abbrev request : Request
request = record { session_id = 77; package_index = 4; ack = false; nak = false; buf = 1 ∷ [] }

abbrev idle : Uart
idle = record { out_pkgs = []; slots = [] }

abbrev one_queued : Uart
one_queued = record { out_pkgs = new_pkg request ∷ []; slots = 77 ∷ [] }

uart-in_order_example : in_order (send_pkgs (λ i. 5) (λ i. true) one_queued).0.out_pkgs ≡ true
unfolding request_send_package
uart-in_order_example =
    uart-in_order idle (send_pkgs (λ i. 5) (λ i. true) one_queued).0 refl
      (there (there here (requests true request refl)) (runs (λ i. 5) (λ i. true)))
