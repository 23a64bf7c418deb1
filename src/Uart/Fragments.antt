-- ===== src/Uart/Fragments.antt =====
-- uart.cpp: `SendUARTData`, which cuts data into packages.
--
-- `RequestSendPackage` is called once for each package; a run returns the packages in that order. The data
-- are shorter than 2 ^ 31 bytes, so `RemainingDataSize` does not wrap. The copies cannot fail, as each has
-- room for what it copies.
pub mod Whole
use supertools_public.Common.{
  ℕ, zero, suc, ◌+◌, ◌-◌, ◌%◌, ◌^◌, Bool, true, false, List, [], ◌∷◌, ltb, ◌==◌, if◌then◌else◌,
  length, take, drop,
}
use supertools_public.Uart.Head.{
  UartHead, uart_head_size, max_uart_size_iobuf, pkg_option_tail, update_check_sum, whole_package,
}

abbrev pub package_data_max_size : ℕ
package_data_max_size = max_uart_size_iobuf - uart_head_size

-- The head that `SendUARTData` fills in, and what it copies behind it.
pub record Fragment : Type 0 where
  pub head : UartHead
  pub content : List ℕ

abbrev pub fragment : ℕ → ℕ → Bool → List ℕ → Fragment
fragment session_id package_index tail content = record {
  head = record {
    option = if tail then pkg_option_tail else 0;
    session_id = session_id;
    data_size = length content;
    package_index = package_index;
    data_check_sum = 0;
    head_check_sum = 0;
  };
  content = content;
}

-- The loop, with the data from `offset` on and the index of the package before.
unfoldable pub fragments : ℕ → ℕ → ℕ → List ℕ → List Fragment
fragments zero session_id index rest = []
fragments (suc fuel) session_id index rest =
    let next = (index + 1) % 2 ^ 32 in
    let n = package_data_max_size in
    let more = fragments fuel session_id next (drop n rest) in
    if ltb n (length rest)
    then fragment session_id next false (take n rest) ∷ more
    else fragment session_id next true rest ∷ []

-- A package that is not the last takes data, so the fuel is enough.
abbrev pub send_uart_data : ℕ → ℕ → List ℕ → List Fragment
send_uart_data session_id index bytes = fragments (suc (length bytes)) session_id index bytes

-- The bytes that `RequestSendPackage` queues for a package.
abbrev pub queued : Fragment → List ℕ
queued f = whole_package (update_check_sum f.head f.content) f.content
