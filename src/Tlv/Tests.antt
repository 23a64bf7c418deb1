-- ===== src/Tlv/Tests.antt =====
-- The theorems on tagged values at concrete inputs.
use supertools_public.Common.{ℕ, ◌≡◌, ◌⊎◌, true, List, [], ◌∷◌, arith, length, All, Sorted}
use supertools_public.Tlv.{TlvBuf, parse, get_buf_size, size_from, copy_to_buf}
use supertools_public.Tlv.RoundTrip.{IsTlv, total, parse-copy_to_buf}
use supertools_public.Tlv.Parse.{parse-IsTlv}

abbrev two_values : TlvBuf
two_values = record { tlv_map = (0, 108 ∷ 115 ∷ []) ∷ (1, 97 ∷ []) ∷ []; valid_tags = [] }

parse-copy_to_buf_example :
    let (ok, bytes) = copy_to_buf 64 two_values in
    (ok ≡ true)
    × (length bytes ≡ get_buf_size two_values)
    × (parse bytes ≡ record { tlv_map = two_values.tlv_map; valid_tags = [] })
unfolding size_from
parse-copy_to_buf_example =
    parse-copy_to_buf 64 two_values (omega arith) (omega arith) (omega arith) (omega arith)
      (omega arith)

abbrev one_value : List ℕ
one_value = 1 ∷ 0 ∷ 0 ∷ 0 ∷ 2 ∷ 0 ∷ 0 ∷ 0 ∷ 108 ∷ 115 ∷ []

parse-IsTlv_example :
    let b = parse one_value in
    (b.tlv_map ≡ []) ⊎ (All IsTlv b.tlv_map × Sorted b.tlv_map × (total b.tlv_map ≡ 10))
parse-IsTlv_example = parse-IsTlv one_value (omega arith)
