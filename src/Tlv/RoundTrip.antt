-- ===== src/Tlv/RoundTrip.antt =====
-- tlv.cpp: `CopyToBuf` and the constructor from bytes together.
use supertools_public.Common.{
  ℕ, zero, suc, ◌+◌, ◌-◌, ◌%◌, ◌^◌, ◌<◌, ◌≤◌, ◌≡◌, refl, true, false, List, [], ◌∷◌, ◌++◌,
  append_assoc, append-nil, ltb, length, length-append, take_prefix, drop_prefix, Map, has, put,
  Above, Sorted, arith, All,
}
use supertools_public.Common.Bytes.{le32, read_le32}
use supertools_public.Tlv.{
  tlv_value_max_len, TlvBuf, clear, append, parse_loop, parse, size_from, get_buf_size, fits,
  copy_loop, copy_to_buf,
}

-- What `Append` lets in.
abbrev pub IsTlv : ℕ × List ℕ → Type 0
IsTlv (t, v) = (t < 2 ^ 32) × (0 < length v) × (length v ≤ tlv_value_max_len)

abbrev pub total : Map (List ℕ) → ℕ
total [] = 0
total ((t, v) ∷ m) = 8 + length v + total m

abbrev pub image : Map (List ℕ) → List ℕ
image [] = []
image ((t, v) ∷ m) = (le32 t ++ le32 (length v)) ++ v ++ image m

pub size_from-total :
    (n : ℕ) (m : Map (List ℕ)) → n + total m < 2 ^ 32 → size_from n m ≡ n + total m
unfolding size_from
size_from-total n [] h = omega arith
size_from-total n ((t, v) ∷ m) h =
    ground (arith, size_from-total (((n + 8) % 2 ^ 32 + length v) % 2 ^ 32) m)

copy_loop-image :
    (size pos : ℕ) (m : Map (List ℕ))
    → All IsTlv m
    → pos + total m ≤ size
    → size < 2 ^ 32
    → copy_loop size pos m ≡ (true, image m)
unfolding copy_loop
copy_loop-image size pos [] h k l = refl
copy_loop-image size pos ((t, v) ∷ m) h k l =
    let at : (pos + 8) % 2 ^ 32 ≡ pos + 8 = omega arith in
    let next : (pos + 8 + length v) % 2 ^ 32 ≡ pos + 8 + length v = omega arith in
    let fit : fits ((size + (2 ^ 32 - (pos + 8))) % 2 ^ 32) (length v) ≡ true =
      ground (arith, h.0.1) in
    rw (at, next, fit, copy_loop-image size (pos + 8 + length v) m h.1 (omega arith) l) refl

length-image : (m : Map (List ℕ)) → length (image m) ≡ total m
length-image [] = refl
length-image ((t, v) ∷ m) = omega (arith, length-append v (image m), length-image m)

-- Every key is below `k`.
abbrev Below : ℕ → Map (List ℕ) → Type 0
Below k [] = Unit
Below k ((i, v) ∷ m) = (i < k) × Below k m

has-Below : (k : ℕ) (m : Map (List ℕ)) → Below k m → has k m ≡ false
has-Below k [] b = refl
has-Below k ((i, v) ∷ m) b = ground (arith, has-Below k m)

put-Below : (k : ℕ) (v : List ℕ) (m : Map (List ℕ)) → Below k m → put k v m ≡ m ++ ((k, v) ∷ [])
put-Below k v [] b = refl
put-Below k v ((i, w) ∷ m) b = ground (arith, put-Below k v m)

Below-append :
    (j k : ℕ) (v : List ℕ) (m : Map (List ℕ)) → k < j → Below j m → Below j (m ++ ((k, v) ∷ []))
Below-append j k v [] h b = (h, tt)
Below-append j k v ((i, w) ∷ m) h b = (b.0, Below-append j k v m h b.1)

-- Each key of the second map is above all keys of the first.
abbrev Follows : Map (List ℕ) → Map (List ℕ) → Type 0
Follows acc [] = Unit
Follows acc ((k, v) ∷ m) = Below k acc × Follows acc m

Follows-nil : (m : Map (List ℕ)) → Follows [] m
Follows-nil [] = tt
Follows-nil ((k, v) ∷ m) = (tt, Follows-nil m)

Follows-snoc :
    (acc : Map (List ℕ)) (k : ℕ) (v : List ℕ) (m : Map (List ℕ))
    → Above k m
    → Follows acc m
    → Follows (acc ++ ((k, v) ∷ [])) m
Follows-snoc acc k v [] a f = tt
Follows-snoc acc k v ((i, w) ∷ m) a f =
    (Below-append i k v acc a.0 f.0, Follows-snoc acc k v m a.1 f.1)

read_le32-le32 : (n : ℕ) (xs : List ℕ) → n < 2 ^ 32 → read_le32 (le32 n ++ xs) ≡ n
read_le32-le32 n xs h = omega arith

append_next :
    (t : ℕ) (v : List ℕ) (acc : Map (List ℕ)) (tags : List ℕ)
    → IsTlv (t, v)
    → Below t acc
    → append t v (record { tlv_map = acc; valid_tags = tags })
      ≡ (true, record { tlv_map = acc ++ ((t, v) ∷ []); valid_tags = tags })
unfolding append
append_next t v acc tags h b = rw (has-Below t acc b, put-Below t v acc b) (ground (arith, h.1))

parse_loop-image :
    (fuel : ℕ) (acc m : Map (List ℕ)) (tags : List ℕ)
    → All IsTlv m
    → Sorted m
    → Follows acc m
    → length (image m) ≤ fuel
    → parse_loop fuel (image m) (record { tlv_map = acc; valid_tags = tags })
      ≡ record { tlv_map = acc ++ m; valid_tags = tags }
unfolding parse_loop
parse_loop-image zero acc [] tags h s f k = rw (append-nil acc) refl
parse_loop-image zero acc ((t, v) ∷ m) tags h s f k = absurd (omega arith)
parse_loop-image (suc fuel) acc [] tags h s f k = rw (append-nil acc) refl
parse_loop-image (suc fuel) acc ((t, v) ∷ m) tags h s f k =
    let e1 = read_le32-le32 t (le32 (length v) ++ v ++ image m) h.0.0 in
    let e2 = read_le32-le32 (length v) (v ++ image m) (omega (arith, h.0.2)) in
    let rest =
      parse_loop-image fuel (acc ++ ((t, v) ∷ [])) m tags h.1 s.1 (Follows-snoc acc t v m s.0 f.1)
        (omega (arith, length-append v (image m))) in
    let e3 = take_prefix (length v) v (image m) refl in
    let e4 = drop_prefix (length v) v (image m) refl in
    rw (e1, e2, e3, e4, append_next t v acc tags h.0 f.0, rest)
      (rw (append_assoc acc ((t, v) ∷ []) m) (ground (arith, h.0.1, length-append v (image m))))

-- A set of values, in the order of their tags, each tag in range and each value within `Append`'s limits,
-- whose bytes a `uint32_t` can count: `CopyToBuf` into a buffer of at least `GetBufSize` bytes succeeds and
-- fills exactly that many, and the constructor reads the same set from them.
pub parse-copy_to_buf :
    (size : ℕ) (b : TlvBuf)
    → All IsTlv b.tlv_map
    → Sorted b.tlv_map
    → total b.tlv_map < 2 ^ 32
    → get_buf_size b ≤ size
    → size < 2 ^ 32
    → let (ok, bytes) = copy_to_buf size b in
      (ok ≡ true)
      × (length bytes ≡ get_buf_size b)
      × (parse bytes ≡ record { tlv_map = b.tlv_map; valid_tags = [] })
unfolding copy_to_buf clear
parse-copy_to_buf size b h s k l m =
    let e = size_from-total 0 b.tlv_map (omega (arith, k)) in
    let enough : ltb size (get_buf_size b) ≡ false = ground arith in
    rw (enough, copy_loop-image size 0 b.tlv_map h (omega (arith, e, l)) m)
      (
        refl,
        omega (arith, length-image b.tlv_map, e),
        parse_loop-image (length (image b.tlv_map)) [] b.tlv_map [] h s (Follows-nil b.tlv_map)
            (omega arith),
      )
