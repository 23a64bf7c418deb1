-- ===== src/Tlv/Parse.antt =====
-- tlv.cpp: the constructor from any bytes.
use supertools_public.Common.{
  ℕ, zero, suc, ◌+◌, ◌^◌, ◌<◌, ◌≤◌, ◌≡◌, ◌⊎◌, inl, inr, refl, subst, true, false, ◌||◌, List, [],
  ◌∷◌, ltb, ◌==◌, length, length-take, length-drop, take, drop, Map, has, put, Sorted, Sorted-put,
  arith, All, Bool-cases, get_or,
}
use supertools_public.Common.Bytes.{IsByte, read_le32}
use supertools_public.Tlv.{
  tlv_head_size, tlv_value_max_len, TlvBuf, empty_buf, clear, is_empty, append, parse_loop, parse,
}
use supertools_public.Tlv.RoundTrip.{IsTlv, total}

get_or-IsByte : (xs : List ℕ) (i : ℕ) → All IsByte xs → get_or xs i 0 < 256
get_or-IsByte [] i h = omega arith
get_or-IsByte (x ∷ xs) zero h = h.0
get_or-IsByte (x ∷ xs) (suc i) h = get_or-IsByte xs i h.1

All-drop : (n : ℕ) (xs : List ℕ) → All IsByte xs → All IsByte (drop n xs)
All-drop zero xs h = h
All-drop (suc n) [] h = tt
All-drop (suc n) (x ∷ xs) h = All-drop n xs h.1

read_le32-bound : (xs : List ℕ) → All IsByte xs → read_le32 xs < 2 ^ 32
read_le32-bound xs h =
    omega (
      arith,
      get_or-IsByte xs 0 h,
      get_or-IsByte xs 1 h,
      get_or-IsByte xs 2 h,
      get_or-IsByte xs 3 h,
    )

put-IsTlv :
    (t : ℕ) (v : List ℕ) (m : Map (List ℕ)) → IsTlv (t, v) → All IsTlv m → All IsTlv (put t v m)
put-IsTlv t v [] h a = (h, tt)
put-IsTlv t v ((i, w) ∷ m) h a = ground (arith, put-IsTlv t v m)

total-put :
    (t : ℕ) (v : List ℕ) (m : Map (List ℕ))
    → has t m ≡ false
    → total (put t v m) ≡ 8 + length v + total m
total-put t v [] h = omega arith
total-put t v ((i, w) ∷ m) h = ground (arith, total-put t v m)

-- A good set of values of a given size.
abbrev Good : ℕ → TlvBuf → Type 0
Good n b = All IsTlv b.tlv_map × Sorted b.tlv_map × (total b.tlv_map ≡ n)

append_ok :
    (t : ℕ) (v : List ℕ) (b c : TlvBuf)
    → append t v b ≡ (true, c)
    → (0 < length v)
      × (length v ≤ tlv_value_max_len)
      × (has t b.tlv_map ≡ false)
      × (c ≡ record b { tlv_map = put t v b.tlv_map })
unfolding append
append_ok t v b c e = ground arith

append-Good :
    (n t : ℕ) (v : List ℕ) (b c : TlvBuf)
    → t < 2 ^ 32
    → append t v b ≡ (true, c)
    → Good n b
    → Good (n + (8 + length v)) c
append-Good n t v b c h e (tlvs, sorted, size) =
    let (some_bytes, few, new, p) = append_ok t v b c e in
    rw p (
      put-IsTlv t v b.tlv_map (h, some_bytes, few) tlvs,
      Sorted-put t v b.tlv_map sorted,
      omega (arith, total-put t v b.tlv_map new),
    )

is_empty_nil : (m : Map (List ℕ)) → is_empty m ≡ true → m ≡ []
is_empty_nil [] h = refl
is_empty_nil (e ∷ m) h = absurd cc

clear-nil : (b : TlvBuf) → (clear b).tlv_map ≡ []
unfolding clear
clear-nil b = ground (arith, is_empty_nil b.tlv_map)

-- A refusal, or a good set of that size.
abbrev Parsed : ℕ → TlvBuf → Type 0
Parsed n b = (b.tlv_map ≡ []) ⊎ Good n b

parse_loop-Parsed :
    (fuel n : ℕ) (rest : List ℕ) (b : TlvBuf)
    → All IsByte rest
    → length rest ≤ fuel
    → Good n b
    → Parsed (n + length rest) (parse_loop fuel rest b)
unfolding parse_loop
parse_loop-Parsed zero n [] b h k g = inr (g.0, g.1, omega (arith, g.2))
parse_loop-Parsed zero n (x ∷ xs) b h k g = absurd (omega arith)
parse_loop-Parsed (suc fuel) n [] b h k g = inr (g.0, g.1, omega (arith, g.2))
parse_loop-Parsed (suc fuel) n (x ∷ xs) b h k g =
    let rest : List ℕ = x ∷ xs in
    let t = read_le32 rest in
    let len = read_le32 (drop 4 rest) in
    let val = drop 8 rest in
    elim (Bool-cases (ltb (length rest) tlv_head_size)) [
      | inl e ↦ rw e (inl (clear-nil b))
      | inr e ↦ elim (Bool-cases (len == 0 || ltb (length val) len)) [
        | inl e' ↦ rw (e, e') (inl (clear-nil b))
        | inr e' ↦ elim (Bool-cases (append t (take len val) b).0) [
          | inl ok ↦
              rw (e, e', ok)
                (let c = (append t (take len val) b).1 in
                  let size : length (take len val) ≡ len = ground (arith, length-take len val) in
                  let left = length-drop len val in
                  let all_there : len ≤ length val = ground arith in
                  let head : 8 ≤ length rest = ground arith in
                  let good =
                    append-Good n t (take len val) b c (read_le32-bound rest h) (ground (arith, ok))
                      g in
                  let more =
                    parse_loop-Parsed fuel (n + (8 + length (take len val))) (drop len val) c
                      (All-drop len val (All-drop 7 xs h.1)) (omega (arith, left, length-drop 7 xs))
                      good in
                  subst (λ i. Parsed i (parse_loop fuel (drop len val) c))
                    (omega (arith, size, left, length-drop 7 xs)) more)
          | inr bad ↦ rw (e, e', bad) (inl (clear-nil (append t (take len val) b).1))
        ]
      ]
    ]

-- Any bytes: the constructor refuses them and leaves no value, or it takes them all, and then the tags are in
-- range and in order, each value is within `Append`'s limits, and heads and values are as long as the bytes.
pub parse-IsTlv :
    (tlvs : List ℕ)
    → All IsByte tlvs
    → let b = parse tlvs in
      (b.tlv_map ≡ []) ⊎ (All IsTlv b.tlv_map × Sorted b.tlv_map × (total b.tlv_map ≡ length tlvs))
unfolding clear
parse-IsTlv tlvs h =
    subst (λ i. Parsed i (parse tlvs)) (omega arith)
      (parse_loop-Parsed (length tlvs) 0 tlvs empty_buf h (omega arith) (tt, tt, refl))
