-- ===== src/Tar/Header/Octal.antt =====
-- header.cpp: the octal fields, written and read.
use supertools_public.Common.{
  ℕ, zero, suc, ◌+◌, ◌-◌, ◌*◌, ◌/◌, ◌%◌, ◌^◌, ◌<◌, ◌≡◌, refl, sym, ap, ◌∙◌, true, List, [], ◌∷◌,
  ◌++◌, ltb, length, take, replicate, arith, Bool-cases, inl, inr,
}
use supertools_public.Tar.Header.{
  Header, octal_digits, decimal_to_octal_string, updata_size, all_octal, octal_value, size_of,
  updata_check_sum, before_sum, behind_sum, bytes_of, sum, get_bytes,
}

-- Exactly `w` digits.
abbrev octal : ℕ → ℕ → List ℕ → List ℕ
octal zero n acc = acc
octal (suc w) n acc = octal w (n / 8) ((48 + n % 8) ∷ acc)

replicate_snoc : (k a : ℕ) (xs : List ℕ) → replicate k a ++ (a ∷ xs) ≡ a ∷ (replicate k a ++ xs)
replicate_snoc zero a xs = refl
replicate_snoc (suc k) a xs = ap (◌∷◌ a) (replicate_snoc k a xs)

octal_zero : (w : ℕ) (acc : List ℕ) → octal w 0 acc ≡ replicate w 48 ++ acc
octal_zero zero acc = refl
octal_zero (suc w) acc = octal_zero w (48 ∷ acc) ∙ replicate_snoc w 48 acc

padded :
    (w f n : ℕ) (acc : List ℕ)
    → n < 8 ^ suc w
    → w < f
    → replicate (suc w + length acc - length (octal_digits f n acc)) 48 ++ octal_digits f n acc
      ≡ octal (suc w) n acc
padded w zero n acc h k = absurd (omega arith)
padded zero (suc f) n acc h k = ground arith
padded (suc w) (suc f) n acc h k = elim (Bool-cases (ltb n 8)) [
  | inl e ↦
      let q : n / 8 ≡ 0 = ground arith in
      let c : suc (suc w) + length acc - suc (length acc) ≡ suc w = omega arith in
      rw (e, c, q) (sym (octal_zero (suc w) ((48 + n % 8) ∷ acc)))
  | inr e ↦ rw e (
      let c : suc (suc w) + length acc ≡ suc w + suc (length acc) = omega arith in
      rw c (padded w f (n / 8) ((48 + n % 8) ∷ acc) (ground arith) (omega arith)))
]

octal_string :
    (w n : ℕ) → n < 8 ^ suc w → w < 22 → decimal_to_octal_string n (suc w) ≡ octal (suc w) n []
unfolding decimal_to_octal_string
octal_string w n h k =
    let c : suc w ≡ suc w + 0 = omega arith in
    ap (λ m. replicate (m - length (octal_digits 22 n [])) 48 ++ octal_digits 22 n []) c
    ∙ padded w 22 n [] h k

octal_value-octal :
    (w n : ℕ) (acc : List ℕ) → n < 8 ^ w → octal_value 0 (octal w n acc) ≡ octal_value n acc
octal_value-octal zero n acc h = ap (λ k. octal_value k acc) (ground arith)
octal_value-octal (suc w) n acc h =
    octal_value-octal w (n / 8) ((48 + n % 8) ∷ acc) (ground arith)
    ∙ ap (λ k. octal_value k acc) (omega arith)

all_octal-octal : (w n : ℕ) (acc : List ℕ) → all_octal acc ≡ true → all_octal (octal w n acc) ≡ true
all_octal-octal zero n acc h = h
all_octal-octal (suc w) n acc h = all_octal-octal w (n / 8) ((48 + n % 8) ∷ acc) (ground arith)

-- What `UpdataSize` writes for a file below 8 ^ 11 bytes, `Size` reads, whatever the header held before.
pub size_of-updata_size : (n : ℕ) (h : Header) → n < 8 ^ 11 → size_of (updata_size n h) ≡ n
unfolding size_of updata_size
size_of-updata_size n h lt =
    rw (octal_string 10 n lt (omega arith), all_octal-octal 11 n [] refl)
      (octal_value-octal 11 n [] lt)

sum-append : (xs ys : List ℕ) → sum (xs ++ ys) ≡ sum xs + sum ys
sum-append [] ys = omega arith
sum-append (x ∷ xs) ys = omega (arith, sum-append xs ys)

-- The sum of the bytes, the field of the check sum left out.
abbrev pub sum_of_others : Header → ℕ
sum_of_others h = sum (bytes_of (record h { chksum = [] }))

sum_bytes : (h : Header) → sum (bytes_of h) ≡ sum_of_others h + sum h.chksum
sum_bytes h = omega (
  arith,
  sum-append (before_sum h) (h.chksum ++ behind_sum h),
  sum-append h.chksum (behind_sum h),
  sum-append (before_sum h) (behind_sum h),
)

-- Of a header whose check sum field is zero, and whose bytes are not too large for it, `GetBytes` gives a block
-- that is the header with the check sum of a tar file: the seven octal digits are the sum of all bytes, the eight
-- bytes of the field itself counted as spaces.
pub get_bytes-sum :
    (h : Header)
    → sum h.chksum ≡ 0
    → sum_of_others h + 256 < 8 ^ 7
    → let (h', block) = get_bytes h in
      (block ≡ bytes_of h') × (octal_value 0 (take 7 h'.chksum) ≡ sum_of_others h' + 8 * 32)
unfolding get_bytes updata_check_sum
get_bytes-sum h zero_field lt =
    let m = sum (bytes_of h) + 256 in
    let same = sum_bytes h in
    let fits : m < 8 ^ 7 = omega (arith, same) in
    (
      refl,
      rw (octal_string 6 m fits (omega arith))
          (octal_value-octal 7 m [] fits ∙ omega (arith, same)),
    )
