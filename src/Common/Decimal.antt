-- ===== src/Common/Decimal.antt =====
-- Decimal digits, and `strtol` of the C standard for base 10, on values that a `long` holds.
use Prim.Native.Nat.{ℕ, zero, suc, ◌+◌, ◌-◌, ◌*◌, ◌/◌, ◌%◌, ◌^◌, ◌<◌, ◌≤◌}
use mathlib.Core.Path.{◌≡◌, refl, ap, ◌∙◌}
use mathlib.Core.Logic.{inl, inr}
use mathlib.Core.Bool.{Bool, true, false, ◌&&◌, ◌||◌}
use mathlib.Core.List.{List, [], ◌∷◌}
use native.Mathlib.Omega.{arith}
use supertools_public.Common.Tests.{ltb, leb, ◌==◌, if◌then◌else◌, Bool-cases}
use supertools_public.Common.Lists.{All, length}

-- The decimal digits of a number below 10 ^ fuel, before `acc`.
abbrev pub digits : ℕ → ℕ → List ℕ → List ℕ
digits zero n acc = acc
digits (suc fuel) n acc =
    let acc' = (48 + n % 10) ∷ acc in
    let more = digits fuel (n / 10) acc' in if ltb n 10 then acc' else more

abbrev pub is_digit : ℕ → Bool
is_digit c = leb 48 c && leb c 57

-- The digits at the front, to a value: the value and what stands behind them.
abbrev pub strtol_digits : ℕ → List ℕ → ℕ × List ℕ
strtol_digits value [] = (value, [])
strtol_digits value (c ∷ cs) =
    let rest = strtol_digits (value * 10 + (c - 48)) cs in
    if is_digit c then rest else (value, c ∷ cs)

abbrev pub is_space : ℕ → Bool
is_space c = c == 32 || (leb 9 c && leb c 13)

abbrev pub starts_with_digit : List ℕ → Bool
starts_with_digit [] = false
starts_with_digit (c ∷ cs) = is_digit c

-- After white space and a sign: whether the value is negative, the value, and the rest at `end`. Without a
-- digit the value is 0 and `end` the start.
abbrev pub strtol_signed : List ℕ → List ℕ → Bool → Bool × ℕ × List ℕ
strtol_signed start s negative =
    let (value, rest) = strtol_digits 0 s in
    if starts_with_digit s then (negative, value, rest) else (false, 0, start)

abbrev pub strtol_sign : List ℕ → List ℕ → Bool × ℕ × List ℕ
strtol_sign start [] = (false, 0, start)
strtol_sign start (c ∷ cs) =
    if c == 45
    then strtol_signed start cs true
    else if c == 43
    then strtol_signed start cs false
    else strtol_signed start (c ∷ cs) false

abbrev pub strtol_from : List ℕ → List ℕ → Bool × ℕ × List ℕ
strtol_from start [] = (false, 0, start)
strtol_from start (c ∷ cs) =
    let rest = strtol_from start cs in if is_space c then rest else strtol_sign start (c ∷ cs)

abbrev pub strtol : List ℕ → Bool × ℕ × List ℕ
strtol s = strtol_from s s

-- The digits of a number are read as that number.
pub strtol_digits-digits :
    (f n : ℕ) (acc : List ℕ) → n < 10 ^ f → strtol_digits 0 (digits f n acc) ≡ strtol_digits n acc
strtol_digits-digits zero n acc h =
    let e : n ≡ 0 = omega arith in ap (λ k. strtol_digits k acc) (omega (arith, e))
strtol_digits-digits (suc f) n acc h =
    let small : n / 10 < 10 ^ f = omega (arith, pow f) in
    let digit : is_digit (48 + n % 10) ≡ true = ground arith in
    let value : n / 10 * 10 + (48 + n % 10 - 48) ≡ n = omega arith in
    elim (Bool-cases (ltb n 10)) [
      | inl e ↦
          let alone : 0 * 10 + (48 + n % 10 - 48) ≡ n = ground arith in
          rw (e, digit) (ap (λ k. strtol_digits k acc) alone)
      | inr e ↦ rw e (
          strtol_digits-digits f (n / 10) ((48 + n % 10) ∷ acc) small
          ∙ rw digit (ap (λ k. strtol_digits k acc) value))
    ]
  where
    pow : (f : ℕ) → 10 ^ suc f ≡ 10 * 10 ^ f
    pow f = omega arith

abbrev pub IsDigits : List ℕ → Type 0
IsDigits = All (λ c. is_digit c ≡ true)

pub digits-IsDigits : (f n : ℕ) (acc : List ℕ) → IsDigits acc → IsDigits (digits f n acc)
digits-IsDigits zero n acc a = a
digits-IsDigits (suc f) n acc a =
    let digit : is_digit (48 + n % 10) ≡ true = ground arith in
    let more = digits-IsDigits f (n / 10) ((48 + n % 10) ∷ acc) (digit, a) in
    elim (Bool-cases (ltb n 10)) [ inl e ↦ rw e (digit, a) | inr e ↦ rw e more ]

-- A number below 10 ^ g has at most g digits, and at least one.
pub length-digits :
    (f g n : ℕ) (acc : List ℕ) → n < 10 ^ g → 0 < g → length (digits f n acc) ≤ length acc + g
length-digits zero g n acc h p = omega arith
length-digits (suc f) zero n acc h p = absurd (omega arith)
length-digits (suc f) (suc zero) n acc h p =
    let e : ltb n 10 ≡ true = ground arith in rw e (omega arith)
length-digits (suc f) (suc (suc g)) n acc h p =
    let more = length-digits f (suc g) (n / 10) ((48 + n % 10) ∷ acc) (omega arith) (omega arith) in
    elim (Bool-cases (ltb n 10)) [ inl e ↦ rw e (omega arith) | inr e ↦ rw e (omega (arith, more)) ]

pub digits_grow : (f n : ℕ) (acc : List ℕ) → length acc ≤ length (digits f n acc)
digits_grow zero n acc = omega arith
digits_grow (suc f) n acc =
    let more = digits_grow f (n / 10) ((48 + n % 10) ∷ acc) in
    elim (Bool-cases (ltb n 10)) [ inl e ↦ rw e (omega arith) | inr e ↦ rw e (omega (arith, more)) ]

pub digits_some : (f n : ℕ) (acc : List ℕ) → length acc < length (digits (suc f) n acc)
digits_some f n acc =
    let more = digits_grow f (n / 10) ((48 + n % 10) ∷ acc) in
    elim (Bool-cases (ltb n 10)) [ inl e ↦ rw e (omega arith) | inr e ↦ rw e (omega (arith, more)) ]

-- `strtol` of digits alone.
pub strtol-IsDigits :
    (s : List ℕ)
    → IsDigits s
    → 0 < length s
    → strtol s ≡ (false, (strtol_digits 0 s).0, (strtol_digits 0 s).1)
strtol-IsDigits [] a h = absurd (omega arith)
strtol-IsDigits (c ∷ cs) a h =
    let d = a.0 in
    let blank : is_space c ≡ false = ground arith in
    let minus : (c == 45) ≡ false = ground arith in
    let plus : (c == 43) ≡ false = ground arith in rw (blank, minus, plus, d) refl
