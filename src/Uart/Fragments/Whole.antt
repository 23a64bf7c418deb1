-- ===== src/Uart/Fragments/Whole.antt =====
-- uart.cpp: the packages of `SendUARTData` and the data they carry.
use supertools_public.Common.{
  ℕ, zero, suc, ◌+◌, ◌%◌, ◌^◌, ◌<◌, ◌≤◌, ◌≡◌, refl, List, [], ◌∷◌, ◌++◌, ltb, ◌==◌, if◌then◌else◌,
  length, drop, take-append-drop, length-take, length-drop, arith, append-nil, ==_ne, Bool-cases,
  inl, inr,
}
use supertools_public.Uart.Head.{pkg_option_tail}
use supertools_public.Uart.Fragments.{Fragment, fragments, send_uart_data, package_data_max_size}

abbrev pub contents : List Fragment → List ℕ
contents [] = []
contents (f ∷ fs) = f.content ++ contents fs

-- The packages are of the session, of their data's size, none too large, numbered from the index on, and
-- exactly the last one is marked as the tail.
abbrev pub Numbered : ℕ → ℕ → List Fragment → Type 0
Numbered sid i [] = Unit
Numbered sid i (f ∷ fs) =
    (f.head.session_id ≡ sid)
    × (f.head.package_index ≡ (i + 1) % 2 ^ 32)
    × (f.head.data_size ≡ length f.content)
    × (length f.content ≤ package_data_max_size)
    × (f.head.option ≡ (if length fs == 0 then pkg_option_tail else 0))
    × Numbered sid ((i + 1) % 2 ^ 32) fs

fragments-some :
    (fuel sid i : ℕ) (rest : List ℕ) → length rest < fuel → 0 < length (fragments fuel sid i rest)
unfolding fragments
fragments-some zero sid i rest h = absurd (omega arith)
fragments-some (suc fuel) sid i rest h = ground arith

fragments-whole :
    (fuel sid i : ℕ) (rest : List ℕ)
    → length rest < fuel
    → (contents (fragments fuel sid i rest) ≡ rest) × Numbered sid i (fragments fuel sid i rest)
unfolding fragments
fragments-whole zero sid i rest h = absurd (omega arith)
fragments-whole (suc fuel) sid i rest h =
    elim (Bool-cases (ltb package_data_max_size (length rest))) [
      | inl e ↦
          let n = package_data_max_size in
          let long : n < length rest = ground arith in
          let left : length (drop n rest) < fuel = omega (arith, length-drop n rest) in
          let (c, m) = fragments-whole fuel sid ((i + 1) % 2 ^ 32) (drop n rest) left in
          let some_left = fragments-some fuel sid ((i + 1) % 2 ^ 32) (drop n rest) left in
          rw (e, c)
            (
              take-append-drop n rest,
              (
                refl,
                refl,
                refl,
                omega (arith, length-take n rest),
                rw
                    (==_ne (length (fragments fuel sid ((i + 1) % 2 ^ 32) (drop n rest))) 0
                      (λ p. omega (arith, some_left, p)))
                    refl,
                m,
              ),
            )
      | inr e ↦ rw e (append-nil rest, (refl, refl, refl, ground arith, refl, tt))
    ]

-- `SendUARTData` cuts the data into packages that hold all of it, in order; they are of the session, of the
-- sizes they say and within the line's limit, numbered without a gap from the session's index on, modulo
-- 2 ^ 32, and exactly the last is marked as the tail.
pub send_uart_data-whole :
    (sid i : ℕ) (bytes : List ℕ)
    → (contents (send_uart_data sid i bytes) ≡ bytes) × Numbered sid i (send_uart_data sid i bytes)
send_uart_data-whole sid i bytes = fragments-whole (suc (length bytes)) sid i bytes (omega arith)
