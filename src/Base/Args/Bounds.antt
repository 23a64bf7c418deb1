-- ===== src/Base/Args/Bounds.antt =====
-- base.cpp: the memory of `SplitCommandToArgs`.
use supertools_public.Common.{
  ℕ, suc, ◌+◌, ◌*◌, ◌/◌, ◌≤◌, List, [], ◌∷◌, arith, if◌then◌else◌, length, length-append,
}
use supertools_public.Base.Args.{Split, split_char, split_loop, split_start}

-- After `i` characters.
record Fits (i : ℕ) (s : Split) : Type 0 where
  slots : 2 * length s.argv ≤ i + (if s.is_space then 0 else 1)
  chars : length s.temp ≤ i

split_char-Fits : (i : ℕ) (s : Split) (a : ℕ) → Fits i s → Fits (suc i) (split_char s a)
unfolding split_char
split_char-Fits i s a f = ground (
  arith,
  length-append s.temp (a ∷ []),
  length-append s.temp (0 ∷ []),
  length-append s.argv (length s.temp ∷ []),
)

split_loop-Fits :
    (i : ℕ) (s : Split) (cs : List ℕ) → Fits i s → Fits (i + length cs) (split_loop s cs)
unfolding split_loop
split_loop-Fits i s [] f = ground arith
split_loop-Fits i s (a ∷ cs) f =
    let r = split_loop-Fits (suc i) (split_char s a) cs (split_char-Fits i s a f) in ground arith

-- On a command of any length, the words and the null pointer behind them fit into the slots that are
-- allocated for pointers, `(len + 2) / 2 + 1`, and the text with the 0 that ends it fits into the `len + 2`
-- bytes that are allocated for it.
pub split_loop_room :
    (command : List ℕ)
    → let len = length command in
      let s = split_loop split_start command in
      (length s.argv + 1 ≤ (len + 2) / 2 + 1) × (length s.temp + 1 ≤ len + 2)
split_loop_room command =
    let f =
      split_loop-Fits 0 split_start command (record { slots = omega arith; chars = omega arith }) in
    ground arith
