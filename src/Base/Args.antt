-- ===== src/Base/Args.antt =====
-- base.cpp: `SplitCommandToArgs`, the words of a command line.
--
-- `temp` is what has been written of the text area, so `j` is its length, and `argv` the offsets in it that
-- stand for pointers. The command is the list of its characters before the 0 that ends it; allocation
-- succeeds.
pub mod Words
pub mod Bounds
pub mod Quote
use supertools_public.Common.{
  ℕ, Bool, true, false, ◌||◌, Option, none, some, List, [], ◌∷◌, ◌++◌, map, ◌==◌, if◌then◌else◌,
  length, drop,
}

pub record Split : Type 0 where
  pub temp : List ℕ
  pub argv : List ℕ
  pub is_quoted : Bool
  pub is_text : Bool
  pub is_space : Bool

abbrev pub quote : ℕ
quote = b'"'

abbrev pub is_blank : ℕ → Bool
is_blank a = a == b' ' || (a == b'\t' || (a == b'\n' || a == b'\r'))

-- `if (isSpace) { argv[argc] = temp + j; ++argc; }`.
abbrev pub open_arg : Split → List ℕ
open_arg s = if s.is_space then s.argv ++ (length s.temp ∷ []) else s.argv

unfoldable pub split_char : Split → ℕ → Split
split_char s a =
    if s.is_quoted
    then (if a == quote
        then record s { is_quoted = false }
        else record s { temp = s.temp ++ (a ∷ []) })
    else if a == quote
    then record s { is_quoted = true; is_text = true; argv = open_arg s; is_space = false }
    else if is_blank a
    then record s {
      temp = if s.is_text then s.temp ++ (0 ∷ []) else s.temp;
      is_text = false;
      is_space = true;
    }
    else record s { is_text = true; argv = open_arg s; temp = s.temp ++ (a ∷ []); is_space = false }

unfoldable pub split_loop : Split → List ℕ → Split
split_loop s [] = s
split_loop s (a ∷ cs) = split_loop (split_char s a) cs

abbrev pub split_start : Split
split_start = record { temp = []; argv = []; is_quoted = false; is_text = false; is_space = true }

-- The C string at the front of a memory.
abbrev pub c_str : List ℕ → List ℕ
c_str [] = []
c_str (b ∷ bs) = let rest = c_str bs in if b == 0 then [] else b ∷ rest

-- The strings that `argv` points to, once `temp[j] = '\0'` is written.
abbrev pub args_of : Split → List (List ℕ)
args_of s = map (λ at. c_str (drop at (s.temp ++ (0 ∷ [])))) s.argv

-- None stands for the null pointer.
unfoldable pub split_command_to_args : List ℕ → Option (List (List ℕ))
unfolding split_loop
split_command_to_args [] = none
split_command_to_args (a ∷ cs) = some (args_of (split_loop split_start (a ∷ cs)))
