-- ===== src/Base/Args/Quote.antt =====
-- base.cpp: `SplitCommandToArgs` on words in quotes.
use supertools_public.Common.{
  ℕ, ◌≡◌, refl, sym, ap, ◌∙◌, ◌≢◌, true, false, none, some, List, [], ◌∷◌, ◌++◌, append-nil,
  append_assoc, arith, ==_ne, All, All-append,
}
use supertools_public.Base.Args.{quote, split_command_to_args}
use supertools_public.Base.Args.Words.{words, split_command_to_args-words}

-- A word can stand in quotes: it has no quote and no 0.
abbrev pub IsPlain : List ℕ → Type 0
IsPlain = All (λ a. (a ≢ quote) × (a ≢ 0))

-- Each word in quotes, and a blank behind it.
abbrev pub quote_all : List (List ℕ) → List ℕ
quote_all [] = []
quote_all (w ∷ ws) = quote ∷ (w ++ (quote ∷ b' ' ∷ quote_all ws))

words_inside :
    (u w rest : List ℕ)
    → IsPlain w
    → words true (some u) (w ++ (quote ∷ rest)) ≡ words false (some (u ++ w)) rest
unfolding words
words_inside u [] rest p = ap (λ v. words false (some v) rest) (sym (append-nil u))
words_inside u (a ∷ w) rest p = rw (==_ne a quote p.0.0) (
    words_inside (u ++ (a ∷ [])) w rest p.1
    ∙ ap (λ v. words false (some v) rest) (append_assoc u (a ∷ []) w))

words-quote_all : (ws : List (List ℕ)) → All IsPlain ws → words false none (quote_all ws) ≡ ws
unfolding words
words-quote_all [] p = refl
words-quote_all (w ∷ ws) p =
    words_inside [] w (b' ' ∷ quote_all ws) p.0 ∙ ap (◌∷◌ w) (words-quote_all ws p.1)

quote_all_text : (ws : List (List ℕ)) → All IsPlain ws → All (λ c. c ≢ 0) (quote_all ws)
quote_all_text [] p = tt
quote_all_text (w ∷ ws) p = (
  omega arith,
  All-append (λ c. c ≢ 0) w (quote ∷ b' ' ∷ quote_all ws) (plain w p.0)
      (omega arith, (omega arith, quote_all_text ws p.1)),
)
  where
    plain : (v : List ℕ) → IsPlain v → All (λ c. c ≢ 0) v
    plain [] q = tt
    plain (a ∷ v) q = (q.0.1, plain v q.1)

-- Any words without a quote and without a 0, also empty ones and ones with blanks, come back from a
-- command that has each of them in quotes.
pub split_command_to_args-quote_all :
    (w : List ℕ) (ws : List (List ℕ))
    → IsPlain w
    → All IsPlain ws
    → split_command_to_args (quote_all (w ∷ ws)) ≡ some (w ∷ ws)
split_command_to_args-quote_all w ws h p =
    split_command_to_args-words quote (w ++ (quote ∷ b' ' ∷ quote_all ws)) (omega arith)
      (quote_all_text (w ∷ ws) (h, p)).1
    ∙ ap some (words-quote_all (w ∷ ws) (h, p))
