-- ===== src/Base/Args/Words.antt =====
-- base.cpp: `SplitCommandToArgs` and the words of a command line cs lists.
use supertools_public.Common.{
  ℕ, suc, ◌+◌, ◌≡◌, refl, sym, ap, ap₂, ◌∙◌, ◌≢◌, inl, inr, Bool, true, false, not, Option, none,
  some, List, [], ◌∷◌, ◌++◌, map, append-nil, append_assoc, arith, ◌==◌, if◌then◌else◌, Bool-cases,
  All, All-append, length, drop, length-append, drop_prefix,
}
use supertools_public.Base.Args.{
  Split, quote, is_blank, split_char, split_loop, split_start, c_str, args_of, open_arg,
  split_command_to_args,
}

-- The characters of the word that is being read, if one is.
abbrev pub word : Option (List ℕ) → List ℕ
word none = []
word (some w) = w

abbrev pub closed : Option (List ℕ) → List (List ℕ)
closed none = []
closed (some w) = w ∷ []

-- The words of what is left, in or out of quotes: a quote opens and closes, and opens a word too; a blank
-- ends a word outside of quotes; any other character belongs to the word.
unfoldable pub words : Bool → Option (List ℕ) → List ℕ → List (List ℕ)
words quoted cur [] = closed cur
words true cur (a ∷ cs) =
    let out = words false cur cs in
    let more = words true (some (word cur ++ (a ∷ []))) cs in if a == quote then out else more
words false cur (a ∷ cs) =
    let opened = words true (some (word cur)) cs in
    let next = words false none cs in
    let more = words false (some (word cur ++ (a ∷ []))) cs in
    if a == quote then opened else if is_blank a then closed cur ++ next else more

abbrev pub IsText : List ℕ → Type 0
IsText = All (λ a. a ≢ 0)

-- The words that are done, in memory, and where they start.
abbrev flat : List (List ℕ) → List ℕ
flat [] = []
flat (w ∷ ws) = w ++ (0 ∷ flat ws)

abbrev offsets : ℕ → List (List ℕ) → List ℕ
offsets k [] = []
offsets k (w ∷ ws) = k ∷ offsets (k + suc (length w)) ws

flat-append : (ws : List (List ℕ)) (w : List ℕ) → flat (ws ++ (w ∷ [])) ≡ flat ws ++ (w ++ (0 ∷ []))
flat-append [] w = refl
flat-append (v ∷ ws) w = rw (flat-append ws w) (cc (append_assoc v (0 ∷ flat ws) (w ++ (0 ∷ []))))

offsets-append :
    (k : ℕ) (ws : List (List ℕ)) (w : List ℕ)
    → offsets k (ws ++ (w ∷ [])) ≡ offsets k ws ++ ((k + length (flat ws)) ∷ [])
offsets-append k [] w = ap (λ n. n ∷ []) (omega arith)
offsets-append k (v ∷ ws) w = ap (◌∷◌ k) (
    offsets-append (k + suc (length v)) ws w
    ∙ ap (λ n. offsets (k + suc (length v)) ws ++ (n ∷ []))
        (omega (arith, length-append v (0 ∷ flat ws))))

offsets_next :
    (ws : List (List ℕ)) (w : List ℕ)
    → offsets 0 ws ++ (length (flat ws) ∷ []) ≡ offsets 0 (ws ++ (w ∷ []))
offsets_next ws w = ap (λ n. offsets 0 ws ++ (n ∷ [])) (omega arith) ∙ sym (offsets-append 0 ws w)

pub c_str-append : (w rest : List ℕ) → IsText w → c_str (w ++ (0 ∷ rest)) ≡ w
c_str-append [] rest t = refl
c_str-append (a ∷ w) rest t = ground (arith, c_str-append w rest t.1)

-- The words in memory, and any bytes behind them, are read back at their offsets.
read_back :
    (m before rest : List ℕ) (k : ℕ) (ws : List (List ℕ))
    → All IsText ws
    → m ≡ before ++ (flat ws ++ rest)
    → k ≡ length before
    → map (λ at. c_str (drop at m)) (offsets k ws) ≡ ws
read_back m before rest k [] t e h = refl
read_back m before rest k (w ∷ ws) t e h =
    let next : m ≡ (before ++ (w ++ (0 ∷ []))) ++ (flat ws ++ rest) = cc (
      e,
      append_assoc w (0 ∷ flat ws) rest,
      append_assoc before (w ++ (0 ∷ [])) (flat ws ++ rest),
      append_assoc w (0 ∷ []) (flat ws ++ rest),
    ) in
    let here : c_str (drop k m) ≡ w =
      ap c_str (
        ap (drop k) e
        ∙ drop_prefix k before ((w ++ (0 ∷ flat ws)) ++ rest) h
        ∙ append_assoc w (0 ∷ flat ws) rest)
      ∙ c_str-append w (flat ws ++ rest) t.0 in
    ap₂ (λ (x : List ℕ) (xs : List (List ℕ)). x ∷ xs) here
      (read_back m (before ++ (w ++ (0 ∷ []))) rest (k + suc (length w)) ws t.1 next
        (omega (arith, h, length-append before (w ++ (0 ∷ [])), length-append w (0 ∷ []))))

abbrev is_none : Option (List ℕ) → Bool
is_none none = true
is_none (some w) = false

abbrev start_of : ℕ → Option (List ℕ) → List ℕ
start_of k none = []
start_of k (some w) = k ∷ []

-- The loop stands in a state that the finished words and the word being read describe.
record Stands (done : List (List ℕ)) (cur : Option (List ℕ)) (quoted : Bool) (s : Split)
    : Type 0 where
  temp : s.temp ≡ flat done ++ word cur
  argv : s.argv ≡ offsets 0 done ++ start_of (length (flat done)) cur
  opened : quoted ≡ true → is_none cur ≡ false
  in_quotes : s.is_quoted ≡ quoted
  space : s.is_space ≡ is_none cur
  text : s.is_text ≡ not (is_none cur)
  texts : All IsText done
  word_text : IsText (word cur)

-- At the end.
args_of_lem :
    (done : List (List ℕ)) (cur : Option (List ℕ)) (quoted : Bool) (s : Split)
    → Stands done cur quoted s
    → args_of s ≡ done ++ closed cur
args_of_lem done none quoted s st =
    rw (st.temp, st.argv, append-nil (offsets 0 done), append-nil done, append-nil (flat done))
      (read_back (flat done ++ (0 ∷ [])) [] (0 ∷ []) 0 done st.texts refl refl)
args_of_lem done (some w) quoted s st =
    rw (st.temp, st.argv ∙ offsets_next done w)
      (read_back ((flat done ++ w) ++ (0 ∷ [])) [] [] 0 (done ++ (w ∷ []))
        (All-append IsText done (w ∷ []) st.texts (st.word_text, tt))
        (cc (
          append_assoc (flat done) w (0 ∷ []),
          flat-append done w,
          append-nil (flat (done ++ (w ∷ []))),
        ))
        refl)

open_arg_lem :
    (done : List (List ℕ)) (cur : Option (List ℕ)) (quoted : Bool) (s : Split)
    → Stands done cur quoted s
    → open_arg s ≡ offsets 0 done ++ (length (flat done) ∷ [])
open_arg_lem done none quoted s st =
    rw (st.space, st.argv, st.temp, append-nil (offsets 0 done), append-nil (flat done)) refl
open_arg_lem done (some w) quoted s st = rw (st.space, st.argv) refl

-- The state `t` behind a character that belongs to the word, one that opens a word, and one that ends it.
pushes :
    (done : List (List ℕ)) (cur : Option (List ℕ)) (quoted quoted' : Bool) (s t : Split) (a : ℕ)
    → Stands done cur quoted s
    → a ≢ 0
    → t.temp ≡ s.temp ++ (a ∷ [])
    → t.argv ≡ open_arg s
    → t.is_quoted ≡ quoted'
    → t.is_space ≡ false
    → t.is_text ≡ true
    → Stands done (some (word cur ++ (a ∷ []))) quoted' t
pushes done cur quoted quoted' s t a st h e f q sp tx = record {
  temp = e ∙ rw st.temp (append_assoc (flat done) (word cur) (a ∷ []));
  argv = f ∙ open_arg_lem done cur quoted s st;
  opened = λ p. refl;
  in_quotes = q;
  space = sp;
  text = tx;
  texts = st.texts;
  word_text = All-append (λ x. x ≢ 0) (word cur) (a ∷ []) st.word_text (h, tt);
}

opens :
    (done : List (List ℕ)) (cur : Option (List ℕ)) (quoted : Bool) (s t : Split)
    → Stands done cur quoted s
    → t.temp ≡ s.temp
    → t.argv ≡ open_arg s
    → t.is_quoted ≡ true
    → t.is_space ≡ false
    → t.is_text ≡ true
    → Stands done (some (word cur)) true t
opens done cur quoted s t st e f q sp tx = record {
  temp = e ∙ st.temp;
  argv = f ∙ open_arg_lem done cur quoted s st;
  opened = λ p. refl;
  in_quotes = q;
  space = sp;
  text = tx;
  texts = st.texts;
  word_text = st.word_text;
}

ends :
    (done : List (List ℕ)) (cur : Option (List ℕ)) (quoted : Bool) (s t : Split)
    → Stands done cur quoted s
    → t.temp ≡ (if s.is_text then s.temp ++ (0 ∷ []) else s.temp)
    → t.argv ≡ s.argv
    → t.is_quoted ≡ false
    → t.is_space ≡ true
    → t.is_text ≡ false
    → Stands (done ++ closed cur) none false t
ends done none quoted s t st e f q sp tx = rw (append-nil done) (record {
  temp = e ∙ rw st.text st.temp;
  argv = f ∙ st.argv;
  opened = λ p. cc;
  in_quotes = q;
  space = sp;
  text = tx;
  texts = st.texts;
  word_text = tt;
})
ends done (some w) quoted s t st e f q sp tx = record {
  temp =
      e
      ∙ rw (st.text, st.temp)
          (cc (
            append_assoc (flat done) w (0 ∷ []),
            flat-append done w,
            append-nil (flat (done ++ (w ∷ []))),
          ));
  argv = f ∙ st.argv ∙ offsets_next done w ∙ sym (append-nil (offsets 0 (done ++ (w ∷ []))));
  opened = λ p. cc;
  in_quotes = q;
  space = sp;
  text = tx;
  texts = All-append IsText done (w ∷ []) st.texts (st.word_text, tt);
  word_text = tt;
}

-- A closing quote.
unquotes :
    (done : List (List ℕ)) (cur : Option (List ℕ)) (s t : Split)
    → Stands done cur true s
    → t.temp ≡ s.temp
    → t.argv ≡ s.argv
    → t.is_quoted ≡ false
    → t.is_space ≡ s.is_space
    → t.is_text ≡ s.is_text
    → Stands done cur false t
unquotes done cur s t st e f q sp tx = record {
  temp = e ∙ st.temp;
  argv = f ∙ st.argv;
  opened = λ p. cc;
  in_quotes = q;
  space = sp ∙ st.space;
  text = tx ∙ st.text;
  texts = st.texts;
  word_text = st.word_text;
}

-- What each kind of character does, in quotes and out of them.
quoted_ends :
    (done : List (List ℕ)) (cur : Option (List ℕ)) (s : Split) (a : ℕ)
    → Stands done cur true s
    → (a == quote) ≡ true
    → Stands done cur false (split_char s a)
unfolding split_char
quoted_ends done cur s a st e =
    unquotes done cur s (split_char s a) st (ground arith) (ground arith) (ground arith)
      (ground arith) (ground arith)

quoted_pushes :
    (done : List (List ℕ)) (cur : Option (List ℕ)) (s : Split) (a : ℕ)
    → Stands done cur true s
    → a ≢ 0
    → (a == quote) ≡ false
    → Stands done (some (word cur ++ (a ∷ []))) true (split_char s a)
unfolding split_char
quoted_pushes done cur s a st h e =
    let o = st.opened refl in
    pushes done cur true true s (split_char s a) a st h (ground arith) (ground arith) (ground arith)
      (ground arith) (ground arith)

plain_opens :
    (done : List (List ℕ)) (cur : Option (List ℕ)) (s : Split) (a : ℕ)
    → Stands done cur false s
    → (a == quote) ≡ true
    → Stands done (some (word cur)) true (split_char s a)
unfolding split_char
plain_opens done cur s a st e =
    opens done cur false s (split_char s a) st (ground arith) (ground arith) (ground arith)
      (ground arith) (ground arith)

plain_ends :
    (done : List (List ℕ)) (cur : Option (List ℕ)) (s : Split) (a : ℕ)
    → Stands done cur false s
    → (a == quote) ≡ false
    → is_blank a ≡ true
    → Stands (done ++ closed cur) none false (split_char s a)
unfolding split_char
plain_ends done cur s a st e b =
    ends done cur false s (split_char s a) st (rw (st.in_quotes, e, b) refl)
      (rw (st.in_quotes, e, b) refl) (rw (st.in_quotes, e, b) refl) (rw (st.in_quotes, e, b) refl)
      (rw (st.in_quotes, e, b) refl)

plain_pushes :
    (done : List (List ℕ)) (cur : Option (List ℕ)) (s : Split) (a : ℕ)
    → Stands done cur false s
    → a ≢ 0
    → (a == quote) ≡ false
    → is_blank a ≡ false
    → Stands done (some (word cur ++ (a ∷ []))) false (split_char s a)
unfolding split_char
plain_pushes done cur s a st h e b =
    pushes done cur false false s (split_char s a) a st h (rw (st.in_quotes, e, b) refl)
      (rw (st.in_quotes, e, b) refl) (rw (st.in_quotes, e, b) refl) (rw (st.in_quotes, e, b) refl)
      (rw (st.in_quotes, e, b) refl)

split_loop-words :
    (done : List (List ℕ)) (cur : Option (List ℕ)) (quoted : Bool) (s : Split) (cs : List ℕ)
    → Stands done cur quoted s
    → IsText cs
    → args_of (split_loop s cs) ≡ done ++ words quoted cur cs
unfolding split_loop words
split_loop-words done cur true s [] st t = args_of_lem done cur true s st
split_loop-words done cur false s [] st t = args_of_lem done cur false s st
split_loop-words done cur true s (a ∷ cs) st t = elim (Bool-cases (a == quote)) [
  | inl e ↦
      split_loop-words done cur false (split_char s a) cs (quoted_ends done cur s a st e) t.1
      ∙ rw e refl
  | inr e ↦
      split_loop-words done (some (word cur ++ (a ∷ []))) true (split_char s a) cs
        (quoted_pushes done cur s a st t.0 e) t.1
      ∙ rw e refl
]
split_loop-words done cur false s (a ∷ cs) st t = elim (Bool-cases (a == quote)) [
  | inl e ↦
      split_loop-words done (some (word cur)) true (split_char s a) cs
        (plain_opens done cur s a st e) t.1
      ∙ rw e refl
  | inr e ↦ elim (Bool-cases (is_blank a)) [
    | inl b ↦
        split_loop-words (done ++ closed cur) none false (split_char s a) cs
          (plain_ends done cur s a st e b) t.1
        ∙ append_assoc done (closed cur) (words false none cs)
        ∙ rw (e, b) refl
    | inr b ↦
        split_loop-words done (some (word cur ++ (a ∷ []))) false (split_char s a) cs
          (plain_pushes done cur s a st t.0 e b) t.1
        ∙ rw (e, b) refl
  ]
]

-- On a command that is not empty and has no 0 in it, `SplitCommandToArgs` gives the words that the list of
-- its characters has by the rule for quotes and blanks: what it writes into the text area and the pointers
-- that it sets are those words.
pub split_command_to_args-words :
    (a : ℕ) (cs : List ℕ)
    → a ≢ 0
    → All (λ c. c ≢ 0) cs
    → split_command_to_args (a ∷ cs) ≡ some (words false none (a ∷ cs))
unfolding split_command_to_args
split_command_to_args-words a cs h t =
    ap some (split_loop-words [] none false split_start (a ∷ cs) start (h, t))
  where
    start : Stands [] none false split_start
    start = record {
      temp = refl;
      argv = refl;
      opened = λ p. cc;
      in_quotes = refl;
      space = refl;
      text = refl;
      texts = tt;
      word_text = tt;
    }
