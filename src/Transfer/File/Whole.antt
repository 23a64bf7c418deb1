-- ===== src/Transfer/File/Whole.antt =====
-- transfer.cpp: the file that arrives.
use supertools_public.Common.{
  ℕ, zero, suc, ◌+◌, ◌-◌, ◌≤◌, ◌<◌, ◌≡◌, refl, sym, ap, ◌∙◌, subst, ◌⊎◌, inl, inr, none, List, [],
  ◌∷◌, arith, ltb, leb, Bool-cases, All, length, get_elem?, take, drop,
}
use supertools_public.Transfer.Block.{Block}
use supertools_public.Transfer.File.{Written, write_block, write_all}

abbrev pub Among : Block → List Block → Type 0
Among b [] = ⊥
Among b (c ∷ cs) = (b ≡ c) ⊎ Among b cs

-- A block of the file.
abbrev pub IsSlice : List ℕ → Block → Type 0
IsSlice file b =
    (b.index + length b.bytes ≤ length file)
    × ((j : ℕ) → j < length b.bytes → get_elem? b.bytes j ≡ get_elem? file (b.index + j))

pub get_elem?-drop : (k j : ℕ) (file : List ℕ) → get_elem? (drop k file) j ≡ get_elem? file (k + j)
get_elem?-drop zero j file = ap (get_elem? file) (omega arith)
get_elem?-drop (suc k) j [] = refl
get_elem?-drop (suc k) j (x ∷ file) =
    let e : suc k + j ≡ suc (k + j) = omega arith in rw e (get_elem?-drop k j file)

pub get_elem?-take : (n j : ℕ) (xs : List ℕ) → j < n → get_elem? (take n xs) j ≡ get_elem? xs j
get_elem?-take zero j xs h = absurd (omega arith)
get_elem?-take (suc n) j [] h = refl
get_elem?-take (suc n) zero (x ∷ xs) h = refl
get_elem?-take (suc n) (suc j) (x ∷ xs) h = get_elem?-take n j xs (omega arith)

get_elem?-none : (i : ℕ) (xs : List ℕ) → length xs ≤ i → get_elem? xs i ≡ none
get_elem?-none i [] h = refl
get_elem?-none zero (x ∷ xs) h = absurd (omega arith)
get_elem?-none (suc i) (x ∷ xs) h = get_elem?-none i xs (omega arith)

abbrev pub Holds : ℕ → Block → Type 0
Holds i b = (b.index ≤ i) × (i < b.index + length b.bytes)

abbrev pub Covers : ℕ → List Block → Type 0
Covers i [] = ⊥
Covers i (b ∷ bs) = Holds i b ⊎ Covers i bs

write_block-Holds :
    (file : List ℕ) (b : Block) (w : Written) (i : ℕ)
    → IsSlice file b
    → Holds i b
    → write_block b w i ≡ get_elem? file i
unfolding write_block
write_block-Holds file b w i s h =
    let at : b.index + (i - b.index) ≡ i = omega (arith, h) in
    let same = s.1 (i - b.index) (omega (arith, h)) ∙ ap (get_elem? file) at in ground arith

write_block_else : (b : Block) (w : Written) (i : ℕ) → ¬ Holds i b → write_block b w i ≡ w i
unfolding write_block
write_block_else b w i h = ground arith

Holds-cases : (i : ℕ) (b : Block) → Holds i b ⊎ (¬ Holds i b)
Holds-cases i b = elim (Bool-cases (leb b.index i)) [
  | inr e ↦ inr (λ h. ground arith)
  | inl e ↦ elim (Bool-cases (ltb i (b.index + length b.bytes))) [
    | inr f ↦ inr (λ h. ground arith)
    | inl f ↦ inl (ground arith, ground arith)
  ]
]

write_all-Covers :
    (file : List ℕ) (ws : List Block) (i : ℕ)
    → All (IsSlice file) ws
    → Covers i ws
    → write_all ws i ≡ get_elem? file i
unfolding write_all
write_all-Covers file [] i s c = absurd c
write_all-Covers file (b ∷ ws) i s c = elim (Holds-cases i b) [
  | inl h ↦ write_block-Holds file b (write_all ws) i s.0 h
  | inr h ↦ write_block_else b (write_all ws) i h ∙ write_all-Covers file ws i s.1 (later c h)
]
  where
    later : Holds i b ⊎ Covers i ws → ¬ Holds i b → Covers i ws
    later (inl h) n = absurd (n h)
    later (inr c) n = c

write_all_outside :
    (file : List ℕ) (ws : List Block) (i : ℕ)
    → All (IsSlice file) ws
    → length file ≤ i
    → write_all ws i ≡ none
unfolding write_all
write_all_outside file [] i s h = refl
write_all_outside file (b ∷ ws) i s h =
    write_block_else b (write_all ws) i (λ w. omega (arith, s.0, w))
    ∙ write_all_outside file ws i s.1 h

-- Writes of the same blocks.
Among-IsSlice :
    (file : List ℕ) (b : Block) (bs : List Block)
    → All (IsSlice file) bs
    → Among b bs
    → IsSlice file b
Among-IsSlice file b [] s a = absurd a
Among-IsSlice file b (c ∷ bs) s (inl e) = subst (IsSlice file) (sym e) s.0
Among-IsSlice file b (c ∷ bs) s (inr a) = Among-IsSlice file b bs s.1 a

All-IsSlice :
    (file : List ℕ) (ws bs : List Block)
    → All (IsSlice file) bs
    → All (λ b. Among b bs) ws
    → All (IsSlice file) ws
All-IsSlice file [] bs s a = tt
All-IsSlice file (b ∷ ws) bs s a = (Among-IsSlice file b bs s a.0, All-IsSlice file ws bs s a.1)

Among-Covers : (i : ℕ) (b : Block) (ws : List Block) → Among b ws → Holds i b → Covers i ws
Among-Covers i b [] a h = absurd a
Among-Covers i b (c ∷ ws) (inl e) h = inl (subst (Holds i) e h)
Among-Covers i b (c ∷ ws) (inr a) h = inr (Among-Covers i b ws a h)

All-Covers : (i : ℕ) (bs ws : List Block) → All (λ b. Among b ws) bs → Covers i bs → Covers i ws
All-Covers i [] ws a c = absurd c
All-Covers i (b ∷ bs) ws a (inl h) = Among-Covers i b ws a.0 h
All-Covers i (b ∷ bs) ws a (inr c) = All-Covers i bs ws a.1 c

-- Blocks that cover a file, in any order and any number of times.
pub write_all-file :
    (file : List ℕ) (bs ws : List Block) (i : ℕ)
    → All (IsSlice file) bs
    → ((k : ℕ) → k < length file → Covers k bs)
    → All (λ b. Among b bs) ws
    → All (λ b. Among b ws) bs
    → write_all ws i ≡ get_elem? file i
write_all-file file bs ws i s c a d = elim (Bool-cases (ltb i (length file))) [
  | inl e ↦
      write_all-Covers file ws i (All-IsSlice file ws bs s a)
        (All-Covers i bs ws d (c i (ground arith)))
  | inr e ↦
      write_all_outside file ws i (All-IsSlice file ws bs s a) (ground arith)
      ∙ sym (get_elem?-none i file (ground arith))
]
