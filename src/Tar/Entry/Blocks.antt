-- ===== src/Tar/Entry/Blocks.antt =====
-- header.cpp: a block read back as the header it was made of, and the names in it.
use supertools_public.Common.{
  ℕ, zero, suc, ◌+◌, ◌-◌, ◌≤◌, ◌<◌, ◌≡◌, refl, sym, ap, ap₂, ◌∙◌, List, [], ◌∷◌, ◌++◌, map, length,
  take, drop, arith, append_assoc, append-nil, take_prefix, drop_prefix, length-append, length-take,
  length-drop, length-replicate, take_all, take-append-drop, replicate, ltb, leb, true, false,
  Bool-cases, inl, inr,
}
use supertools_public.Base.Args.{c_str}
use supertools_public.Base.Args.Words.{IsText, c_str-append}
use supertools_public.Tar.Header.{Header, sum, bytes_of, print_s}
use supertools_public.Tar.Entry.{field_lens, cut, header_of_fields, header_of, name_of, updata_name}

abbrev join : List (List ℕ) → List ℕ
join [] = []
join (x ∷ xs) = x ++ join xs

cut-join : (xs : List (List ℕ)) → cut (map length xs) (join xs) ≡ xs
cut-join [] = refl
cut-join (x ∷ xs) =
    rw (take_prefix (length x) x (join xs) refl, drop_prefix (length x) x (join xs) refl)
      (ap (◌∷◌ x) (cut-join xs))

abbrev fields : Header → List (List ℕ)
fields h =
    h.name
    ∷ h.mode
    ∷ h.uid
    ∷ h.gid
    ∷ h.size
    ∷ h.mtime
    ∷ h.chksum
    ∷ (h.typeflage ∷ [])
    ∷ h.linkname
    ∷ h.magic
    ∷ h.version
    ∷ h.uname
    ∷ h.gname
    ∷ h.devmajor
    ∷ h.devminor
    ∷ h.prefix
    ∷ h.pad
    ∷ []

-- Each field has the size of its array.
abbrev pub Sized : Header → Type 0
Sized h = map length (fields h) ≡ field_lens

bytes_of-join : (h : Header) → bytes_of h ≡ join (fields h)
bytes_of-join h = simp (append_assoc, append-nil)

length-join : (xs : List (List ℕ)) → length (join xs) ≡ sum (map length xs)
length-join [] = refl
length-join (x ∷ xs) = omega (arith, length-append x (join xs), length-join xs)

pub block-length : (h : Header) → Sized h → length (bytes_of h) ≡ 512
block-length h s = ap length (bytes_of-join h) ∙ length-join (fields h) ∙ ap sum s

pub header_of-bytes_of : (h : Header) → Sized h → header_of (bytes_of h) ≡ h
unfolding header_of
header_of-bytes_of h s = ap header_of_fields (
    ap (cut field_lens) (bytes_of-join h)
    ∙ ap (λ ns. cut ns (join (fields h))) (sym s)
    ∙ cut-join (fields h))

pub length-print_s :
    (count : ℕ) (field str : List ℕ)
    → count < length field
    → length (print_s field count str) ≡ length field
length-print_s count field str h = omega (
  arith,
  length-append (take count str) (0 ∷ drop (length (take count str) + 1) field),
  length-take count str,
  length-drop (length (take count str) + 1) field,
)

c_str_text : (w : List ℕ) → IsText w → c_str w ≡ w
c_str_text [] t = refl
c_str_text (a ∷ w) t = ground (arith, c_str_text w t.1)

-- The two parts of a name.
abbrev pub prefix_part : List ℕ → List ℕ
prefix_part path = take (length path - 99) path

abbrev pub name_part : List ℕ → List ℕ
name_part path = drop (length path - 99) path

abbrev pub zeroed : ℕ → List ℕ → List ℕ
zeroed k w = w ++ (0 ∷ drop (length w + 1) (replicate k 0))

-- A header with the name of a path.
abbrev pub named : List ℕ → Header → Header
named path h = record h {
  name = zeroed 100 (name_part path);
  prefix = zeroed 155 (prefix_part path);
}

abbrev pub unnamed : Header → Header
unnamed h = record h { name = replicate 100 0; prefix = replicate 155 0 }

All-take : (n : ℕ) (w : List ℕ) → IsText w → IsText (take n w)
All-take zero w t = tt
All-take (suc n) [] t = tt
All-take (suc n) (a ∷ w) t = (t.0, All-take n w t.1)

All-drop : (n : ℕ) (w : List ℕ) → IsText w → IsText (drop n w)
All-drop zero w t = t
All-drop (suc n) [] t = tt
All-drop (suc n) (a ∷ w) t = All-drop n w t.1

c_str-zeroed : (k : ℕ) (w tail : List ℕ) → IsText w → c_str (zeroed k w ++ tail) ≡ w
c_str-zeroed k w tail t =
    ap c_str (append_assoc w (0 ∷ drop (length w + 1) (replicate k 0)) tail)
    ∙ c_str-append w (drop (length w + 1) (replicate k 0) ++ tail) t

print_s-zeroed :
    (k : ℕ) (w : List ℕ)
    → IsText w
    → length w ≤ 99
    → print_s (replicate k 0) 99 (c_str w) ≡ zeroed k w
print_s-zeroed k w t l = rw (c_str_text w t, take_all 99 w l) refl

length-zeroed : (k : ℕ) (w : List ℕ) → length w < k → length (zeroed k w) ≡ k
length-zeroed k w l = omega (
  arith,
  length-append w (0 ∷ drop (length w + 1) (replicate k 0)),
  length-drop {A = ℕ} (length w + 1) (replicate k 0),
  length-replicate {A = ℕ} k 0,
)

pub name_of-named : (path : List ℕ) (h : Header) → IsText path → name_of (named path h) ≡ path
unfolding name_of
name_of-named path h t =
    ap₂ ◌++◌ (c_str-zeroed 155 (prefix_part path) h.pad (All-take (length path - 99) path t)) (
      ap c_str (bytes_of-join (named path h))
      ∙ c_str-zeroed 100 (name_part path) (join (drop 1 (fields (named path h))))
          (All-drop (length path - 99) path t))
    ∙ take-append-drop (length path - 99) path

name_of_length : (path : List ℕ) → length (name_part path) ≤ 99
name_of_length path = omega (arith, length-drop (length path - 99) path)

prefix_length : (path : List ℕ) → length path ≤ 198 → length (prefix_part path) ≤ 99
prefix_length path l = omega (arith, length-take (length path - 99) path)

-- A short name leaves the prefix as it is.
short_name :
    (path : List ℕ) (h : Header)
    → IsText path
    → length path < 100
    → record (unnamed h) { name = print_s (replicate 100 0) 99 (c_str path) } ≡ named path h
short_name path h t l =
    let z : length path - 99 ≡ 0 = omega arith in
    rw (z, print_s-zeroed 100 path t (omega arith)) refl

ltb_cases : (path : List ℕ) → length path ≤ 198 → leb 255 (length path) ≡ false
ltb_cases path l = ground arith

pub updata_name-named :
    (path : List ℕ) (h : Header)
    → IsText path
    → length path ≤ 198
    → updata_name path (unnamed h) ≡ (true, named path h)
unfolding updata_name
updata_name-named path h t l =
    let name =
      print_s-zeroed 100 (name_part path) (All-drop (length path - 99) path t)
        (name_of_length path) in
    elim (Bool-cases (ltb (length path) 100)) [
      | inl e ↦ rw (ltb_cases path l, e) (ap (λ k. (true, k)) (short_name path h t (ground arith)))
      | inr e ↦
          let prefix =
            print_s-zeroed 155 (prefix_part path) (All-take (length path - 99) path t)
              (prefix_length path l) in
          rw (ltb_cases path l, e, name, prefix) refl
    ]

pub Sized-named :
    (path : List ℕ) (h : Header) → length path ≤ 198 → Sized (unnamed h) → Sized (named path h)
Sized-named path h l s =
    let n = length-zeroed 100 (name_part path) (omega (arith, name_of_length path)) in
    let p = length-zeroed 155 (prefix_part path) (omega (arith, prefix_length path l)) in
    rw (n, p) s
