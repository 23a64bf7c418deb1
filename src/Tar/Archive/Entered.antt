-- ===== src/Tar/Archive/Entered.antt =====
-- entry.cpp: the entries of directories and files, made from their paths.
use supertools_public.Common.{
  ℕ, ◌*◌, ◌≤◌, ◌<◌, ◌≡◌, refl, ap, ◌∙◌, Bool, true, false, Option, some, List, [], ◌∷◌, ◌++◌,
  length, arith, take_prefix, drop_prefix, length-append, ltb, ◌==◌, str_eq_self,
}
use supertools_public.Base.Args.Words.{IsText}
use supertools_public.Tar.Header.{Header, blank_header, updata_size, updata_file_type}
use supertools_public.Tar.Entry.{
  Entry, Stat, updata_name, strip_prefix, entry_updata_name, entry_stat, new_entry,
}
use supertools_public.Tar.Entry.Blocks.{unnamed, updata_name-named}
use supertools_public.Tar.Archive.Items.{
  Item, folder, file, path_of, stat_of, typed, content_of, header_for,
}

abbrev pub need_of : ℕ → Item → ℕ
need_of uninit (folder path n) = uninit
need_of uninit (file path content) = length content

abbrev pub entry_for : ℕ → List ℕ → Item → Entry
entry_for uninit root i = record {
  header = header_for i;
  need_size = need_of uninit i;
  prefix = root ++ (47 ∷ []);
}

strip_prefix-below : (pre path : List ℕ) → strip_prefix (pre ++ path) pre ≡ some path
unfolding strip_prefix
strip_prefix-below pre path =
    rw
      (
        take_prefix (length pre) pre path refl,
        drop_prefix (length pre) pre path refl,
        str_eq_self pre,
      )
      refl

limit : (n : ℕ) → n < 4 * 1024 * 1024 * 1024 → ltb n (4 * 1024 * 1024 * 1024) ≡ true
limit n h = ground arith

stat_entry :
    (uninit : ℕ) (root : List ℕ) (i : Item)
    → length (content_of i) < 4 * 1024 * 1024 * 1024
    → entry_stat
        (some (stat_of i))
        (record { header = blank_header; need_size = uninit; prefix = root ++ (47 ∷ []) })
      ≡ record (entry_for uninit root i) { header = unnamed (typed i) }
unfolding entry_stat updata_size updata_file_type
stat_entry uninit root (folder path n) l = refl
stat_entry uninit root (file path content) l = rw (limit (length content) l) refl

-- `UpdataName` of an entry whose prefix its path begins with.
entry_updata_name-stripped :
    (name path : List ℕ) (e : Entry)
    → (length e.prefix == 0) ≡ false
    → strip_prefix name e.prefix ≡ some path
    → entry_updata_name name e ≡ record e { header = (updata_name path e.header).1 }
unfolding entry_updata_name
entry_updata_name-stripped name path e n s = rw (n, s) refl

prefix_not_empty : (root : List ℕ) → (length (root ++ (47 ∷ [])) == 0) ≡ false
prefix_not_empty root = ground (arith, length-append root (47 ∷ []))

abbrev pub full_path : List ℕ → Item → List ℕ
full_path root i = root ++ (47 ∷ []) ++ path_of i

name_entry :
    (uninit : ℕ) (root : List ℕ) (i : Item)
    → IsText (path_of i)
    → length (path_of i) ≤ 198
    → entry_updata_name
        (full_path root i)
        (record (entry_for uninit root i) { header = unnamed (typed i) })
      ≡ entry_for uninit root i
name_entry uninit root i t l =
    entry_updata_name-stripped (full_path root i) (path_of i)
      (record (entry_for uninit root i) { header = unnamed (typed i) }) (prefix_not_empty root)
      (strip_prefix-below (root ++ (47 ∷ [])) (path_of i))
    ∙ ap (λ (r : Bool × Header). record (entry_for uninit root i) { header = r.1 })
        (updata_name-named (path_of i) (typed i) t l)

pub new_entry-item :
    (uninit : ℕ) (stat : List ℕ → Option Stat) (root : List ℕ) (i : Item)
    → stat (full_path root i) ≡ some (stat_of i)
    → IsText (path_of i)
    → length (path_of i) ≤ 198
    → length (content_of i) < 4 * 1024 * 1024 * 1024
    → new_entry uninit stat root (full_path root i) ≡ entry_for uninit root i
unfolding new_entry
new_entry-item uninit stat root i e t l n =
    ap
      (λ o. entry_updata_name (full_path root i) (
        entry_stat o
          (record { header = blank_header; need_size = uninit; prefix = root ++ (47 ∷ []) })))
      e
    ∙ ap (entry_updata_name (full_path root i)) (stat_entry uninit root i n)
    ∙ name_entry uninit root i t l
