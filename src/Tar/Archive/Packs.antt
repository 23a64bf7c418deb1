-- ===== src/Tar/Archive/Packs.antt =====
-- entry.cpp, compress.cpp and decompress.cpp: what is packed into a tar file comes out of it again.
use supertools_public.Common.{
  ℕ, suc, ◌-◌, ◌*◌, ◌%◌, ◌<◌, ◌≡◌, refl, sym, ap, ◌∙◌, Bool, true, false, Option, some, List, [],
  ◌∷◌, ◌++◌, map, length, arith, append_assoc, append-nil, replicate, ltb, ◌==◌, Bool-cases, inl,
  inr, All,
}
use supertools_public.Base.Args.Words.{IsText}
use supertools_public.Tar.Header.{updata_size, updata_file_type, file_type, size_of, get_bytes}
use supertools_public.Tar.Entry.{
  Entry, Stat, Output, put_padding, get_name, new_entry, write_to_tar,
}
use supertools_public.Tar.Entry.Blocks.{name_of-named}
use supertools_public.Tar.Archive.{decompress_to_local, save_entries, save_to_file}
use supertools_public.Tar.Archive.Reads.{padding_of, ltb_ge, ltb_lt}
use supertools_public.Tar.Archive.Items.{
  Item, folder, file, path_of, stat_of, typed, content_of, type_of, header_for, size_of-final,
}
use supertools_public.Tar.Archive.RoundTrip.{
  zeros_of, images, call_of, Unpacks, decompress_to_local-images,
}
use supertools_public.Tar.Archive.Entered.{entry_for, full_path, new_entry-item}

abbrev good : List ℕ → Output
good written = record { written = written; failed = false }

full_block : (r : ℕ) → ltb (512 - r) 512 ≡ false → (512 - r) % 512 ≡ 0
full_block r h = omega (arith, ltb_ge (512 - r) 512 h)

part_block : (r : ℕ) → ltb (512 - r) 512 ≡ true → (512 - r) % 512 ≡ 512 - r
part_block r h = omega (arith, ltb_lt (512 - r) 512 h)

put_padding-good :
    (n : ℕ) (written : List ℕ)
    → put_padding n (good written) ≡ good (written ++ replicate (padding_of n) 0)
put_padding-good n written = elim (Bool-cases (ltb (512 - n % 512) 512)) [
  | inl e ↦ rw (e, part_block (n % 512) e) refl
  | inr e ↦ rw (e, full_block (n % 512) e) (ap good (sym (append-nil written)))
]

-- The bytes of one item, by its block.
abbrev item_bytes : List ℕ → List ℕ → List ℕ
item_bytes block content = block ++ (content ++ replicate (padding_of (length content)) 0)

suc_not_zero : (n : ℕ) → (suc n == 0) ≡ false
suc_not_zero n = ground arith

write_file :
    (load : List ℕ → Option (List ℕ)) (e : Entry) (content written : List ℕ)
    → file_type e.header ≡ 48
    → size_of (get_bytes e.header).0 ≡ length content
    → e.need_size ≡ length content
    → load (get_name e) ≡ some content
    → (write_to_tar load e (good written)).1
      ≡ good (written ++ item_bytes (get_bytes e.header).1 content)
unfolding write_to_tar
write_file load e [] written t s n l =
    rw (t, s) (ap (λ b. good (written ++ b)) (sym (append-nil (get_bytes e.header).1)))
write_file load e (a ∷ content) written t s n l =
    let block = (get_bytes e.header).1 in
    let zeros = replicate (padding_of (suc (length content))) 0 in
    rw (t, s, suc_not_zero (length content), n, l)
      (put_padding-good (suc (length content)) (written ++ block ++ (a ∷ content))
        ∙ ap good (
            append_assoc (written ++ block) (a ∷ content) zeros
            ∙ append_assoc written block ((a ∷ content) ++ zeros)))

write_folder :
    (load : List ℕ → Option (List ℕ)) (e : Entry) (written : List ℕ)
    → file_type e.header ≡ 53
    → (write_to_tar load e (good written)).1
      ≡ good (written ++ item_bytes (get_bytes e.header).1 [])
unfolding write_to_tar
write_folder load e written t =
    rw t (ap (λ b. good (written ++ b)) (sym (append-nil (get_bytes e.header).1)))

file_type-header_for : (i : Item) → file_type (header_for i) ≡ type_of i
unfolding file_type updata_size updata_file_type
file_type-header_for (folder path n) = refl
file_type-header_for (file path content) = refl

-- What is packed is found where it is entered.
abbrev pub Packs : (List ℕ → Option Stat) → (List ℕ → Option (List ℕ)) → List ℕ → Item → Type 0
Packs stat load root i =
    (stat (full_path root i) ≡ some (stat_of i)) × (load (full_path root i) ≡ some (content_of i))

get_name-entry :
    (uninit : ℕ) (root : List ℕ) (i : Item)
    → IsText (path_of i)
    → get_name (entry_for uninit root i) ≡ full_path root i
get_name-entry uninit root i t =
    ap (◌++◌ (root ++ (47 ∷ []))) (name_of-named (path_of i) (typed i) t)

write_item :
    (uninit : ℕ) (load : List ℕ → Option (List ℕ)) (root : List ℕ) (i : Item) (written : List ℕ)
    → load (full_path root i) ≡ some (content_of i)
    → IsText (path_of i)
    → length (content_of i) < 4 * 1024 * 1024 * 1024
    → (write_to_tar load (entry_for uninit root i) (good written)).1
      ≡ good (written ++ item_bytes (get_bytes (header_for i)).1 (content_of i))
unfolding get_bytes
write_item uninit load root (folder path n) written l t k =
    write_folder load (entry_for uninit root (folder path n)) written
      (file_type-header_for (folder path n))
write_item uninit load root (file path content) written l t k =
    let i = file path content in
    write_file load (entry_for uninit root i) content written (file_type-header_for i)
      (size_of-final i k) refl (ap load (get_name-entry uninit root i t) ∙ l)

save_entries-images :
    (uninit : ℕ) (stat : List ℕ → Option Stat) (load : List ℕ → Option (List ℕ))
    (opens creates : List ℕ → Bool) (root dec_path : List ℕ) (is : List Item) (written : List ℕ)
    → All (Packs stat load root) is
    → All (Unpacks opens creates dec_path) is
    → save_entries load (map (λ i. new_entry uninit stat root (full_path root i)) is) (good written)
      ≡ good (written ++ images is)
unfolding save_entries
save_entries-images uninit stat load opens creates root dec_path [] written p u =
    ap good (sym (append-nil written))
save_entries-images uninit stat load opens creates root dec_path (i ∷ is) written p u =
    let (s, l) = p.0 in
    let (t, k, n, o, c) = u.0 in
    let block = (get_bytes (header_for i)).1 in
    let content = content_of i in
    let entries = map (λ j. new_entry uninit stat root (full_path root j)) is in
    ap (λ e. save_entries load entries (write_to_tar load e (good written)).1)
      (new_entry-item uninit stat root i s t k n)
    ∙ ap (save_entries load entries) (write_item uninit load root i written l t n)
    ∙ save_entries-images uninit stat load opens creates root dec_path is
        (written ++ item_bytes block content) p.1 u.1
    ∙ ap good (
        append_assoc written (item_bytes block content) (images is)
        ∙ ap (◌++◌ written) (
            append_assoc block (content ++ zeros_of i) (images is)
            ∙ ap (◌++◌ block) (append_assoc content (zeros_of i) (images is))))

-- Directories and files below a root, each entered with its path, written to a tar file and unpacked below
-- another directory, come out as exactly these directories and files, in order and with the same content; if
-- each is found where it is entered and does not change, each path below the root has at most 198 bytes and no
-- 0, each file is less than 4 GiB, and each of them can be made. `uninit` is a size that is not set.
pub decompress_to_local-save_to_file :
    (uninit : ℕ) (stat : List ℕ → Option Stat) (load : List ℕ → Option (List ℕ))
    (opens creates : List ℕ → Bool) (root dec_path : List ℕ) (is : List Item)
    → All (Packs stat load root) is
    → All (Unpacks opens creates dec_path) is
    → decompress_to_local opens creates dec_path
        (save_to_file load (map (λ i. new_entry uninit stat root (full_path root i)) is))
      ≡ map (call_of dec_path) is
decompress_to_local-save_to_file uninit stat load opens creates root dec_path is p u =
    ap (λ (o : Output). decompress_to_local opens creates dec_path o.written)
      (save_entries-images uninit stat load opens creates root dec_path is [] p u)
    ∙ decompress_to_local-images opens creates dec_path is u
