-- ===== src/Tar/Archive/Items.antt =====
-- header.cpp and entry.cpp: the headers of directories and files, and what is read from them.
use supertools_public.Common.{
  ℕ, ◌+◌, ◌*◌, ◌≤◌, ◌<◌, ◌≡◌, refl, ap, ◌∙◌, true, false, List, [], length, arith, replicate,
}
use supertools_public.Base.Args.Words.{IsText}
use supertools_public.Tar.Header.{
  Header, blank_header, bytes_of, updata_size, updata_file_type, file_type, size_of,
  updata_check_sum, decimal_to_octal_string, sum,
}
use supertools_public.Tar.Header.Octal.{size_of-updata_size}
use supertools_public.Tar.Entry.{Stat, name_of, entry_of}
use supertools_public.Tar.Entry.Blocks.{
  Sized, header_of-bytes_of, length-print_s, named, unnamed, name_of-named, Sized-named,
}

-- A directory with its size, or a file with its content, by the path in the tar file.
pub data Item : Type 0 where
  folder : List ℕ → ℕ → Item
  file : List ℕ → List ℕ → Item

abbrev pub path_of : Item → List ℕ
path_of (folder path n) = path
path_of (file path content) = path

abbrev pub stat_of : Item → Stat
stat_of (folder path n) = record { is_dir = true; is_reg = false; st_size = n }
stat_of (file path content) = record { is_dir = false; is_reg = true; st_size = length content }

-- The header before the name is set.
abbrev pub typed : Item → Header
typed (folder path n) = updata_size 0 (updata_file_type 53 blank_header)
typed (file path content) = updata_file_type 48 (updata_size (length content) blank_header)

abbrev pub content_of : Item → List ℕ
content_of (folder path n) = []
content_of (file path content) = content

abbrev pub type_of : Item → ℕ
type_of (folder path n) = 53
type_of (file path content) = 48

abbrev pub header_for : Item → Header
header_for i = named (path_of i) (typed i)

abbrev pub final : Item → Header
final i = updata_check_sum (header_for i)

typed-Sized : (i : Item) → Sized (unnamed (typed i))
unfolding updata_size updata_file_type
typed-Sized (folder path n) =
    rw (length-print_s 11 (replicate 12 0) (decimal_to_octal_string 0 11) (omega arith)) refl
typed-Sized (file path content) =
    rw
      (length-print_s 11 (replicate 12 0) (decimal_to_octal_string (length content) 11)
        (omega arith))
      refl

pub final-Sized : (i : Item) → length (path_of i) ≤ 198 → Sized (final i)
unfolding updata_check_sum updata_size updata_file_type
final-Sized (folder path n) l =
    let i = folder path n in
    rw
      (length-print_s 7 (replicate 8 0)
        (decimal_to_octal_string (sum (bytes_of (header_for i)) + 256) 7) (omega arith))
      (Sized-named path (typed i) l (typed-Sized i))
final-Sized (file path content) l =
    let i = file path content in
    rw
      (length-print_s 7 (replicate 8 0)
        (decimal_to_octal_string (sum (bytes_of (header_for i)) + 256) 7) (omega arith))
      (Sized-named path (typed i) l (typed-Sized i))

pub size_of-final :
    (i : Item)
    → length (content_of i) < 4 * 1024 * 1024 * 1024
    → size_of (final i) ≡ length (content_of i)
unfolding updata_check_sum updata_size updata_file_type size_of
size_of-final (folder path n) l = size_of-updata_size 0 blank_header (omega arith)
size_of-final (file path content) l =
    size_of-updata_size (length content) blank_header (omega arith)

pub file_type-final : (i : Item) → file_type (final i) ≡ type_of i
unfolding updata_check_sum updata_size updata_file_type file_type
file_type-final (folder path n) = refl
file_type-final (file path content) = refl

pub name_of-final : (i : Item) → IsText (path_of i) → name_of (final i) ≡ path_of i
unfolding updata_check_sum
name_of-final i t = name_of-named (path_of i) (record (typed i) { chksum = (final i).chksum }) t

pub entry_of-final :
    (i : Item)
    → length (path_of i) ≤ 198
    → length (content_of i) < 4 * 1024 * 1024 * 1024
    → entry_of (bytes_of (final i))
      ≡ record { header = final i; need_size = length (content_of i); prefix = [] }
unfolding entry_of
entry_of-final i l n =
    ap (λ (h : Header). record { header = h; need_size = size_of h; prefix = [] })
      (header_of-bytes_of (final i) (final-Sized i l))
    ∙ ap (λ (k : ℕ). record { header = final i; need_size = k; prefix = [] }) (size_of-final i n)
