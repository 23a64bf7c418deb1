-- ===== src/Tar/Entry.antt =====
-- header.cpp and entry.cpp: the names of `Header`, a header read from a block, and `Entry`.
--
-- `stat` stands for `uv_fs_lstat`, and `load` for what an `ifstream` of a name gives, `UnicodeToUtf8` taken in;
-- it is none if the file cannot be opened. `opens` and `creates` say which files and directories can be made;
-- an opened file takes every write. A read past the end of a header's own bytes is left out.
pub mod Blocks
use supertools_public.Common.{
  ℕ, zero, suc, ◌+◌, ◌-◌, ◌*◌, ◌%◌, ◌^◌, Bool, true, false, not, ◌&&◌, ◌||◌, Option, none, some,
  List, [], ◌∷◌, ◌++◌, ltb, leb, ◌==◌, if◌then◌else◌, length, take, drop, get_or, replicate, str_eq,
}
use supertools_public.Base.Args.{c_str}
use supertools_public.Tar.Header.{
  Header, blank_header, print_s, updata_size, size_of, file_type, updata_file_type, bytes_of,
  get_bytes,
}

-- The sizes of the fields.
abbrev pub field_lens : List ℕ
field_lens = 100 ∷ 8 ∷ 8 ∷ 8 ∷ 12 ∷ 12 ∷ 8 ∷ 1 ∷ 100 ∷ 6 ∷ 2 ∷ 32 ∷ 32 ∷ 8 ∷ 8 ∷ 155 ∷ 12 ∷ []

abbrev pub cut : List ℕ → List ℕ → List (List ℕ)
cut [] block = []
cut (n ∷ ns) block = take n block ∷ cut ns (drop n block)

abbrev pub header_of_fields : List (List ℕ) → Header
header_of_fields fs = record {
  name = get_or fs 0 [];
  mode = get_or fs 1 [];
  uid = get_or fs 2 [];
  gid = get_or fs 3 [];
  size = get_or fs 4 [];
  mtime = get_or fs 5 [];
  chksum = get_or fs 6 [];
  typeflage = get_or (get_or fs 7 []) 0 0;
  linkname = get_or fs 8 [];
  magic = get_or fs 9 [];
  version = get_or fs 10 [];
  uname = get_or fs 11 [];
  gname = get_or fs 12 [];
  devmajor = get_or fs 13 [];
  devminor = get_or fs 14 [];
  prefix = get_or fs 15 [];
  pad = get_or fs 16 [];
}

-- The constructor from a block of 512 bytes.
unfoldable pub header_of : List ℕ → Header
header_of block = header_of_fields (cut field_lens block)

unfoldable pub name_of : Header → List ℕ
name_of h = c_str (h.prefix ++ h.pad) ++ c_str (bytes_of h)

abbrev pub name_max : ℕ
name_max = 99

unfoldable pub updata_name : List ℕ → Header → Bool × Header
updata_name file_name h =
    let len = length file_name in
    let sprefix = take (len - name_max) file_name in
    let sname = drop (len - name_max) file_name in
    if leb 255 len
    then (false, h)
    else if ltb len 100
    then (true, record h { name = print_s h.name name_max (c_str file_name) })
    else (
      true,
      record h {
        name = print_s h.name name_max (c_str sname);
        prefix = print_s h.prefix name_max (c_str sprefix);
      },
    )

unfoldable pub strip_prefix : List ℕ → List ℕ → Option (List ℕ)
strip_prefix str prefix =
    if str_eq (take (length prefix) str) prefix then some (drop (length prefix) str) else none

pub record Entry : Type 0 where
  pub header : Header
  pub need_size : ℕ
  pub prefix : List ℕ

abbrev pub get_name : Entry → List ℕ
get_name e = e.prefix ++ name_of e.header

abbrev pub stripped_or : List ℕ → Option (List ℕ) → List ℕ
stripped_or name none = name
stripped_or name (some path) = path

unfoldable pub entry_updata_name : List ℕ → Entry → Entry
unfolding updata_name strip_prefix
entry_updata_name name e =
    let stripped =
      if length e.prefix == 0 then name else stripped_or name (strip_prefix name e.prefix) in
    record e { header = (updata_name stripped e.header).1 }

-- `st_mode & S_IFDIR`, `st_mode & S_IFREG` and `st_size`.
pub record Stat : Type 0 where
  pub is_dir : Bool
  pub is_reg : Bool
  pub st_size : ℕ

abbrev pub entry_max_file_size : ℕ
entry_max_file_size = 4 * 1024 * 1024 * 1024

-- What the first lines of the constructor make of a blank entry.
unfoldable pub entry_stat : Option Stat → Entry → Entry
unfolding updata_size updata_file_type
entry_stat none e = e
entry_stat (some st) e =
    if st.is_dir
    then record e { header = updata_size 0 (updata_file_type 53 e.header) }
    else if st.is_reg && ltb st.st_size entry_max_file_size
    then record e {
      header = updata_file_type 48 (updata_size st.st_size e.header);
      need_size = st.st_size;
    }
    else e

-- `Entry(prefix, path)`. `needSize` is `uninit` before it is set, and 47 is the separator.
unfoldable pub new_entry : ℕ → (List ℕ → Option Stat) → List ℕ → List ℕ → Entry
unfolding entry_stat entry_updata_name
new_entry uninit stat prefix path = entry_updata_name path (
    entry_stat (stat path)
      (record { header = blank_header; need_size = uninit; prefix = prefix ++ (47 ∷ []) }))

-- An output stream: what is in the file, and its bit for failure.
pub record Output : Type 0 where
  pub written : List ℕ
  pub failed : Bool

abbrev pub put_bytes : List ℕ → Output → Output
put_bytes bytes o = if o.failed then o else record o { written = o.written ++ bytes }

-- `file << inFile.rdbuf()`, which fails if it puts no byte.
abbrev pub put_file : Option (List ℕ) → Output → Output
put_file none o = record o { failed = true }
put_file (some []) o = record o { failed = true }
put_file (some (b ∷ bs)) o = put_bytes (b ∷ bs) o

abbrev pub header_len : ℕ
header_len = 512

abbrev pub put_padding : ℕ → Output → Output
put_padding n o =
    let padding = header_len - n % header_len in
    if ltb padding header_len then put_bytes (replicate padding 0) o else o

-- The tests look at the type and the size, which `GetBytes` leaves as they are.
unfoldable pub write_to_tar : (List ℕ → Option (List ℕ)) → Entry → Output → Bool × Output
unfolding get_bytes name_of size_of file_type
write_to_tar load e o =
    let (h, block) = get_bytes e.header in
    let o' = put_bytes block o in
    if file_type e.header == 48
    then if size_of h == 0
      then (true, o')
      else (true, put_padding e.need_size (put_file (load (get_name e)) o'))
    else if file_type e.header == 53
    then (true, o')
    else (false, o)

-- `Entry(data, dataLen)`.
unfoldable pub entry_of : List ℕ → Entry
unfolding header_of size_of
entry_of block =
    let h = header_of block in record { header = h; need_size = size_of h; prefix = [] }
