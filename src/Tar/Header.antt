-- ===== src/Tar/Header.antt =====
-- header.cpp: the octal fields of `Header`, its file type and its check sum.
--
-- `snprintf_s` writes at most as many bytes as its count says, and a byte 0; the rest of the field stays. The
-- log messages, and the results that are only logged, are left out.
pub mod Octal
use supertools_public.Common.{
  ℕ, zero, suc, ◌+◌, ◌-◌, ◌*◌, ◌/◌, ◌%◌, Bool, true, false, not, ◌&&◌, ◌||◌, List, [], ◌∷◌, ◌++◌,
  ltb, leb, if◌then◌else◌, length, take, drop, get_or, replicate, codes,
}

-- The fields in their order.
pub record Header : Type 0 where
  pub name : List ℕ
  pub mode : List ℕ
  pub uid : List ℕ
  pub gid : List ℕ
  pub size : List ℕ
  pub mtime : List ℕ
  pub chksum : List ℕ
  pub typeflage : ℕ
  pub linkname : List ℕ
  pub magic : List ℕ
  pub version : List ℕ
  pub uname : List ℕ
  pub gname : List ℕ
  pub devmajor : List ℕ
  pub devminor : List ℕ
  pub prefix : List ℕ
  pub pad : List ℕ

abbrev pub header_size_len : ℕ
header_size_len = 12

abbrev pub header_chksum_len : ℕ
header_chksum_len = 8

-- The default constructor.
abbrev pub blank_header : Header
blank_header = record {
  name = replicate 100 0;
  mode = replicate 8 0;
  uid = replicate 8 0;
  gid = replicate 8 0;
  size = replicate 12 0;
  mtime = replicate 12 0;
  chksum = replicate 8 0;
  typeflage = 0;
  linkname = replicate 100 0;
  magic = codes "ustar ";
  version = 32 ∷ 0 ∷ [];
  uname = replicate 32 0;
  gname = replicate 32 0;
  devmajor = replicate 8 0;
  devminor = replicate 8 0;
  prefix = replicate 155 0;
  pad = replicate 12 0;
}

-- The octal digits of a number below 8 ^ fuel, before `acc`.
abbrev pub octal_digits : ℕ → ℕ → List ℕ → List ℕ
octal_digits zero n acc = acc
octal_digits (suc fuel) n acc =
    let acc' = (48 + n % 8) ∷ acc in
    let more = octal_digits fuel (n / 8) acc' in if ltb n 8 then acc' else more

-- `DecimalToOctalString`: 22 digits hold a `size_t`.
unfoldable pub decimal_to_octal_string : ℕ → ℕ → List ℕ
decimal_to_octal_string n len =
    let str = octal_digits 22 n [] in replicate (len - length str) 48 ++ str

abbrev pub print_s : List ℕ → ℕ → List ℕ → List ℕ
print_s field count str = take count str ++ (0 ∷ drop (length (take count str) + 1) field)

unfoldable pub updata_size : ℕ → Header → Header
updata_size n h = record h {
  size = print_s h.size (header_size_len - 1) (decimal_to_octal_string n (header_size_len - 1));
}

abbrev pub all_octal : List ℕ → Bool
all_octal [] = true
all_octal (c ∷ cs) = leb 48 c && leb c 55 && all_octal cs

-- `stoull` of octal digits.
abbrev pub octal_value : ℕ → List ℕ → ℕ
octal_value value [] = value
octal_value value (c ∷ cs) = octal_value (value * 8 + (c - 48)) cs

unfoldable pub size_of : Header → ℕ
size_of h =
    let str = take (header_size_len - 1) h.size in if all_octal str then octal_value 0 str else 0

-- `INVALID` is 0.
unfoldable pub file_type : Header → ℕ
file_type h = if ltb h.typeflage 48 || ltb 55 h.typeflage then 0 else h.typeflage

unfoldable pub updata_file_type : ℕ → Header → Header
updata_file_type t h = record h { typeflage = if ltb t 48 || ltb 55 t then 0 else t }

-- The bytes before and behind the check sum.
abbrev pub before_sum : Header → List ℕ
before_sum h = h.name ++ h.mode ++ h.uid ++ h.gid ++ h.size ++ h.mtime

abbrev pub behind_sum : Header → List ℕ
behind_sum h =
    (h.typeflage ∷ h.linkname)
    ++ h.magic
    ++ h.version
    ++ h.uname
    ++ h.gname
    ++ h.devmajor
    ++ h.devminor
    ++ h.prefix
    ++ h.pad

abbrev pub bytes_of : Header → List ℕ
bytes_of h = before_sum h ++ (h.chksum ++ behind_sum h)

abbrev pub sum : List ℕ → ℕ
sum [] = 0
sum (b ∷ bs) = b + sum bs

unfoldable pub updata_check_sum : Header → Header
updata_check_sum h = record h {
  chksum =
      print_s h.chksum (header_chksum_len - 1)
        (decimal_to_octal_string (sum (bytes_of h) + 256) (header_chksum_len - 1));
}

-- `GetBytes` into a block of 512 bytes: the header afterwards, and the block.
unfoldable pub get_bytes : Header → Header × List ℕ
unfolding updata_check_sum
get_bytes h = let h' = updata_check_sum h in (h', bytes_of h')
