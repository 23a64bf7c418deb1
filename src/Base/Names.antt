-- ===== src/Base/Names.antt =====
-- base.cpp: `CheckBundleName`.
--
-- The regular expression `^[0-9a-zA-Z_\.]+$` on the whole name is a test of each of its bytes.
use supertools_public.Common.{
  ℕ, Bool, true, false, ◌&&◌, ◌||◌, List, [], ◌∷◌, ltb, leb, ◌==◌, if◌then◌else◌, length,
}

abbrev pub bundle_min_size : ℕ
bundle_min_size = 7

abbrev pub bundle_max_size : ℕ
bundle_max_size = 128

abbrev pub in_range : ℕ → ℕ → ℕ → Bool
in_range low high c = leb low c && leb c high

abbrev pub is_bundle_char : ℕ → Bool
is_bundle_char c =
    in_range b'0' b'9' c
    || (in_range b'a' b'z' c || (in_range b'A' b'Z' c || (c == b'_' || c == b'.')))

abbrev pub all_bundle_chars : List ℕ → Bool
all_bundle_chars [] = true
all_bundle_chars (c ∷ cs) = is_bundle_char c && all_bundle_chars cs

unfoldable pub check_bundle_name : List ℕ → Bool
check_bundle_name name =
    if length name == 0
    then false
    else if ltb (length name) bundle_min_size
    then false
    else if ltb bundle_max_size (length name)
    then false
    else all_bundle_chars name
