-- ===== src/Tar/Tests.antt =====
-- The theorems on tar files at concrete inputs.
use supertools_public.Tar.Archive.{create_directory, append_file, decompress_to_local, save_to_file}
use supertools_public.Tar.Archive.Items.{Item, folder, file}
use supertools_public.Tar.Archive.Entered.{full_path}
use supertools_public.Tar.Archive.Packs.{decompress_to_local-save_to_file}
use supertools_public.Tar.Entry.{Stat, new_entry}
use supertools_public.Common.{
  ℕ, ◌≡◌, refl, arith, true, false, Option, none, some, List, [], ◌∷◌, map, codes, str_eq,
  if◌then◌else◌,
}

abbrev tree : List Item
tree = folder (codes "d") 4096 ∷ file (codes "d/a") (7 ∷ 8 ∷ []) ∷ []

abbrev stat_tree : List ℕ → Option Stat
stat_tree path =
    if str_eq path (codes "r/d")
    then some (record { is_dir = true; is_reg = false; st_size = 4096 })
    else if str_eq path (codes "r/d/a")
    then some (record { is_dir = false; is_reg = true; st_size = 2 })
    else none

abbrev load_tree : List ℕ → Option (List ℕ)
load_tree path = if str_eq path (codes "r/d/a") then some (7 ∷ 8 ∷ []) else some []

decompress_to_local-save_to_file_example :
    decompress_to_local
      (λ path. true)
      (λ path. true)
      (codes "x/")
      (save_to_file load_tree
        (map (λ i. new_entry 9 stat_tree (codes "r") (full_path (codes "r") i)) tree))
    ≡ create_directory (codes "x/d") ∷ append_file (codes "x/d/a") (7 ∷ 8 ∷ []) ∷ []
decompress_to_local-save_to_file_example =
    decompress_to_local-save_to_file 9 stat_tree load_tree (λ path. true) (λ path. true) (codes "r")
      (codes "x/") tree ((refl, refl), ((refl, refl), tt))
      (
        ((omega arith, tt), omega arith, omega arith, refl, refl),
        (
          ((omega arith, (omega arith, (omega arith, tt))), omega arith, omega arith, refl, refl),
          tt,
        ),
      )
