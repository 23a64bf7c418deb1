-- ===== src/Tar/Archive/RoundTrip.antt =====
-- header.cpp and entry.cpp: an item of a tar file comes out of it again.
use supertools_public.Common.{
  ℕ, ◌+◌, ◌*◌, ◌≤◌, ◌<◌, ◌≡◌, refl, sym, ap, ◌∙◌, Bool, true, List, [], ◌∷◌, ◌++◌, length,
  replicate, arith, length-replicate, zero, suc, map, All, take_prefix, drop_prefix, length-append,
  ltb, false,
}
use supertools_public.Base.Args.Words.{IsText}
use supertools_public.Tar.Header.{bytes_of, file_type, get_bytes}
use supertools_public.Tar.Entry.{Entry, name_of, entry_of}
use supertools_public.Tar.Entry.Blocks.{block-length}
use supertools_public.Tar.Archive.{
  Call, create_directory, append_file, copy_payload, decompress_loop, decompress_to_local,
}
use supertools_public.Tar.Archive.Reads.{padding_of, payload_to_file-reads}
use supertools_public.Tar.Archive.Items.{
  Item, folder, file, path_of, content_of, type_of, header_for, final, final-Sized, file_type-final,
  name_of-final, entry_of-final,
}

-- The call that makes an item below a directory.
abbrev pub call_of : List ℕ → Item → Call
call_of dec_path (folder path n) = create_directory (dec_path ++ path)
call_of dec_path (file path content) = append_file (dec_path ++ path) content

abbrev pub target : List ℕ → Item → List ℕ
target dec_path i = dec_path ++ path_of i

abbrev pub zeros_of : Item → List ℕ
zeros_of i = replicate (padding_of (length (content_of i))) 0

-- An entry read from a block, with the facts that the unpacking looks at.
copy_payload-entry :
    (opens creates : List ℕ → Bool) (dec_path : List ℕ) (i : Item) (e : Entry) (rest : List ℕ)
    → e.prefix ≡ []
    → name_of e.header ≡ path_of i
    → file_type e.header ≡ type_of i
    → e.need_size ≡ length (content_of i)
    → opens (target dec_path i) ≡ true
    → creates (target dec_path i) ≡ true
    → copy_payload opens creates dec_path e (content_of i ++ (zeros_of i ++ rest))
      ≡ (true, rest, call_of dec_path i ∷ [])
unfolding copy_payload
copy_payload-entry opens creates dec_path (folder path n) e rest p name type size o c =
    rw (p, name, type, c) refl
copy_payload-entry opens creates dec_path (file path content) e rest p name type size o c =
    let (done, input, written) =
      payload_to_file-reads content (zeros_of (file path content)) rest
        (length-replicate (padding_of (length content)) 0) in
    rw (p, name, type, size, o, done, input, written) refl

-- What a tar file must hold to be unpacked below a directory: paths without a 0 that the two fields of a name
-- hold, files below the limit, and targets that can be made.
abbrev pub Unpacks : (List ℕ → Bool) → (List ℕ → Bool) → List ℕ → Item → Type 0
Unpacks opens creates dec_path i =
    IsText (path_of i)
    × (length (path_of i) ≤ 198)
    × (length (content_of i) < 4 * 1024 * 1024 * 1024)
    × (opens (target dec_path i) ≡ true)
    × (creates (target dec_path i) ≡ true)

-- The block of `GetBytes`, the content and the padding of each item.
abbrev pub images : List Item → List ℕ
images [] = []
images (i ∷ is) = (get_bytes (header_for i)).1 ++ (content_of i ++ (zeros_of i ++ images is))

copy_payload-item :
    (opens creates : List ℕ → Bool) (dec_path : List ℕ) (i : Item) (rest : List ℕ)
    → Unpacks opens creates dec_path i
    → copy_payload opens creates dec_path
        (entry_of (bytes_of (final i)))
        (content_of i ++ (zeros_of i ++ rest))
      ≡ (true, rest, call_of dec_path i ∷ [])
copy_payload-item opens creates dec_path i rest (t, l, n, o, c) =
    ap (λ e. copy_payload opens creates dec_path e (content_of i ++ (zeros_of i ++ rest)))
      (entry_of-final i l n)
    ∙ copy_payload-entry opens creates dec_path i
        (record { header = final i; need_size = length (content_of i); prefix = [] }) rest refl
        (name_of-final i t) (file_type-final i) refl o c

not_below : (a b c : ℕ) → a ≡ b + c → ltb a b ≡ false
not_below a b c h = ground arith

-- One turn, where the block's payload can be copied.
decompress_turn :
    (opens creates : List ℕ → Bool) (fuel : ℕ) (dec_path block tail rest : List ℕ)
    (calls : List Call)
    → length block ≡ 512
    → copy_payload opens creates dec_path (entry_of block) tail ≡ (true, rest, calls)
    → decompress_loop opens creates (suc fuel) dec_path (block ++ tail)
      ≡ calls ++ decompress_loop opens creates fuel dec_path rest
unfolding decompress_loop
decompress_turn opens creates fuel dec_path block tail rest calls size e =
    let long : ltb (length (block ++ tail)) 512 ≡ false =
      not_below (length (block ++ tail)) 512 (length tail)
        (omega (arith, length-append block tail, size)) in
    rw (long, take_prefix 512 block tail (sym size), drop_prefix 512 block tail (sym size), e) refl

decompress_end :
    (opens creates : List ℕ → Bool) (fuel : ℕ) (dec_path : List ℕ)
    → decompress_loop opens creates (suc fuel) dec_path [] ≡ []
unfolding decompress_loop
decompress_end opens creates fuel dec_path = refl

decompress_loop-images :
    (opens creates : List ℕ → Bool) (fuel : ℕ) (dec_path : List ℕ) (is : List Item)
    → All (Unpacks opens creates dec_path) is
    → length is < fuel
    → decompress_loop opens creates fuel dec_path (images is) ≡ map (call_of dec_path) is
unfolding get_bytes
decompress_loop-images opens creates zero dec_path is u h = absurd (omega arith)
decompress_loop-images opens creates (suc fuel) dec_path [] u h =
    decompress_end opens creates fuel dec_path
decompress_loop-images opens creates (suc fuel) dec_path (i ∷ is) u h =
    decompress_turn opens creates fuel dec_path (bytes_of (final i))
      (content_of i ++ (zeros_of i ++ images is)) (images is) (call_of dec_path i ∷ [])
      (block-length (final i) (final-Sized i u.0.1))
      (copy_payload-item opens creates dec_path i (images is) u.0)
    ∙ ap (◌∷◌ (call_of dec_path i))
        (decompress_loop-images opens creates fuel dec_path is u.1 (omega arith))

images-length :
    (opens creates : List ℕ → Bool) (dec_path : List ℕ) (is : List Item)
    → All (Unpacks opens creates dec_path) is
    → length is ≤ length (images is)
unfolding get_bytes
images-length opens creates dec_path [] u = omega arith
images-length opens creates dec_path (i ∷ is) u = omega (
  arith,
  length-append (bytes_of (final i)) (content_of i ++ (zeros_of i ++ images is)),
  block-length (final i) (final-Sized i u.0.1),
  length-append (content_of i) (zeros_of i ++ images is),
  length-append (zeros_of i) (images is),
  images-length opens creates dec_path is u.1,
)

-- Of a tar file that holds, for each of some directories and files in turn, the block that `GetBytes` gives for
-- its header, its content and zeros up to a whole block, `DecompressToLocal` makes exactly these directories and
-- files, in order and with the same content, and comes to the end of the file; if each path has at most 198
-- bytes and no 0, each file less than 4 GiB, and each of them can be made.
pub decompress_to_local-images :
    (opens creates : List ℕ → Bool) (dec_path : List ℕ) (is : List Item)
    → All (Unpacks opens creates dec_path) is
    → decompress_to_local opens creates dec_path (images is) ≡ map (call_of dec_path) is
decompress_to_local-images opens creates dec_path is u =
    decompress_loop-images opens creates (suc (length (images is))) dec_path is u
      (omega (arith, images-length opens creates dec_path is u))
