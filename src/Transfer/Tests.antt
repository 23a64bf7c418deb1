-- ===== src/Transfer/Tests.antt =====
-- The theorems on transfers at concrete inputs.
use supertools_public.Common.{
  ℕ, ◌≡◌, refl, inl, inr, true, Option, none, some, List, [], ◌∷◌, arith, ltb, if◌then◌else◌,
  Bool-cases, get_elem?, str_eq, str_eq→eq,
}
use supertools_public.Transfer.Block.{Block, send_io_payload, recv_io_payload}
use supertools_public.Transfer.Block.RoundTrip.{Unpacks, recv_io_payload-send_io_payload}
use supertools_public.Transfer.Buffers.{CircleBuffer, malloc, free}
use supertools_public.Transfer.Buffers.Exclusive.{
  Sound, Gives, here, there, mallocs, frees, malloc-Gives,
}
use supertools_public.Transfer.File.{send_file, write_all}
use supertools_public.Transfer.File.Arrives.{
  Receives, Reads, cuts, finishes, LastOnly, send_file-write_all,
}

-- A packer that knows one block of four equal bytes.
abbrev pack : List ℕ → Option (List ℕ)
pack xs = if str_eq xs (7 ∷ 7 ∷ 7 ∷ 7 ∷ []) then some (7 ∷ []) else none

abbrev unpack : List ℕ → ℕ → Option (List ℕ)
unpack xs size = some (7 ∷ 7 ∷ 7 ∷ 7 ∷ [])

unpacks : (xs : List ℕ) → Unpacks pack unpack xs
unpacks xs small e = elim (Bool-cases (str_eq xs (7 ∷ 7 ∷ 7 ∷ 7 ∷ []))) [
  | inl t ↦
      let q = str_eq→eq xs (7 ∷ 7 ∷ 7 ∷ 7 ∷ []) t in
      let s : small ≡ 7 ∷ [] = ground arith in rw (s, q) (omega arith, omega arith, refl)
  | inr t ↦ absurd (ground arith)
]

recv_io_payload-send_io_payload_example :
    (payload : List ℕ) × (send_io_payload pack 1 40 (7 ∷ 7 ∷ 7 ∷ 7 ∷ []) ≡ some payload)
    × (recv_io_payload unpack payload ≡ some (record { index = 40; bytes = 7 ∷ 7 ∷ 7 ∷ 7 ∷ [] }))
recv_io_payload-send_io_payload_example =
    recv_io_payload-send_io_payload pack unpack 1 40 (7 ∷ 7 ∷ 7 ∷ 7 ∷ [])
      (unpacks (7 ∷ 7 ∷ 7 ∷ 7 ∷ [])) (omega arith) (omega arith) (omega arith)

-- Reads of one byte each.
abbrev one_byte : ℕ → ℕ
one_byte i = if ltb i 3 then 1 else 0

abbrev three_bytes : List ℕ
three_bytes = 5 ∷ 6 ∷ 7 ∷ []

abbrev at : ℕ → ℕ → Block
at i b = record { index = i; bytes = b ∷ [] }

Reads-one_byte : Reads true 3 one_byte
Reads-one_byte i = ground arith

three_cuts : cuts one_byte 4 three_bytes 0 ≡ at 0 5 ∷ at 1 6 ∷ at 2 7 ∷ []
unfolding cuts
three_cuts = refl

-- The writes complete in another order.
abbrev three_writes : List Block
three_writes = at 1 6 ∷ at 2 7 ∷ at 0 5 ∷ []

send_file-write_all_example :
    (ps : List (List ℕ)) × (send_file pack one_byte 4 1 three_bytes 0 ≡ some ps)
    × Receives unpack ps (cuts one_byte 4 three_bytes 0)
    × ((i : ℕ) → write_all three_writes i ≡ get_elem? three_bytes i)
    × LastOnly (finishes 3 0 (cuts one_byte 4 three_bytes 0))
unfolding cuts
send_file-write_all_example =
    send_file-write_all pack unpack one_byte true 1 three_bytes three_writes unpacks (omega arith)
      (omega arith) Reads-one_byte (inr (inl refl), (inr (inr (inl refl)), (inl refl, tt)))
      (inr (inr (inl refl)), (inl refl, (inr (inl refl), tt)))

-- A buffer taken and given back.
abbrev used_once : CircleBuffer
used_once = free 3 100 (malloc 2 (some 100) (record { buffers = []; held = [] })).1

malloc-Gives_example : Sound used_once × Gives used_once (malloc 4 none used_once)
malloc-Gives_example =
    malloc-Gives 4 none used_once (there (there here (mallocs 2 (some 100) refl)) (frees 3 100)) tt
