-- ===== src/Transfer/File.antt =====
-- transfer.cpp: a whole file on its way, `SimpleFileIO` and `OnFileIO` with `ProcressFileIO`,
-- `ProcressFileIORead` and `ProcressFileIOWrite`.
--
-- The sender reads at `indexIO` and sends a block for each read; libuv decides how many bytes a read gives,
-- which is the parameter `amount`. The receiver writes each block at its place; libuv may complete the
-- writes in any order. Reads and writes do not fail here, and the queue of the channel does not delay them.
pub mod Whole
pub mod Arrives
use supertools_public.Common.{
  ℕ, zero, suc, ◌+◌, ◌-◌, ◌*◌, Bool, true, false, ◌&&◌, ◌||◌, Option, none, some, List, [], ◌∷◌,
  ltb, leb, ◌==◌, if◌then◌else◌, length, take, drop, get_elem?,
}
use supertools_public.Transfer.Block.{
  payload_prefix_reserve, Block, send_io_payload, recv_io_payload,
}

-- `GetUsbffsBulkSize` and `GetUsbffsBulkSizeStable`, and what `maxTransferBufFactor`, 0.8, makes of
-- `GetMaxBufSize` and `GetMaxBufSizeStable`.
abbrev pub usbffs_bulk_size : Bool → ℕ
usbffs_bulk_size stable = if stable then 61 * 1024 else 512 * 1024

abbrev pub read_size : Bool → ℕ
read_size stable = if stable then 49152 else 418611

-- Whether `SimpleFileIO` takes so many bytes.
unfoldable pub simple_file_io : Bool → Bool → ℕ → Bool
simple_file_io stable io_finish bytes =
    if ltb (usbffs_bulk_size stable - payload_prefix_reserve) bytes
    then false
    else if io_finish
    then false
    else true

module _ (compress : List ℕ → Option (List ℕ)) (amount : ℕ → ℕ) where
  abbrev pub sent : Option (List ℕ) → Option (List (List ℕ)) → Option (List (List ℕ))
  sent none rest = some []
  sent (some payload) none = none
  sent (some payload) (some rest) = some (payload ∷ rest)

  -- The payloads from a read at `indexIO` on. None means that the fuel ran out; each turn but the last
  -- reads a byte or more.
  unfoldable pub send_file : ℕ → ℕ → List ℕ → ℕ → Option (List (List ℕ))
  send_file zero compress_type file index_io = none
  send_file (suc fuel) compress_type file index_io =
      let n = amount index_io in
      let rest = send_file fuel compress_type file (index_io + n) in
      sent (send_io_payload compress compress_type index_io (take n (drop index_io file)))
        (if n == 0 then some [] else if ltb (index_io + n) (length file) then rest else some [])

-- A file under way: the byte at each place that has been written.
abbrev pub Written : Type 0
Written = ℕ → Option ℕ

-- `uv_fs_write` of a block at its place.
unfoldable pub write_block : Block → Written → Written
write_block b file i =
    if leb b.index i && ltb i (b.index + length b.bytes)
    then get_elem? b.bytes (i - b.index)
    else file i

-- The blocks, the one whose write libuv completes last in front.
unfoldable pub write_all : List Block → Written
write_all [] i = none
write_all (b ∷ bs) i = write_block b (write_all bs) i

-- `ProcressFileIOWrite`: `indexIO` after a write of so many bytes, and whether the file is finished.
unfoldable pub on_write : ℕ → ℕ → ℕ → ℕ × Bool
on_write file_size index_io n = (index_io + n, leb file_size (index_io + n) || n == 0)

-- The receiver of a payload of `commandData`: the block to be written, if it takes it.
unfoldable pub receive_payload :
    (List ℕ → ℕ → Option (List ℕ)) → Bool → Bool → List ℕ → Option Block
unfolding simple_file_io
receive_payload decompress stable io_finish payload = elim (recv_io_payload decompress payload) [
  | none ↦ none
  | some b ↦ if simple_file_io stable io_finish (length b.bytes) then some b else none
]
