-- ===== src/Tar/Archive.antt =====
-- entry.cpp, compress.cpp and decompress.cpp: the payloads of a tar file, `SaveToFile` and
-- `DecompressToLocal`.
--
-- What unpacking does to the file system is the list of its calls: a directory created, or bytes appended to a
-- file. `opens` and `creates` say which files and directories can be made; an opened file takes every write.
-- The loop of `PayloadToFile` runs on fuel, one turn more than its `needSize` has bytes, and that of
-- `DecompressToLocal` one turn more than the file has bytes.
pub mod Reads
pub mod Items
pub mod RoundTrip
pub mod Entered
pub mod Packs
use supertools_public.Common.{
  ℕ, zero, suc, ◌+◌, ◌-◌, ◌*◌, ◌%◌, Bool, true, false, not, ◌&&◌, Option, List, [], ◌∷◌, ◌++◌, ltb,
  leb, ◌==◌, if◌then◌else◌, length, take, drop,
}
use supertools_public.Tar.Header.{file_type}
use supertools_public.Tar.Entry.{
  Entry, get_name, name_of, Output, write_to_tar, entry_of, header_len,
}

-- The loop of `SaveToFile` over the entries.
unfoldable pub save_entries : (List ℕ → Option (List ℕ)) → List Entry → Output → Output
unfolding write_to_tar
save_entries load [] o = o
save_entries load (e ∷ es) o = save_entries load es (write_to_tar load e o).1

abbrev pub save_to_file : (List ℕ → Option (List ℕ)) → List Entry → List ℕ
save_to_file load es = (save_entries load es (record { written = []; failed = false })).written

abbrev pub entry_file_bufsize : ℕ
entry_file_bufsize = 4 * 1024

-- `ReadAndWriteData`, the rest of the input, and what the file has been given.
pub record Payload : Type 0 where
  pub done : Bool
  pub need : ℕ
  pub input : List ℕ
  pub written : List ℕ

unfoldable pub read_and_write_data : ℕ → ℕ → Payload → Payload
read_and_write_data read_size write_size p =
    if ltb (length p.input) read_size
    then record p { done = false; input = [] }
    else record p { input = drop read_size p.input; written = p.written ++ take write_size p.input }

unfoldable pub payload_loop : ℕ → Payload → Payload
unfolding read_and_write_data
payload_loop zero p = p
payload_loop (suc fuel) p =
    let q = read_and_write_data entry_file_bufsize entry_file_bufsize p in
    let rest = payload_loop fuel (record q { need = q.need - entry_file_bufsize }) in
    if ltb p.need entry_file_bufsize then p else if q.done then rest else q

abbrev pub last_buf_size : ℕ → ℕ
last_buf_size need =
    let padding_size = header_len - need % header_len in
    if padding_size == header_len then need else need + padding_size

unfoldable pub payload_to_file : ℕ → List ℕ → Payload
unfolding payload_loop read_and_write_data
payload_to_file need input =
    let p : Payload =
      payload_loop (suc need) (record { done = true; need = need; input = input; written = [] }) in
    let last = read_and_write_data (last_buf_size p.need) p.need p in
    if p.done && ltb 0 p.need then last else p

pub data Call : Type 0 where
  create_directory : List ℕ → Call
  append_file : List ℕ → List ℕ → Call

module _ (opens creates : List ℕ → Bool) where
  -- `CopyPayload`: whether it succeeds, the rest of the input, and the calls.
  unfoldable pub copy_payload : List ℕ → Entry → List ℕ → Bool × List ℕ × List Call
  unfolding payload_to_file file_type name_of
  copy_payload prefix_path e input =
      let path = prefix_path ++ get_name e in
      let p = payload_to_file e.need_size input in
      if file_type e.header == 48
      then if opens path
        then (p.done, p.input, append_file path p.written ∷ [])
        else (false, input, [])
      else if file_type e.header == 53
      then if creates path then (true, input, create_directory path ∷ []) else (false, input, [])
      else (false, input, [])

  -- The loop of `DecompressToLocal`.
  unfoldable pub decompress_loop : ℕ → List ℕ → List ℕ → List Call
  unfolding copy_payload entry_of
  decompress_loop zero dec_path input = []
  decompress_loop (suc fuel) dec_path input =
      let (ok, rest, calls) =
        copy_payload dec_path (entry_of (take header_len input)) (drop header_len input) in
      let more = decompress_loop fuel dec_path rest in
      if ltb (length input) header_len then [] else if ok then calls ++ more else calls

  abbrev pub decompress_to_local : List ℕ → List ℕ → List Call
  decompress_to_local dec_path tar = decompress_loop (suc (length tar)) dec_path tar
