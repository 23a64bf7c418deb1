-- ===== src/Base/Tests.antt =====
-- The theorems on the base helpers at concrete inputs.
use supertools_public.Common.{
  ℕ, ◌+◌, ◌/◌, ◌≤◌, ◌≡◌, refl, ◌≢◌, true, false, none, some, List, [], ◌∷◌, arith, length, codes,
}
use supertools_public.Base.Args.{split_start, split_loop, split_command_to_args}
use supertools_public.Base.Args.Bounds.{split_loop_room}
use supertools_public.Base.Args.Words.{words, split_command_to_args-words}
use supertools_public.Base.Fields.{tlv_to_string_map}
use supertools_public.Base.Fields.RoundTrip.{append_all, set_all, tlv_to_string_map-append_all}
use supertools_public.Base.Deleted.{Deleted, add_deleted_session_id, is_session_deleted}
use supertools_public.Base.Deleted.Last.{IsRecord, add_deleted_session_id-IsRecord}

abbrev two_deleted : Deleted
two_deleted = record { ids = 5 ∷ 9 ∷ []; queue = 5 ∷ 9 ∷ [] }

add_deleted_session_id-IsRecord_example :
    let e = add_deleted_session_id 7 two_deleted in
    IsRecord e
    × (is_session_deleted 7 e ≡ true)
    × ((j : ℕ) → j ≢ 7 → is_session_deleted j e ≡ true → is_session_deleted j two_deleted ≡ true)
add_deleted_session_id-IsRecord_example =
    add_deleted_session_id-IsRecord 7 two_deleted ((λ i. refl), (refl, (refl, tt)), omega arith)

abbrev ls_line : List ℕ
ls_line = codes "s \"a b\"c"

split_loop_room_example :
    let s = split_loop split_start ls_line in
    (length s.argv + 1 ≤ (8 + 2) / 2 + 1) × (length s.temp + 1 ≤ 8 + 2)
split_loop_room_example = split_loop_room ls_line

split_command_to_args-words_example :
    split_command_to_args ls_line ≡ some (words false none ls_line)
split_command_to_args-words_example =
    split_command_to_args-words b's' (codes " \"a b\"c") (omega arith) (ground arith)

tlv_to_string_map-append_all_example :
    tlv_to_string_map (append_all [] ((codes "token", codes "a b") ∷ (codes "emgmsg", []) ∷ [])) []
    ≡ (true, set_all [] ((codes "token", codes "a b") ∷ (codes "emgmsg", []) ∷ []))
tlv_to_string_map-append_all_example =
    tlv_to_string_map-append_all (codes "token", codes "a b") ((codes "emgmsg", []) ∷ []) []
      (ground arith) (ground arith)
