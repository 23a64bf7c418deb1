-- ===== src/Base/Deleted.antt =====
-- base.cpp: `AddDeletedSessionId` and `IsSessionDeleted`, the record of the last sessions that were freed.
--
-- `g_deletedSessionIdSet` is a set: as a list, it holds each id at most once. The queue's front comes first.
pub mod Last
use supertools_public.Common.{
  ℕ, Bool, true, false, List, [], ◌∷◌, ◌++◌, ltb, ◌==◌, if◌then◌else◌, length,
}

abbrev pub max_deleted_session_id_record_count : ℕ
max_deleted_session_id_record_count = 32

pub record Deleted : Type 0 where
  pub ids : List ℕ
  pub queue : List ℕ

abbrev pub contains : ℕ → List ℕ → Bool
contains i [] = false
contains i (j ∷ js) = let rest = contains i js in if i == j then true else rest

abbrev pub erase_id : ℕ → List ℕ → List ℕ
erase_id i [] = []
erase_id i (j ∷ js) = let rest = erase_id i js in if i == j then rest else j ∷ rest

-- The front of the queue goes, from the set too.
abbrev pub drop_front : List ℕ → List ℕ → Deleted
drop_front ids [] = record { ids = ids; queue = [] }
drop_front ids (i ∷ is) = record { ids = erase_id i ids; queue = is }

unfoldable pub add_deleted_session_id : ℕ → Deleted → Deleted
add_deleted_session_id i d =
    let ids' = i ∷ d.ids in
    let queue' = d.queue ++ (i ∷ []) in
    if contains i d.ids
    then d
    else if ltb max_deleted_session_id_record_count (length queue')
    then drop_front ids' queue'
    else record { ids = ids'; queue = queue' }

abbrev pub is_session_deleted : ℕ → Deleted → Bool
is_session_deleted i d = contains i d.ids
