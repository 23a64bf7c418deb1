-- ===== src/Session/Admin.antt =====
-- session.cpp: `HdcSessionBase::AdminSession` and `VoteReset`, the table of sessions.
--
-- A session is an object that `mapSession` and the callers share, so the table holds handles, and `heap`
-- holds the objects. The locks make each operation one step. `abort()` sets `aborted`.
pub mod Table
use supertools_public.Common.{
  ℕ, ◌+◌, ◌-◌, ◌%◌, ◌^◌, Bool, true, false, not, ◌&&◌, ◌||◌, Option, none, some, List, [], ◌∷◌,
  ◌==◌, if◌then◌else◌, Map, find, put, erase,
}

pub data ConnType : Type 0 where
  conn_usb conn_tcp conn_serial conn_other : ConnType

-- `ref` is an atomic `uint32_t`.
pub record SessionInfo : Type 0 where
  pub session_id : ℕ
  pub server_or_daemon : Bool
  pub ref : ℕ
  pub is_dead : Bool
  pub vote_reset : Bool
  pub conn_type : ConnType
  pub on_work_thread : Bool

abbrev pub Heap : Type 0
Heap = ℕ → SessionInfo

abbrev pub store : ℕ → SessionInfo → Heap → Heap
store h x heap = λ k. if k == h then x else heap k

pub record Sessions : Type 0 where
  pub heap : Heap
  pub map_session : Map ℕ
  pub aborted : Bool

pub data Op : Type 0 where
  op_add op_update : ℕ → Op
  op_remove op_query op_print op_query_ref op_vote_reset op_other : Op

-- The loop of `VoteReset`: whether each other session has voted.
unfoldable pub others_voted : Heap → ℕ → Map ℕ → Bool
others_voted heap session_id [] = true
others_voted heap session_id ((i, h) ∷ m) =
    let rest = others_voted heap session_id m in
    if session_id == i then rest else if (heap h).vote_reset then rest else false

abbrev pub vote : ℕ → Heap → Heap
vote h heap = store h (record (heap h) { vote_reset = true }) heap

-- `VoteReset`, for a session that is in the table.
unfoldable pub vote_reset_session : Bool → ℕ → ℕ → Sessions → Option ℕ × Sessions
unfolding others_voted
vote_reset_session server_or_daemon session_id h t =
    if server_or_daemon
    then (
      some h,
      record t {
        heap = vote h t.heap;
        aborted = t.aborted || others_voted (vote h t.heap) session_id t.map_session;
      },
    )
    else (none, record t { aborted = true })

abbrev pub add_ref : ℕ → Heap → Heap
add_ref h heap = store h (record (heap h) { ref = ((heap h).ref + 1) % 2 ^ 32 }) heap

-- `--hSession->ref`.
abbrev pub drop_ref : ℕ → Heap → Heap
drop_ref h heap = store h (record (heap h) { ref = ((heap h).ref + (2 ^ 32 - 1)) % 2 ^ 32 }) heap

abbrev pub query_ref : Option ℕ → Sessions → Option ℕ × Sessions
query_ref none t = (none, t)
query_ref (some h) t = (some h, record t { heap = add_ref h t.heap })

abbrev pub count_vote : Bool → ℕ → Option ℕ → Sessions → Option ℕ × Sessions
count_vote server_or_daemon session_id none t = (none, t)
count_vote server_or_daemon session_id (some h) t =
    vote_reset_session server_or_daemon session_id h t

unfoldable pub admin_session : Bool → Op → ℕ → Sessions → Option ℕ × Sessions
unfolding vote_reset_session
admin_session server_or_daemon (op_add h) k t =
    (none, record t { map_session = put k h t.map_session })
admin_session server_or_daemon op_remove k t =
    (none, record t { map_session = erase k t.map_session })
admin_session server_or_daemon op_query k t = (find k t.map_session, t)
admin_session server_or_daemon op_print k t = (none, t)
admin_session server_or_daemon op_query_ref k t = query_ref (find k t.map_session) t
admin_session server_or_daemon (op_update h) k t =
    (none, record t { map_session = put (t.heap h).session_id h (erase k t.map_session) })
admin_session server_or_daemon op_vote_reset k t =
    count_vote server_or_daemon k (find k t.map_session) t
admin_session server_or_daemon op_other k t = (none, t)
