-- ===== src/Forward/Contexts.antt =====
-- forward.cpp: the contexts of a forwarding task and how they end, `MallocContext`, `AdminContext`,
-- `SendToTask`, `FilterCommand`, `FreeContext` and its callbacks.
--
-- A context is known by a handle; `contexts` holds those that are not deleted, and `mapCtxPoint` leads from an
-- id to a handle. None, as the result of an operation, means that it followed the pointer to a deleted
-- context. `stage` says which callback is under way for a context: libuv's close of its stream, the idle task
-- of `FreeJDWP`, the close of that task, or the turn of `DoNextLoop` that deletes it. The mutexes make each
-- operation one step. `sent` is what the other side is sent,
-- and `announced` what the server is told.
pub mod Sound
use supertools_public.Common.{
  ℕ, zero, suc, ◌+◌, ◌-◌, ◌*◌, ◌/◌, ◌%◌, ◌^◌, ◌≤◌, ◌<◌, min, ◌≡◌, refl, sym, ap, ap₂, ◌∙◌, subst,
  ◌≢◌, ◌↔◌, ◌⊎◌, inl, inr, Bool, true, false, not, ◌&&◌, ◌||◌, Option, none, some, List, [], ◌∷◌,
  ◌++◌, map, append-nil, append_assoc, arith, ltb, leb, ◌==◌, if◌then◌else◌, ==_iff, ==_self, ==_ne,
  Bool-cases, Option-cases, All, All-append, length, get_elem?, get_or, take, drop, replicate,
  length-append, take-append-drop, length-take, length-drop, length-replicate, take_prefix,
  drop_prefix, take_all, drop_all, take-append, drop-append, get_or-append, Map, find, has, put,
  erase, Above, Sorted, find-put_self, find-put_ne, find-erase_self, find-erase_ne, has-find,
  find-has, Above-put, Sorted-put, Above-erase, Sorted-erase, find-below, find-put, find-erase,
  codes, str_eq, str_eq→eq, str_eq_self,
}
use supertools_public.Common.Bytes.{be32, read_be32}
use supertools_public.Forward.Node.{
  ForwardType, tcp, device, jdwp, ark, abstract, reserved, filesystem, Args,
}

pub data Stage : Type 0 where
  opened closing idle idle_closing next_loop : Stage

-- `written` are the bytes that the context's stream has been given.
pub record ContextForward : Type 0 where
  pub forward_type : ForwardType
  pub master_slave : Bool
  pub check_point : Bool
  pub ready : Bool
  pub finish : Bool
  pub id : ℕ
  pub fd_class : Bool
  pub local_args : Args
  pub remote_args : Args
  pub remote_parameters : List ℕ
  pub written : List ℕ
  pub stage : Stage

-- `made` counts the contexts so far, and is the next handle.
pub record HdcForwardBase : Type 0 where
  pub ref_count : ℕ
  pub map_ctx_point : Map ℕ
  pub contexts : Map ContextForward
  pub made : ℕ
  pub server_or_daemon : Bool
  pub task_command : List ℕ
  pub sent : List (ℕ × List ℕ)
  pub announced : List (List ℕ)

-- What the calls of others return: whether the message to the other side goes out, whether the device, the
-- socket or the accepted connection is there, and whether the stream has a loop and is not closing.
pub record Calls : Type 0 where
  pub sends : Bool
  pub opens : Bool
  pub allocates : Bool
  pub streaming : Bool

infixl 5 ◌>>=◌
abbrev pub ◌>>=◌ {ℓ κ} : {A : Type ℓ} {B : Type κ} → Option A → (A → Option B) → Option B
none >>= f = none
some a >>= f = f a

abbrev pub new_context : ℕ → Bool → ContextForward
new_context random master = record {
  forward_type = tcp;
  master_slave = master;
  check_point = false;
  ready = false;
  finish = false;
  id = random;
  fd_class = false;
  local_args = ([], []);
  remote_args = ([], []);
  remote_parameters = [];
  written = [];
  stage = opened;
}

-- The handle of the new context is `made`. `random` is what `GetRandomU32` gives.
unfoldable pub malloc_context : ℕ → Bool → HdcForwardBase → HdcForwardBase
malloc_context random master s = record s {
  ref_count = (s.ref_count + 1) % 2 ^ 32;
  map_ctx_point = put random s.made s.map_ctx_point;
  contexts = put s.made (new_context random master) s.contexts;
  made = s.made + 1;
}

-- `AdminContext` with OP_QUERY.
abbrev pub query_context : ℕ → HdcForwardBase → Option ℕ
query_context i s = find i s.map_ctx_point

-- A write through the pointer.
abbrev pub set_context : ℕ → ContextForward → HdcForwardBase → HdcForwardBase
set_context h c s = record s { contexts = put h c s.contexts }

-- `BUF_EXTEND_SIZE`, `DWORD_SERIALIZE_SIZE`.
abbrev pub buf_extend_size : ℕ
buf_extend_size = 4

-- `GetMaxBufSizeStable() * BUF_MULTIPLE`.
abbrev pub max_task_data : ℕ
max_task_data = 60 * 1024 * 2

-- What `SendToTask` hands to `SendToAnother`.
unfoldable pub task_frame : ℕ → List ℕ → Option (List ℕ)
task_frame cid content =
    if ltb max_task_data (length content) then none else some (be32 cid ++ content)

abbrev pub send_frame : Bool → ℕ → HdcForwardBase → Option (List ℕ) → Bool × HdcForwardBase
send_frame sends command s none = (false, s)
send_frame sends command s (some payload) =
    if sends then (true, record s { sent = s.sent ++ (command, payload) ∷ [] }) else (false, s)

unfoldable pub send_to_task : Calls → ℕ → ℕ → List ℕ → HdcForwardBase → Bool × HdcForwardBase
send_to_task calls cid command content s = send_frame calls.sends command s (task_frame cid content)

-- The id and the content of a payload. A payload that is shorter than the id is read behind its end.
unfoldable pub filter_command : List ℕ → ℕ × List ℕ
filter_command payload = (read_be32 payload, drop buf_extend_size payload)

abbrev pub cmd_forward_check : ℕ
cmd_forward_check = 2501

abbrev pub cmd_forward_check_result : ℕ
cmd_forward_check_result = 2502

abbrev pub cmd_forward_active_slave : ℕ
cmd_forward_active_slave = 2503

abbrev pub cmd_forward_active_master : ℕ
cmd_forward_active_master = 2504

abbrev pub cmd_forward_data : ℕ
cmd_forward_data = 2505

abbrev pub cmd_forward_free_context : ℕ
cmd_forward_free_context = 2506

-- Which callback comes next: the close of the stream, its callback at once if the stream is closing or was
-- never opened, or the idle task of `FreeJDWP`.
abbrev pub closing_stage : Bool → ForwardType → Stage
closing_stage streaming device = idle
closing_stage streaming tcp = if streaming then closing else next_loop
closing_stage streaming jdwp = if streaming then closing else next_loop
closing_stage streaming ark = if streaming then closing else next_loop
closing_stage streaming abstract = if streaming then closing else next_loop
closing_stage streaming reserved = if streaming then closing else next_loop
closing_stage streaming filesystem = if streaming then closing else next_loop

abbrev pub finish_context : Calls → ℕ → Bool → ContextForward → HdcForwardBase → HdcForwardBase
finish_context calls h notify c s =
    let t = if notify then (send_to_task calls c.id cmd_forward_free_context [] s).1 else s in
    set_context h (record c { finish = true; stage = closing_stage calls.streaming c.forward_type })
      t

-- `FreeContext` of a context.
unfoldable pub free_context : Calls → ℕ → Bool → HdcForwardBase → Option HdcForwardBase
unfolding send_to_task
free_context calls h notify s =
    find h s.contexts >>= λ c. some (if c.finish then s else finish_context calls h notify c s)

-- The close callback of the stream, or of the idle task: `FreeContextCallBack`.
unfoldable pub handle_closed : ℕ → HdcForwardBase → Option HdcForwardBase
handle_closed h s =
    find h s.contexts >>= λ c. some (set_context h (record c { stage = next_loop }) s)

-- A turn of the idle task. `released` is what `fdClass->ReadyForRelease()` answers.
unfoldable pub idle_turn : Bool → ℕ → HdcForwardBase → Option HdcForwardBase
idle_turn released h s = find h s.contexts >>= λ c. some (
    if c.fd_class && not released
    then s
    else set_context h (record c { fd_class = false; stage = idle_closing }) s)

-- The turn of `FreeContextCallBack` that deletes.
unfoldable pub delete_context : ℕ → HdcForwardBase → Option HdcForwardBase
delete_context h s = find h s.contexts >>= λ c. some (record s {
  map_ctx_point = erase c.id s.map_ctx_point;
  contexts = erase h s.contexts;
  ref_count = if ltb 0 s.ref_count then s.ref_count - 1 else s.ref_count;
})

abbrev pub free_all : Calls → List ℕ → HdcForwardBase → Option HdcForwardBase
free_all calls [] s = some s
free_all calls (h ∷ hs) s = free_context calls h false s >>= λ t. free_all calls hs t

abbrev pub handles : Map ℕ → List ℕ
handles [] = []
handles ((i, h) ∷ m) = h ∷ handles m

unfoldable pub stop_task : Calls → HdcForwardBase → Option HdcForwardBase
unfolding free_context
stop_task calls s = free_all calls (handles s.map_ctx_point) (record s { map_ctx_point = [] })
