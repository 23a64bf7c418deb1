-- ===== src/Session/Tasks.antt =====
-- session.cpp: `NeedNewTaskInfo`, `AdminTask`, `DispatchTaskData`, `BeginRemoveTask`, `TryRemoveTask` and
-- `ClearOwnTasks`, the life of a session's tasks.
--
-- A task is an object that `mapTask` and the timers of `BeginRemoveTask` share: they hold handles, and
-- `tasks` holds the objects. `new` gives the handle `next`; `deleted` lists the handles given to `delete`,
-- the last one first. The virtual functions are outside: `RedirectToTask` is handed what `dispatched`
-- says, and `RemoveInstanceTask` with `OP_REMOVE` answers the parameter `removable`; neither writes the
-- fields that stand here. A task's class, its loop and its debug settings are not modelled.
pub mod Clear
pub mod Life
use supertools_public.Common.{
  ℕ, ◌+◌, ◌-◌, ◌%◌, ◌^◌, Bool, true, false, not, ◌&&◌, ◌||◌, Option, none, some, List, [], ◌∷◌, ltb,
  ◌==◌, if◌then◌else◌, length, Map, find, put, erase,
}
use supertools_public.Session.Admin.{Sessions, op_vote_reset, admin_session}

-- `FILE_INIT`, `FLASHD_FLASH_INIT`, `FLASHD_UPDATE_INIT`, `FLASHD_ERASE`, `FLASHD_FORMAT`, `FORWARD_INIT`,
-- `APP_INIT`, `APP_UNINSTALL` and `APP_SIDELOAD`.
abbrev pub task_master_init : ℕ → Bool
task_master_init c =
    c == 3000
    || c == 4001
    || c == 4000
    || c == 4006
    || c == 4007
    || c == 2500
    || c == 3500
    || c == 3505
    || c == 3005

abbrev pub cmd_shell_init : ℕ
cmd_shell_init = 2000

abbrev pub cmd_unity_execute_ex : ℕ
cmd_unity_execute_ex = 1200

abbrev pub cmd_unity_command_head : ℕ
cmd_unity_command_head = 1000

abbrev pub cmd_unity_command_tail : ℕ
cmd_unity_command_tail = 1010

abbrev pub cmd_kernel_wakeup_slavetask : ℕ
cmd_kernel_wakeup_slavetask = 12

abbrev pub cmd_unity_bugreport_init : ℕ
cmd_unity_bugreport_init = 1011

-- The result and `masterTask`.
unfoldable pub need_new_task_info : Bool → ℕ → Bool × Bool
need_new_task_info server_or_daemon command =
    if not server_or_daemon
      && (command == cmd_shell_init
          || command == cmd_unity_execute_ex
          || (ltb cmd_unity_command_head command && ltb command cmd_unity_command_tail))
    then (true, false)
    else if command == cmd_kernel_wakeup_slavetask
    then (true, false)
    else if command == cmd_unity_bugreport_init
    then (true, false)
    else if task_master_init command
    then (true, true)
    else (false, false)

pub record TaskInformation : Type 0 where
  pub channel_id : ℕ
  pub session_id : ℕ
  pub task_stop : Bool
  pub task_free : Bool
  pub server_or_daemon : Bool
  pub master_slave : Bool
  pub close_retry_count : ℕ
  pub channel_task : Bool
  pub is_cleared : Bool

pub record Tasks : Type 0 where
  pub tasks : ℕ → TaskInformation
  pub next : ℕ
  pub map_task : Map ℕ
  pub timers : List ℕ
  pub deleted : List ℕ
  pub task_count : ℕ

abbrev pub set_task : ℕ → TaskInformation → (ℕ → TaskInformation) → ℕ → TaskInformation
set_task h x tasks i = if i == h then x else tasks i

pub data TaskOp : Type 0 where
  task_add : ℕ → TaskOp
  task_remove task_query task_vote_reset task_other : TaskOp

-- `delete` of what the entry held.
abbrev pub delete_old : Option ℕ → List ℕ → List ℕ
delete_old none deleted = deleted
delete_old (some h) deleted = h ∷ deleted

-- The sessions are there for `OP_VOTE_RESET`, which goes to `AdminSession`.
unfoldable pub admin_task : Bool → TaskOp → ℕ → ℕ → Sessions → Tasks → Option ℕ × Sessions × Tasks
unfolding admin_session
admin_task server (task_add h) session_id channel_id s t = (
  some h,
  s,
  record t {
    deleted = delete_old (find channel_id t.map_task) t.deleted;
    map_task = put channel_id h t.map_task;
  },
)
admin_task server task_remove session_id channel_id s t =
    (none, s, record t { map_task = erase channel_id t.map_task })
admin_task server task_query session_id channel_id s t = (find channel_id t.map_task, s, t)
admin_task server task_vote_reset session_id channel_id s t =
    (none, (admin_session server op_vote_reset session_id s).1, t)
admin_task server task_other session_id channel_id s t = (none, s, t)

-- What `DispatchTaskData` does with the data: it calls `RedirectToTask` on a task, or returns at once.
pub data Dispatched : Type 0 where
  redirected : ℕ → Dispatched
  returned : Bool → Dispatched

abbrev pub new_task : Bool → ℕ → ℕ → Bool → TaskInformation
new_task server session_id channel_id master_task = record {
  channel_id = channel_id;
  session_id = session_id;
  task_stop = false;
  task_free = false;
  server_or_daemon = server;
  master_slave = master_task;
  close_retry_count = 0;
  channel_task = false;
  is_cleared = false;
}

-- The loop around `AdminTask(OP_ADD)`, whose first try succeeds, as it returns the task it is given.
unfoldable pub add_new_task : Bool → ℕ → ℕ → Bool → Sessions → Tasks → Option ℕ × Sessions × Tasks
unfolding admin_task
add_new_task server session_id channel_id master_task s t =
    let h = t.next in
    let u = record t {
      tasks = set_task h (new_task server session_id channel_id master_task) t.tasks;
      next = t.next + 1;
    } in
    admin_task server (task_add h) session_id channel_id s u

abbrev pub redirect : Option ℕ × Sessions × Tasks → Dispatched × Sessions × Tasks
redirect (none, s, t) = (returned true, s, t)
redirect (some h, s, t) =
    (if (t.tasks h).task_stop || (t.tasks h).task_free then returned true else redirected h, s, t)

-- `alloc` is whether `new` succeeds.
unfoldable pub dispatch_task_data :
    Bool → Bool → ℕ → ℕ → ℕ → Sessions → Tasks → Dispatched × Sessions × Tasks
unfolding add_new_task need_new_task_info
dispatch_task_data alloc server session_id channel_id command s t =
    let (new, master_task) = need_new_task_info server command in
    if new
    then (if alloc
        then redirect (add_new_task server session_id channel_id master_task s t)
        else (returned true, s, t))
    else redirect (admin_task server task_query session_id channel_id s t)

unfoldable pub begin_remove_task : ℕ → Tasks → Tasks
begin_remove_task h t =
    let x = t.tasks h in
    if x.task_stop || x.task_free then t else record t {
      timers = h ∷ t.timers;
      tasks = set_task h (record x { task_stop = true }) t.tasks;
    }

-- The loop over `mapTask`, for one channel or for all: what stays in the map, and the rest.
unfoldable pub clear_loop : ℕ → Map ℕ → Tasks → Map ℕ × Tasks
unfolding begin_remove_task
clear_loop channel_id_input [] t = ([], t)
clear_loop channel_id_input ((c, h) ∷ m) t =
    let (kept, u) = clear_loop channel_id_input m t in
    let all = clear_loop channel_id_input m (begin_remove_task h t) in
    if channel_id_input == 0
    then all
    else if channel_id_input == c
    then (m, begin_remove_task h t)
    else ((c, h) ∷ kept, u)

unfoldable pub clear_own_tasks : ℕ → Tasks → Tasks
unfolding clear_loop
clear_own_tasks channel_id_input t =
    let (kept, u) =
      clear_loop channel_id_input t.map_task (record t { task_count = length t.map_task }) in
    record u { map_task = kept }

-- The result, and the task afterwards.
unfoldable pub try_remove_task : Bool → TaskInformation → Bool × TaskInformation
try_remove_task removable x =
    if x.task_free
    then (true, x)
    else if removable
    then (true, record x { task_free = true })
    else (false, x)

abbrev pub remove_handle : ℕ → List ℕ → List ℕ
remove_handle h [] = []
remove_handle h (i ∷ is) = let rest = remove_handle h is in if h == i then rest else i ∷ rest

-- `taskClassDeleteRetry`, which the timer of the task runs.
unfoldable pub delete_retry : Bool → ℕ → Tasks → Tasks
unfolding try_remove_task
delete_retry removable h t =
    let x = t.tasks h in
    let count =
      if x.close_retry_count == 0 || ltb 1000 x.close_retry_count then 1 else x.close_retry_count in
    let (done, y) =
      try_remove_task removable (record x { is_cleared = true; close_retry_count = count + 1 }) in
    if done
    then record t {
      tasks = set_task h y t.tasks;
      deleted = h ∷ t.deleted;
      task_count = (t.task_count + (2 ^ 32 - 1)) % 2 ^ 32;
      timers = remove_handle h t.timers;
    }
    else record t { tasks = set_task h y t.tasks }
