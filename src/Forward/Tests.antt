-- ===== src/Forward/Tests.antt =====
-- The theorems on forwarding at concrete inputs.
use supertools_public.Common.{
  ℕ, ◌^◌, ◌<◌, ◌≡◌, refl, ◌↔◌, Bool, true, false, not, Option, none, some, List, [], ◌∷◌, ◌++◌,
  arith, length, find, codes,
}
use supertools_public.Forward.Node.{check_node_info}
use supertools_public.Forward.Node.Shape.{IsNode, check_node_info_iff}
use supertools_public.Forward.Contexts.{
  ContextForward, HdcForwardBase, Calls, new_context, malloc_context, query_context, stop_task,
}
use supertools_public.Forward.Contexts.Sound.{HasId, is_open}
use supertools_public.Forward.Commands.{setup_point, setup_point_continue}
use supertools_public.Forward.Dispatch.{
  command_dispatch, slave_connect, slave_context, forward_command_dispatch,
}
use supertools_public.Forward.Alive.{
  Callback, call_back, Ending, comes_at, end_with, new_task, here, there, commands, forward-alive,
}
use supertools_public.Forward.Flow.{read_all, dispatch_all, Given, concat, dispatch_all-read_all}

check_node_info_iff_example :
    (check_node_info (codes "tcp:8080") ([], []) ≡ (true, (codes "tcp", codes "8080")))
    ↔ IsNode (codes "tcp:8080") (codes "tcp") (codes "8080")
check_node_info_iff_example =
    check_node_info_iff (codes "tcp:8080") (codes "tcp") (codes "8080") ([], [])

abbrev works : Calls
works = record { sends = true; opens = true; allocates = true; streaming = true }

-- A peer asks for a connection of its context 7 to port 80.
abbrev connect_7 : List ℕ
connect_7 = 0 ∷ 0 ∷ 0 ∷ 7 ∷ 0 ∷ 0 ∷ 0 ∷ 0 ∷ 0 ∷ 0 ∷ 0 ∷ 0 ∷ codes "tcp:80" ++ 0 ∷ []

abbrev connected : Option (Bool × HdcForwardBase)
connected = command_dispatch works 5 2503 connect_7 (new_task false)

abbrev task_of : Option (Bool × HdcForwardBase) → HdcForwardBase
task_of none = new_task false
task_of (some r) = r.1

abbrev slave : HdcForwardBase
slave = task_of connected

connected_lem : connected ≡ some (true, slave)
unfolding command_dispatch slave_connect slave_context malloc_context setup_point
    setup_point_continue forward_command_dispatch check_node_info
connected_lem = refl

few_contexts : slave.made < 2 ^ 32
unfolding command_dispatch slave_connect slave_context malloc_context setup_point
    setup_point_continue forward_command_dispatch check_node_info
few_contexts = omega arith

forward-alive_example :
    ((i h : ℕ) → query_context i slave ≡ some h → HasId h i slave)
    × ((h : ℕ) (c : ContextForward)
        → find h slave.contexts ≡ some c
        → c.finish ≡ not (is_open c.stage))
    × (slave.ref_count ≡ length slave.contexts)
    × ((calls : Calls) (random command : ℕ) (payload : List ℕ)
        → (b : Bool) × (t : HdcForwardBase) × (command_dispatch calls random command payload slave
            ≡ some (b, t)))
    × ((calls : Calls) (e : Callback) (h : ℕ) (c : ContextForward)
        → find h slave.contexts ≡ some c
        → (t : HdcForwardBase) × (call_back calls e h slave ≡ some t))
    × ((e : Ending) (h : ℕ) (c : ContextForward)
        → find h slave.contexts ≡ some c
        → comes_at e c.stage ≡ true
        → (t : HdcForwardBase) × (end_with e h slave ≡ some t))
    × ((calls : Calls) → (t : HdcForwardBase) × (stop_task calls slave ≡ some t))
forward-alive_example =
    forward-alive slave (there (here false) (commands works 5 2503 connect_7 true connected_lem))
      few_contexts

-- A task with one context, under an id.
abbrev task_with : ℕ → HdcForwardBase
task_with i = record {
  ref_count = 1;
  map_ctx_point = (i, 0) ∷ [];
  contexts = (0, new_context i true) ∷ [];
  made = 1;
  server_or_daemon = true;
  task_command = [];
  sent = [];
  announced = [];
}

abbrev two_reads : List (List ℕ)
two_reads = codes "ab" ∷ codes "c" ∷ []

dispatch_all-read_all_example :
    (commands : List (ℕ × List ℕ)) × (t : HdcForwardBase) × (read_all works 0 two_reads
        (task_with 9)
      ≡ some (record (task_with 9) { sent = (task_with 9).sent ++ commands }))
    × (dispatch_all works commands (task_with 9) ≡ some t)
    × Given 0 (new_context 9 true) (concat two_reads) (task_with 9) t
dispatch_all-read_all_example =
    dispatch_all-read_all works works 0 (new_context 9 true) (task_with 9) 0 (new_context 9 true)
      (task_with 9) two_reads refl refl (omega arith) refl refl refl refl (omega arith)
