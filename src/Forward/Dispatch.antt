-- ===== src/Forward/Dispatch.antt =====
-- forward.cpp: what the other side's commands and the streams do to a forwarding task, `SlaveConnect`,
-- `ForwardCommandDispatch`, `CommandDispatch`, `ListenCallback`, `OnAccept`, `ReadForwardBuf`,
-- `SendForwardBuf`, `SendCallbackForwardBuf`, `ConnectTarget`.
--
-- `Calls.opens` is here whether `uv_accept` succeeds and whether a stream takes a write. What the task tells
-- its channel and the server besides `announced` is left out.
pub mod Keeps
use supertools_public.Common.{
  ℕ, zero, suc, ◌+◌, ◌-◌, ◌*◌, ◌/◌, ◌%◌, ◌^◌, ◌≤◌, ◌<◌, min, ◌≡◌, refl, sym, ap, ap₂, ◌∙◌, subst,
  ◌≢◌, ◌↔◌, ◌⊎◌, inl, inr, Bool, true, false, not, ◌&&◌, ◌||◌, Option, none, some, List, [], ◌∷◌,
  ◌++◌, map, append-nil, append_assoc, arith, ltb, leb, ◌==◌, if◌then◌else◌, ==_iff, ==_self, ==_ne,
  Bool-cases, Option-cases, All, All-append, length, get_elem?, get_or, take, drop, replicate,
  length-append, take-append-drop, length-take, length-drop, length-replicate, take_prefix,
  drop_prefix, take_all, drop_all, take-append, drop-append, get_or-append, Map, find, has, put,
  erase, Above, Sorted, find-put_self, find-put_ne, find-erase_self, find-erase_ne, has-find,
  find-has, Above-put, Sorted-put, Above-erase, Sorted-erase, find-below, find-put, find-erase,
  codes, str_eq, str_eq→eq, str_eq_self,
}
use supertools_public.Common.Bytes.{be32, read_be32}
use supertools_public.Forward.Node.{
  ForwardType, tcp, device, jdwp, ark, abstract, reserved, filesystem, Args, check_node_info,
  detech_forward_type,
}
use supertools_public.Forward.Contexts.{
  ContextForward, HdcForwardBase, Calls, ◌>>=◌, new_context, malloc_context, query_context,
  set_context, send_to_task, filter_command, free_context, buf_extend_size, cmd_forward_check,
  cmd_forward_check_result, cmd_forward_active_slave, cmd_forward_active_master, cmd_forward_data,
  cmd_forward_free_context,
}
use supertools_public.Forward.Commands.{
  Status, negative, none_yet, positive, Outcome, then_return, do_forward_begin,
  setup_point_continue, setup_point, forward_parameter, begin_forward, typed,
}
use supertools_public.Server.Forwards.{c_string}

-- The new context of `SlaveConnect`, under the id that the other side has given it.
unfoldable pub slave_context : ℕ → ℕ → Bool → HdcForwardBase → HdcForwardBase
unfolding malloc_context
slave_context random i check s =
    let t = malloc_context random false s in
    record t {
      map_ctx_point = put i s.made (erase random t.map_ctx_point);
      contexts =
          put s.made (record (new_context random false) { id = i; check_point = check }) t.contexts;
    }

-- A type other than FORWARD_ARK: a check goes on at once, else the point is set up, which detects the type
-- once more.
abbrev pub slave_point : Calls → Bool → ℕ → HdcForwardBase → Outcome
slave_point calls check h s =
    if check
    then (setup_point_continue calls none_yet h s >>= λ r. some (true, r.1))
    else setup_point calls h s

abbrev pub slave_type : Calls → Bool → ℕ → HdcForwardBase → ForwardType → Outcome
slave_type calls check h s ark =
    if check
    then some (false, s)
    else setup_point_continue calls none_yet h s >>= λ r. some (true, r.1)
slave_type calls check h s tcp = slave_point calls check h s
slave_type calls check h s device = slave_point calls check h s
slave_type calls check h s jdwp = slave_point calls check h s
slave_type calls check h s abstract = slave_point calls check h s
slave_type calls check h s reserved = slave_point calls check h s
slave_type calls check h s filesystem = slave_point calls check h s

abbrev pub slave_detected :
    Calls → Bool → ℕ → ContextForward → HdcForwardBase → Option (ForwardType × Args) → Outcome
slave_detected calls check h c s none = some (false, set_context h c s)
slave_detected calls check h c s (some d) =
    slave_type calls check h (set_context h (typed c d) s) d.0

abbrev pub slave_node : Calls → Bool → ℕ → ContextForward → HdcForwardBase → Bool × Args → Outcome
slave_node calls check h c s (false, args) =
    some (false, set_context h (record c { local_args = args }) s)
slave_node calls check h c s (true, args) =
    slave_detected calls check h (record c { local_args = args }) s (detech_forward_type args)

-- `Finish`.
abbrev pub slave_finish : Calls → ℕ → Bool × HdcForwardBase → Outcome
slave_finish calls h (true, t) = some (true, t)
slave_finish calls h (false, t) = then_return false (free_context calls h true t)

unfoldable pub slave_connect : Calls → ℕ → List ℕ → Bool → HdcForwardBase → Outcome
unfolding slave_context setup_point_continue setup_point check_node_info detech_forward_type
    free_context filter_command
slave_connect calls random payload check s =
    let (i, content) = filter_command payload in
    let t = slave_context random i check s in
    let node = c_string (drop 8 content) in
    if leb (length payload) (buf_extend_size + 8)
    then some (false, s)
    else find s.made t.contexts >>= λ c.
        slave_node calls check s.made c t (check_node_info node c.local_args) >>= λ r.
        slave_finish calls s.made r

-- `SendForwardBuf`: whether the stream of the context has taken the bytes.
abbrev pub send_forward_buf : Calls → ContextForward → List ℕ → Bool × ContextForward
send_forward_buf calls c content =
    if ltb (2 ^ 31 - 2) (length content) || length content == 0 || not calls.opens
    then (false, c)
    else (true, record c { written = c.written ++ content })

abbrev pub forward_data : Calls → ℕ → HdcForwardBase → Bool × ContextForward → Outcome
forward_data calls h s (true, c) = some (true, set_context h c s)
forward_data calls h s (false, c) = then_return true (free_context calls h true s)

-- `CommandForwardCheckResult`, which looks at whether there is a content and not at its flag.
abbrev pub command_forward_check_result : ℕ → ContextForward → HdcForwardBase → Outcome
command_forward_check_result h c s = some (
  true,
  record (set_context h (record c { ready = true }) s) {
    announced =
        s.announced
        ++ ((if s.server_or_daemon then codes "1|" else codes "0|") ++ (s.task_command ++ 0 ∷ []))
          ∷ [];
  },
)

abbrev pub dispatch_found : Calls → ℕ → List ℕ → ℕ → HdcForwardBase → ContextForward → Outcome
dispatch_found calls command content h s c =
    if command == cmd_forward_check_result
    then command_forward_check_result h c s
    else if command == cmd_forward_active_master
    then do_forward_begin h s
    else if command == cmd_forward_data
    then if c.finish
      then some (true, s)
      else forward_data calls h s (send_forward_buf calls c content)
    else if command == cmd_forward_free_context
    then then_return true (free_context calls h false s)
    else then_return false (free_context calls h true s)

abbrev pub dispatch_to : Calls → ℕ → List ℕ → HdcForwardBase → Option ℕ → Outcome
dispatch_to calls command content s none = some (true, s)
dispatch_to calls command content s (some h) =
    find h s.contexts >>= λ c. dispatch_found calls command content h s c

unfoldable pub forward_command_dispatch : Calls → ℕ → List ℕ → HdcForwardBase → Outcome
unfolding filter_command do_forward_begin free_context
forward_command_dispatch calls command payload s =
    let (i, content) = filter_command payload in
    if leb (length payload) buf_extend_size
      && not (command == cmd_forward_free_context)
      && not (command == cmd_forward_active_master)
    then some (false, s)
    else dispatch_to calls command content s (query_context i s)

-- `CMD_FORWARD_INIT`.
abbrev pub cmd_forward_init : ℕ
cmd_forward_init = 2500

unfoldable pub command_dispatch : Calls → ℕ → ℕ → List ℕ → HdcForwardBase → Outcome
unfolding begin_forward slave_connect forward_command_dispatch
command_dispatch calls random command payload s =
    if command == cmd_forward_init
    then begin_forward calls random payload s
    else if command == cmd_forward_check
    then slave_connect calls random payload true s
    else if command == cmd_forward_active_slave
    then slave_connect calls random payload false s
    else forward_command_dispatch calls command payload s

-- What `OnAccept` sends; 1015 characters fit behind the parameters.
abbrev pub accept_send :
    Calls → ℕ → ContextForward → HdcForwardBase → Option (List ℕ) → Option HdcForwardBase
accept_send calls h c t none = free_context calls h false (set_context h c t)
accept_send calls h c t (some content) =
    some (send_to_task calls c.id cmd_forward_active_slave content (set_context h c t)).1

abbrev pub accept_parameter : List ℕ → Option (List ℕ)
accept_parameter text =
    if ltb 1015 (length text) then none else some (replicate 8 0 ++ (text ++ 0 ∷ []))

abbrev pub on_accept : Calls → ContextForward → ℕ → HdcForwardBase → Option HdcForwardBase
on_accept calls listen h t = find h t.contexts >>= λ c.
    if calls.opens
    then accept_send calls h
        (record c {
          forward_type = listen.forward_type;
          remote_parameters = listen.remote_parameters;
        })
        t (accept_parameter listen.remote_parameters)
    else free_context calls h false t

unfoldable pub listen_callback : Calls → Bool → ℕ → ℕ → HdcForwardBase → Option HdcForwardBase
unfolding malloc_context free_context send_to_task
listen_callback calls failed random h s = find h s.contexts >>= λ c.
    if failed || not c.ready
    then free_context calls h false s
    else on_accept calls c s.made (malloc_context random true s)

-- None is an error of the read.
abbrev pub read_bytes :
    Calls → ℕ → ContextForward → HdcForwardBase → Option (List ℕ) → Option HdcForwardBase
read_bytes calls h c s none = free_context calls h true s
read_bytes calls h c s (some bytes) =
    if length bytes == 0 then some s else some (send_to_task calls c.id cmd_forward_data bytes s).1

unfoldable pub read_forward_buf :
    Calls → Option (List ℕ) → ℕ → HdcForwardBase → Option HdcForwardBase
unfolding send_to_task free_context
read_forward_buf calls nread h s = find h s.contexts >>= λ c. read_bytes calls h c s nread

unfoldable pub send_callback_forward_buf : Calls → Bool → ℕ → HdcForwardBase → Option HdcForwardBase
unfolding free_context
send_callback_forward_buf calls failed h s = find h s.contexts >>= λ c.
    if failed && not c.finish then free_context calls h true s else some s

unfoldable pub connect_target : Calls → Status → ℕ → HdcForwardBase → Option HdcForwardBase
unfolding setup_point_continue
connect_target calls status h s = setup_point_continue calls status h s >>= λ r. some r.1
