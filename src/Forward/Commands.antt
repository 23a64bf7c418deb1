-- ===== src/Forward/Commands.antt =====
-- forward.cpp: the commands of a forwarding and the callbacks of its streams, `BeginForward`, `SlaveConnect`,
-- `SetupPoint`, `SetupPointContinue`, `ForwardCommandDispatch`, `CommandDispatch`, `ListenCallback`,
-- `ReadForwardBuf`, `SendForwardBuf`.
--
-- The calls of libuv, of the device and of the other threads are the arguments `Calls`. The virtual functions
-- `SetupJdwpPoint` and `SetupArkPoint` are those of the base class, which the host uses. The texts of errors
-- and of the log are left out. A text in a payload ends with a 0, and the bytes of a payload behind its end
-- are not read.
pub mod Keeps
use supertools_public.Common.{
  ℕ, zero, suc, ◌+◌, ◌-◌, ◌*◌, ◌/◌, ◌%◌, ◌^◌, ◌≤◌, ◌<◌, min, ◌≡◌, refl, sym, ap, ap₂, ◌∙◌, subst,
  ◌≢◌, ◌↔◌, ◌⊎◌, inl, inr, Bool, true, false, not, ◌&&◌, ◌||◌, Option, none, some, List, [], ◌∷◌,
  ◌++◌, map, append-nil, append_assoc, arith, ltb, leb, ◌==◌, if◌then◌else◌, ==_iff, ==_self, ==_ne,
  Bool-cases, Option-cases, All, All-append, length, get_elem?, get_or, take, drop, replicate,
  length-append, take-append-drop, length-take, length-drop, length-replicate, take_prefix,
  drop_prefix, take_all, drop_all, take-append, drop-append, get_or-append, Map, find, has, put,
  erase, Above, Sorted, find-put_self, find-put_ne, find-erase_self, find-erase_ne, has-find,
  find-has, Above-put, Sorted-put, Above-erase, Sorted-erase, find-below, find-put, find-erase,
  codes, str_eq, str_eq→eq, str_eq_self,
}
use supertools_public.Common.Bytes.{be32, read_be32}
use supertools_public.Base.Args.{split_command_to_args}
use supertools_public.Forward.Node.{
  ForwardType, tcp, device, jdwp, ark, abstract, reserved, filesystem, Args, check_node_info,
  detech_forward_type,
}
use supertools_public.Forward.Contexts.{
  ContextForward, HdcForwardBase, Calls, ◌>>=◌, new_context, malloc_context, query_context,
  set_context, send_to_task, filter_command, free_context, buf_extend_size, cmd_forward_check,
  cmd_forward_check_result, cmd_forward_active_slave, cmd_forward_active_master, cmd_forward_data,
  cmd_forward_free_context,
}
use supertools_public.Server.Forwards.{c_string}

-- An `int` status of libuv.
pub data Status : Type 0 where
  negative none_yet positive : Status

-- What an operation returns, and the task after it.
abbrev pub Outcome : Type 0
Outcome = Option (Bool × HdcForwardBase)

abbrev pub flag_of : Status → ℕ
flag_of negative = 0
flag_of none_yet = 0
flag_of positive = 1

abbrev pub then_return : Bool → Option HdcForwardBase → Outcome
then_return b o = o >>= λ t. some (b, t)

-- `DoForwardBegin`, but for the start of the reads.
unfoldable pub do_forward_begin : ℕ → HdcForwardBase → Outcome
do_forward_begin h s =
    find h s.contexts >>= λ c. some (true, set_context h (record c { ready = true }) s)

abbrev pub begin_if_sent : Calls → ℕ → Bool × HdcForwardBase → Outcome
begin_if_sent calls h (true, t) = do_forward_begin h t
begin_if_sent calls h (false, t) = then_return false (free_context calls h true t)

abbrev pub continue_with : Calls → Status → ℕ → ContextForward → HdcForwardBase → Outcome
continue_with calls negative h c s = then_return false (free_context calls h true s)
continue_with calls none_yet h c s =
    begin_if_sent calls h (send_to_task calls c.id cmd_forward_active_master [] s)
continue_with calls positive h c s =
    begin_if_sent calls h (send_to_task calls c.id cmd_forward_active_master [] s)

unfoldable pub setup_point_continue : Calls → Status → ℕ → HdcForwardBase → Outcome
unfolding free_context send_to_task do_forward_begin
setup_point_continue calls status h s = find h s.contexts >>= λ c.
    if c.check_point
    then then_return true (
        free_context calls h false
          (send_to_task calls c.id cmd_forward_check_result (flag_of status ∷ []) s).1)
    else continue_with calls status h c s

-- `SetupFilePoint` of an abstract socket on the slave's side: connected or not, it goes on at once.
abbrev pub connect_abstract : Calls → ℕ → HdcForwardBase → Outcome
connect_abstract calls h s =
    setup_point_continue calls (if calls.opens then none_yet else negative) h s >>= λ r.
    some (calls.opens, r.1)

-- `SetupDevicePoint`: whether the device could be opened, the status is positive (-1 as a `uint8_t` is 255).
abbrev pub setup_device_point : Calls → ℕ → ContextForward → HdcForwardBase → Outcome
setup_device_point calls h c s =
    if calls.allocates
    then then_return true (
        setup_point_continue calls positive h (set_context h (record c { fd_class = true }) s)
        >>= λ r. some r.1)
    else some (false, s)

abbrev pub setup_type : Calls → ℕ → ContextForward → HdcForwardBase → ForwardType → Outcome
setup_type calls h c s tcp = some (calls.opens, s)
setup_type calls h c s device = setup_device_point calls h c s
setup_type calls h c s jdwp = some (false, s)
setup_type calls h c s ark = some (false, s)
setup_type calls h c s abstract =
    if c.master_slave then some (calls.opens, s) else connect_abstract calls h s
setup_type calls h c s reserved = some (calls.opens, s)
setup_type calls h c s filesystem = some (calls.opens, s)

-- The context with what `DetechForwardType` makes of it.
abbrev pub typed : ContextForward → ForwardType × Args → ContextForward
typed c (kind, args) = record c { forward_type = kind; local_args = args }

abbrev pub setup_detected :
    Calls → ℕ → ContextForward → HdcForwardBase → Option (ForwardType × Args) → Outcome
setup_detected calls h c s none = some (false, s)
setup_detected calls h c s (some d) =
    setup_type calls h (typed c d) (set_context h (typed c d) s) d.0

unfoldable pub setup_point : Calls → ℕ → HdcForwardBase → Outcome
unfolding setup_point_continue detech_forward_type
setup_point calls h s =
    find h s.contexts >>= λ c. setup_detected calls h c s (detech_forward_type c.local_args)

-- The 8 bytes of parameters, the text and its 0. `snprintf_s` fails for a text that does not fit.
abbrev pub forward_parameter : ℕ → List ℕ → Option (List ℕ)
forward_parameter room text =
    if ltb room (length text) || length text == 0
    then none
    else some (replicate 8 0 ++ (text ++ 0 ∷ []))

abbrev pub send_check : Calls → ℕ → List ℕ → HdcForwardBase → Option (List ℕ) → HdcForwardBase
send_check calls i command s none = s
send_check calls i command s (some content) =
    record (send_to_task calls i cmd_forward_check content s).1 { task_command = command }

-- The end of `BeginForward`; 247 characters fit behind the parameters.
abbrev pub begun : Calls → List ℕ → List ℕ → ℕ → Bool × HdcForwardBase → Outcome
begun calls command remote h (false, t) = some (false, t)
begun calls command remote h (true, t) = find h t.contexts >>= λ c.
    some (true, send_check calls c.id command t (forward_parameter 247 remote))

-- The tests of `BeginForward`: the context with the two ends, if they are well-formed.
abbrev pub with_remote : ContextForward → List ℕ → Bool × Args → Bool × ContextForward
with_remote c remote (ok, args) = (
  ok,
  record c { remote_args = args; remote_parameters = if ok then remote else c.remote_parameters },
)

abbrev pub with_local : ContextForward → List ℕ → Bool × Args → Bool × ContextForward
with_local c remote (false, args) = (false, record c { local_args = args })
with_local c remote (true, args) =
    with_remote (record c { local_args = args }) remote (check_node_info remote c.remote_args)

abbrev pub with_ends : ContextForward → Option (List (List ℕ)) → (Bool × ContextForward) × List ℕ
with_ends c none = ((false, c), [])
with_ends c (some []) = ((false, c), [])
with_ends c (some (local ∷ [])) = ((false, c), [])
with_ends c (some (local ∷ remote ∷ more)) = (
  if ltb 256 (length local) || ltb 256 (length remote)
      then (false, c)
      else with_local c remote (check_node_info local c.local_args),
  remote,
)

abbrev pub begin_ends :
    Calls → List ℕ → ℕ → HdcForwardBase → (Bool × ContextForward) × List ℕ → Outcome
begin_ends calls command h s ((false, c), remote) = some (false, set_context h c s)
begin_ends calls command h s ((true, c), remote) =
    setup_point calls h (set_context h c s) >>= λ r. begun calls command remote h r

unfoldable pub begin_forward : Calls → ℕ → List ℕ → HdcForwardBase → Outcome
unfolding setup_point malloc_context check_node_info split_command_to_args
begin_forward calls random command s =
    begin_ends calls command s.made (malloc_context random true s)
      (with_ends (new_context random true) (split_command_to_args (c_string command)))
