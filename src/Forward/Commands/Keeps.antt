-- ===== src/Forward/Commands/Keeps.antt =====
-- forward.cpp: `SetupPoint` and `BeginForward` keep the contexts of a task.
use supertools_public.Common.{
  ℕ, ◌≡◌, refl, ap, ◌∙◌, inl, inr, Bool, true, false, ◌||◌, Option, none, some, List, [], ◌∷◌,
  arith, ltb, if◌then◌else◌, Bool-cases, length, find, find-put_self,
}
use supertools_public.Base.Args.{split_command_to_args}
use supertools_public.Forward.Node.{
  ForwardType, tcp, device, jdwp, ark, abstract, reserved, filesystem, Args, check_node_info,
  detech_forward_type,
}
use supertools_public.Forward.Contexts.{
  opened, ContextForward, HdcForwardBase, Calls, ◌>>=◌, new_context, malloc_context, set_context,
  send_to_task, free_context, cmd_forward_check, cmd_forward_check_result,
  cmd_forward_active_master,
}
use supertools_public.Forward.Contexts.Sound.{
  Sound, Kept, Does, Returns, HasId, Kept-refl, Kept-trans, Kept-set_context, Kept-send_to_task,
  contexts-send_to_task, Kept-malloc_context, free_context-Does,
}
use supertools_public.Forward.Commands.{
  Status, negative, none_yet, positive, Outcome, flag_of, then_return, do_forward_begin,
  begin_if_sent, continue_with, setup_point_continue, setup_device_point, setup_type, typed,
  setup_detected, setup_point, forward_parameter, send_check, begun, with_local, with_ends,
  begin_ends, begin_forward,
}
use supertools_public.Server.Forwards.{c_string}

pub Does-after : (s t : HdcForwardBase) (o : Option HdcForwardBase) → Kept s t → Does t o → Does s o
Does-after s t o k (u, e, l) = (u, e, Kept-trans s t u k l)

pub Returns-after : (s t : HdcForwardBase) (o : Outcome) → Kept s t → Returns t o → Returns s o
Returns-after s t o k (b, u, e, l) = (b, u, e, Kept-trans s t u k l)

pub then_return-Returns :
    (b : Bool) (s : HdcForwardBase) (o : Option HdcForwardBase)
    → Does s o
    → Returns s (then_return b o)
then_return-Returns b s o (t, e, k) = (b, t, (rw (e) refl), k)

-- A branch.
pub Returns-if :
    (b : Bool) (s : HdcForwardBase) {o p : Outcome}
    → Returns s o
    → Returns s p
    → Returns s (if b then o else p)
Returns-if true s r q = r
Returns-if false s r q = q

-- One operation after another.
pub Returns-bind :
    (s : HdcForwardBase) (o : Outcome) (f : Bool × HdcForwardBase → Outcome)
    → Returns s o
    → ((b : Bool) (t : HdcForwardBase) → Kept s t → Returns t (f (b, t)))
    → Returns s (o >>= f)
Returns-bind s o f (b, t, e, k) g =
    let (b', u, e', l) = g b t k in (b', u, (rw (e) e'), Kept-trans s t u k l)

-- A write that leaves the id and the stage alone.
pub set_context-Kept :
    (h : ℕ) (c d : ContextForward) (s : HdcForwardBase)
    → Sound s
    → find h s.contexts ≡ some c
    → d.id ≡ c.id
    → d.finish ≡ c.finish
    → d.stage ≡ c.stage
    → Kept s (set_context h d s)
set_context-Kept h c d s t e i f g =
    Kept-set_context h c d s t e i (let q = t.staged h c e in ground (arith, q, f, g))

pub do_forward_begin-Returns :
    (h : ℕ) (c : ContextForward) (s : HdcForwardBase)
    → Sound s
    → find h s.contexts ≡ some c
    → Returns s (do_forward_begin h s)
unfolding do_forward_begin
do_forward_begin-Returns h c s t e =
    let d : ContextForward = record c { ready = true } in
    (true, set_context h d s, (rw (e) refl), set_context-Kept h c d s t e refl refl refl)

begin_if_sent-Returns :
    (calls : Calls) (h : ℕ) (c : ContextForward) (s : HdcForwardBase) (r : Bool × HdcForwardBase)
    → Kept s r.1
    → find h r.1.contexts ≡ some c
    → Returns s (begin_if_sent calls h r)
begin_if_sent-Returns calls h c s (true, t) k e =
    Returns-after s t (do_forward_begin h t) k (do_forward_begin-Returns h c t k.sound e)
begin_if_sent-Returns calls h c s (false, t) k e =
    Returns-after s t (then_return false (free_context calls h true t)) k (
      then_return-Returns false t (free_context calls h true t)
        (free_context-Does calls h true c t k.sound e))

continue_with-Returns :
    (calls : Calls) (status : Status) (h : ℕ) (c : ContextForward) (s : HdcForwardBase)
    → Sound s
    → find h s.contexts ≡ some c
    → Returns s (continue_with calls status h c s)
continue_with-Returns calls negative h c s t e =
    then_return-Returns false s (free_context calls h true s)
      (free_context-Does calls h true c s t e)
continue_with-Returns calls none_yet h c s t e =
    begin_if_sent-Returns calls h c s (send_to_task calls c.id cmd_forward_active_master [] s)
      (Kept-send_to_task calls c.id cmd_forward_active_master [] s t)
      (ap (find h) (contexts-send_to_task calls c.id cmd_forward_active_master [] s) ∙ e)
continue_with-Returns calls positive h c s t e =
    begin_if_sent-Returns calls h c s (send_to_task calls c.id cmd_forward_active_master [] s)
      (Kept-send_to_task calls c.id cmd_forward_active_master [] s t)
      (ap (find h) (contexts-send_to_task calls c.id cmd_forward_active_master [] s) ∙ e)

pub setup_point_continue-Returns :
    (calls : Calls) (status : Status) (h : ℕ) (c : ContextForward) (s : HdcForwardBase)
    → Sound s
    → find h s.contexts ≡ some c
    → Returns s (setup_point_continue calls status h s)
unfolding setup_point_continue
setup_point_continue-Returns calls status h c s t e =
    let u = (send_to_task calls c.id cmd_forward_check_result (flag_of status ∷ []) s).1 in
    let k : Kept s u =
      Kept-send_to_task calls c.id cmd_forward_check_result (flag_of status ∷ []) s t in
    let o = free_context calls h false u in
    let d = free_context-Does calls h false c u k.sound (
      ap (find h)
        (contexts-send_to_task calls c.id cmd_forward_check_result (flag_of status ∷ []) s)
      ∙ e) in
    rw (e) (
      Returns-if c.check_point s
        (Returns-after s u (then_return true o) k (then_return-Returns true u o d))
        (continue_with-Returns calls status h c s t e))

-- The same with another result.
pub again-Returns :
    (b : Bool) (s : HdcForwardBase) (o : Outcome)
    → Returns s o
    → Returns s (o >>= λ r. some (b, r.1))
again-Returns b s o (b', t, e, k) = (b, t, (rw (e) refl), k)

setup_device_point-Returns :
    (calls : Calls) (h : ℕ) (c : ContextForward) (s : HdcForwardBase)
    → Sound s
    → find h s.contexts ≡ some c
    → Returns s (setup_device_point calls h c s)
setup_device_point-Returns calls h c s t e =
    let d : ContextForward = record c { fd_class = true } in
    let u = set_context h d s in
    let k : Kept s u = set_context-Kept h c d s t e refl refl refl in
    let (b, v, q, l) =
      setup_point_continue-Returns calls positive h d u k.sound (find-put_self h d s.contexts) in
    let o = setup_point_continue calls positive h u in
    let r : Returns s (then_return true (o >>= λ x. some x.1)) =
      (true, v, (rw (q) refl), Kept-trans s u v k l) in
    Returns-if calls.allocates s r (false, s, refl, Kept-refl s t)

setup_type-Returns :
    (calls : Calls) (h : ℕ) (c : ContextForward) (s : HdcForwardBase) (k : ForwardType)
    → Sound s
    → find h s.contexts ≡ some c
    → Returns s (setup_type calls h c s k)
setup_type-Returns calls h c s tcp t e = (calls.opens, s, refl, Kept-refl s t)
setup_type-Returns calls h c s device t e = setup_device_point-Returns calls h c s t e
setup_type-Returns calls h c s jdwp t e = (false, s, refl, Kept-refl s t)
setup_type-Returns calls h c s ark t e = (false, s, refl, Kept-refl s t)
setup_type-Returns calls h c s reserved t e = (calls.opens, s, refl, Kept-refl s t)
setup_type-Returns calls h c s filesystem t e = (calls.opens, s, refl, Kept-refl s t)
setup_type-Returns calls h c s abstract t e =
    let status : Status = if calls.opens then none_yet else negative in
    Returns-if c.master_slave s (calls.opens, s, refl, Kept-refl s t)
      (again-Returns calls.opens s (setup_point_continue calls status h s)
        (setup_point_continue-Returns calls status h c s t e))

setup_detected-Returns :
    (calls : Calls) (h : ℕ) (c : ContextForward) (s : HdcForwardBase)
    (o : Option (ForwardType × Args))
    → Sound s
    → find h s.contexts ≡ some c
    → Returns s (setup_detected calls h c s o)
setup_detected-Returns calls h c s none t e = (false, s, refl, Kept-refl s t)
setup_detected-Returns calls h c s (some (kind, args)) t e =
    let d = typed c (kind, args) in
    let u = set_context h d s in
    let k : Kept s u = set_context-Kept h c d s t e refl refl refl in
    Returns-after s u (setup_type calls h d u kind) k
      (setup_type-Returns calls h d u kind k.sound (find-put_self h d s.contexts))

pub setup_point-Returns :
    (calls : Calls) (h : ℕ) (c : ContextForward) (s : HdcForwardBase)
    → Sound s
    → find h s.contexts ≡ some c
    → Returns s (setup_point calls h s)
unfolding setup_point
setup_point-Returns calls h c s t e =
    rw (e) (setup_detected-Returns calls h c s (detech_forward_type c.local_args) t e)

Kept-commanded :
    (s : HdcForwardBase) (command : List ℕ) → Sound s → Kept s (record s { task_command = command })
Kept-commanded s command t = record {
  sound = record {
    counted = t.counted;
    ordered = t.ordered;
    indexed = t.indexed;
    fewer = t.fewer;
    mapped = t.mapped;
    staged = t.staged;
    below = t.below;
  };
  still = λ h c e. (c, e, refl);
  grows = omega arith;
}

send_check-Kept :
    (calls : Calls) (i : ℕ) (command : List ℕ) (s : HdcForwardBase) (o : Option (List ℕ))
    → Sound s
    → Kept s (send_check calls i command s o)
send_check-Kept calls i command s none t = Kept-refl s t
send_check-Kept calls i command s (some content) t =
    let u = (send_to_task calls i cmd_forward_check content s).1 in
    let k : Kept s u = Kept-send_to_task calls i cmd_forward_check content s t in
    Kept-trans s u (record u { task_command = command }) k (Kept-commanded u command k.sound)

begun-Returns :
    (calls : Calls) (command remote : List ℕ) (h i : ℕ) (b : Bool) (s : HdcForwardBase)
    → Sound s
    → HasId h i s
    → Returns s (begun calls command remote h (b, s))
begun-Returns calls command remote h i false s t f = (false, s, refl, Kept-refl s t)
begun-Returns calls command remote h i true s t (c, e, p) = (
  true,
  send_check calls c.id command s (forward_parameter 247 remote),
  (rw (e) refl),
  send_check-Kept calls c.id command s (forward_parameter 247 remote) t,
)

-- The tests of `BeginForward` leave the new context's id and stage alone.
IsNew : ℕ → ContextForward → Type 0
IsNew random c = (c.id ≡ random) × (c.finish ≡ false) × (c.stage ≡ opened)

with_local-IsNew :
    (random : ℕ) (c : ContextForward) (remote : List ℕ) (r : Bool × Args)
    → IsNew random c
    → IsNew random (with_local c remote r).1
unfolding IsNew
with_local-IsNew random c remote (false, args) n = n
with_local-IsNew random c remote (true, args) n = n

with_ends-IsNew :
    (random : ℕ) (c : ContextForward) (o : Option (List (List ℕ)))
    → IsNew random c
    → IsNew random (with_ends c o).0.1
unfolding IsNew
with_ends-IsNew random c none n = n
with_ends-IsNew random c (some []) n = n
with_ends-IsNew random c (some (local ∷ [])) n = n
with_ends-IsNew random c (some (local ∷ remote ∷ more)) n =
    elim (Bool-cases (ltb 256 (length local) || ltb 256 (length remote))) [
      | inl e ↦ rw (e) n
      | inr e ↦ rw (e) (with_local-IsNew random c remote (check_node_info local c.local_args) n)
    ]

begin_ends-Returns :
    (calls : Calls) (command : List ℕ) (h : ℕ) (c : ContextForward) (u : HdcForwardBase)
    (r : (Bool × ContextForward) × List ℕ)
    → Sound u
    → find h u.contexts ≡ some c
    → r.0.1.id ≡ c.id
    → r.0.1.finish ≡ c.finish
    → r.0.1.stage ≡ c.stage
    → Returns u (begin_ends calls command h u r)
begin_ends-Returns calls command h c u ((false, d), remote) t e i f g =
    (false, set_context h d u, refl, set_context-Kept h c d u t e i f g)
begin_ends-Returns calls command h c u ((true, d), remote) t e i f g =
    let v = set_context h d u in
    let l : Kept u v = set_context-Kept h c d u t e i f g in
    let here : find h v.contexts ≡ some d = find-put_self h d u.contexts in
    Returns-after u v (setup_point calls h v >>= λ r. begun calls command remote h r) l (
      Returns-bind v (setup_point calls h v) (λ r. begun calls command remote h r)
        (setup_point-Returns calls h d v l.sound here)
        (λ b w k. begun-Returns calls command remote h d.id b w k.sound (k.still h d here)))

pub begin_forward-Returns :
    (calls : Calls) (random : ℕ) (command : List ℕ) (s : HdcForwardBase)
    → Sound s
    → Returns s (begin_forward calls random command s)
unfolding begin_forward malloc_context IsNew
begin_forward-Returns calls random command s t =
    let u = malloc_context random true s in
    let k : Kept s u = Kept-malloc_context random true s t in
    let c = new_context random true in
    let r = with_ends c (split_command_to_args (c_string command)) in
    let (i, f, g) =
      with_ends-IsNew random c (split_command_to_args (c_string command)) (refl, refl, refl) in
    Returns-after s u (begin_ends calls command s.made u r) k (
      begin_ends-Returns calls command s.made c u r k.sound (find-put_self s.made c s.contexts) i f
        g)
