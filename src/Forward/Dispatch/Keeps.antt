-- ===== src/Forward/Dispatch/Keeps.antt =====
-- forward.cpp: the commands of the other side and the callbacks of streams keep the contexts of a task.
use supertools_public.Common.{
  ℕ, ◌-◌, ◌^◌, ◌≡◌, refl, sym, ap, ◌∙◌, subst, inl, inr, Bool, true, false, not, ◌&&◌, ◌||◌, Option,
  none, some, List, [], ◌∷◌, ◌++◌, arith, ltb, leb, ◌==◌, if◌then◌else◌, Bool-cases, length, drop,
  find, put, erase, find-put_self, find-put_ne, Sorted-put, Sorted-erase, length-put_old,
  find-put-some, find-erase-some, codes,
}
use supertools_public.Forward.Node.{
  ForwardType, tcp, device, jdwp, ark, abstract, reserved, filesystem, Args, check_node_info,
  detech_forward_type,
}
use supertools_public.Forward.Contexts.{
  ContextForward, HdcForwardBase, Calls, ◌>>=◌, new_context, malloc_context, query_context,
  set_context, send_to_task, filter_command, free_context, cmd_forward_check_result,
  cmd_forward_active_slave, cmd_forward_active_master, cmd_forward_data, cmd_forward_free_context,
}
use supertools_public.Forward.Contexts.Sound.{
  Sound, Kept, Does, Returns, HasId, IsStaged, Kept-refl, Kept-trans, Kept-send_to_task,
  Kept-malloc_context, free_context-Does,
}
use supertools_public.Forward.Commands.{Status, none_yet, setup_point_continue, typed}
use supertools_public.Forward.Commands.Keeps.{
  Does-after, Returns-after, then_return-Returns, Returns-if, Returns-bind, set_context-Kept,
  do_forward_begin-Returns, setup_point_continue-Returns, again-Returns, setup_point-Returns,
  begin_forward-Returns,
}
use supertools_public.Forward.Dispatch.{
  slave_context, slave_point, slave_type, slave_detected, slave_node, slave_finish, slave_connect,
  send_forward_buf, forward_data, command_forward_check_result, dispatch_found, dispatch_to,
  forward_command_dispatch, command_dispatch, accept_send, accept_parameter, on_accept,
  listen_callback, read_bytes, read_forward_buf, send_callback_forward_buf, connect_target,
}
use supertools_public.Server.Forwards.{c_string}

-- `SlaveConnect`'s context takes another id, which another context may have too.
slave_context-Kept :
    (random i : ℕ) (check : Bool) (s : HdcForwardBase)
    → Sound s
    → Kept s (slave_context random i check s)
unfolding slave_context malloc_context
slave_context-Kept random i check s t =
    let u = malloc_context random false s in
    let k : Kept s u = Kept-malloc_context random false s t in
    let c = new_context random false in
    let d : ContextForward = record c { id = i; check_point = check } in
    let m = put s.made d u.contexts in
    let e : find s.made u.contexts ≡ some c = find-put_self s.made c s.contexts in
    let old : (h : ℕ) (x : ContextForward) → find h s.contexts ≡ some x → find h m ≡ some x =
      λ h x f.
        let l = t.below h x f in
        find-put_ne s.made h d u.contexts (λ p. omega (arith, l, p))
        ∙ find-put_ne s.made h c s.contexts (λ p. omega (arith, l, p))
        ∙ f in
    let same = length-put_old s.made d c u.contexts k.sound.ordered e in
    record {
      sound = record {
        counted = λ l. k.sound.counted l ∙ sym same;
        ordered = Sorted-put s.made d u.contexts k.sound.ordered;
        indexed =
            Sorted-put i s.made (erase random u.map_ctx_point)
              (Sorted-erase random u.map_ctx_point k.sound.indexed);
        fewer = rw (same) k.sound.fewer;
        mapped = λ j h f. elim (find-put-some i j s.made h (erase random u.map_ctx_point) f) [
          | inl (p, r) ↦ (d, ap (λ n. find n m) (sym r) ∙ find-put_self s.made d u.contexts, sym p)
          | inr f' ↦
              let (n, g) = find-erase-some random j h u.map_ctx_point f' in
              elim (find-put-some random j s.made h s.map_ctx_point g) [
                | inl (p, r) ↦ absurd (n p)
                | inr r ↦ let (x, q, p) = t.mapped j h r in (x, old h x q, p)
              ]
        ];
        staged = λ h x f. elim (find-put-some s.made h d x u.contexts f) [
          | inl (p, r) ↦ subst IsStaged r refl
          | inr r ↦ k.sound.staged h x r
        ];
        below = λ h x f. elim (find-put-some s.made h d x u.contexts f) [
          | inl (p, r) ↦ omega (arith, p)
          | inr r ↦ k.sound.below h x r
        ];
      };
      still = λ h x f. (x, old h x f, refl);
      grows = omega arith;
    }

slave_point-Returns :
    (calls : Calls) (check : Bool) (h : ℕ) (c : ContextForward) (s : HdcForwardBase)
    → Sound s
    → find h s.contexts ≡ some c
    → Returns s (slave_point calls check h s)
slave_point-Returns calls check h c s t e =
    Returns-if check s
      (again-Returns true s (setup_point_continue calls none_yet h s)
        (setup_point_continue-Returns calls none_yet h c s t e))
      (setup_point-Returns calls h c s t e)

slave_type-Returns :
    (calls : Calls) (check : Bool) (h : ℕ) (c : ContextForward) (s : HdcForwardBase)
    (k : ForwardType)
    → Sound s
    → find h s.contexts ≡ some c
    → Returns s (slave_type calls check h s k)
slave_type-Returns calls check h c s ark t e =
    Returns-if check s (false, s, refl, Kept-refl s t)
      (again-Returns true s (setup_point_continue calls none_yet h s)
        (setup_point_continue-Returns calls none_yet h c s t e))
slave_type-Returns calls check h c s tcp t e = slave_point-Returns calls check h c s t e
slave_type-Returns calls check h c s device t e = slave_point-Returns calls check h c s t e
slave_type-Returns calls check h c s jdwp t e = slave_point-Returns calls check h c s t e
slave_type-Returns calls check h c s abstract t e = slave_point-Returns calls check h c s t e
slave_type-Returns calls check h c s reserved t e = slave_point-Returns calls check h c s t e
slave_type-Returns calls check h c s filesystem t e = slave_point-Returns calls check h c s t e

slave_detected-Returns :
    (calls : Calls) (check : Bool) (h : ℕ) (c : ContextForward) (s : HdcForwardBase) (args : Args)
    (o : Option (ForwardType × Args))
    → Sound s
    → find h s.contexts ≡ some c
    → Returns s (slave_detected calls check h (record c { local_args = args }) s o)
slave_detected-Returns calls check h c s args none t e =
    let d : ContextForward = record c { local_args = args } in
    (false, set_context h d s, refl, set_context-Kept h c d s t e refl refl refl)
slave_detected-Returns calls check h c s args (some (kind, more)) t e =
    let d = typed c (kind, more) in
    let u = set_context h d s in
    let k : Kept s u = set_context-Kept h c d s t e refl refl refl in
    Returns-after s u (slave_type calls check h u kind) k
      (slave_type-Returns calls check h d u kind k.sound (find-put_self h d s.contexts))

slave_node-Returns :
    (calls : Calls) (check : Bool) (h : ℕ) (c : ContextForward) (s : HdcForwardBase)
    (r : Bool × Args)
    → Sound s
    → find h s.contexts ≡ some c
    → Returns s (slave_node calls check h c s r)
slave_node-Returns calls check h c s (false, args) t e =
    let d : ContextForward = record c { local_args = args } in
    (false, set_context h d s, refl, set_context-Kept h c d s t e refl refl refl)
slave_node-Returns calls check h c s (true, args) t e =
    slave_detected-Returns calls check h c s args (detech_forward_type args) t e

slave_finish-Returns :
    (calls : Calls) (h i : ℕ) (b : Bool) (s : HdcForwardBase)
    → Sound s
    → HasId h i s
    → Returns s (slave_finish calls h (b, s))
slave_finish-Returns calls h i true s t f = (true, s, refl, Kept-refl s t)
slave_finish-Returns calls h i false s t (c, e, p) =
    then_return-Returns false s (free_context calls h true s)
      (free_context-Does calls h true c s t e)

slave_connect-Returns :
    (calls : Calls) (random : ℕ) (payload : List ℕ) (check : Bool) (s : HdcForwardBase)
    → Sound s
    → Returns s (slave_connect calls random payload check s)
unfolding slave_connect slave_context malloc_context
slave_connect-Returns calls random payload check s t =
    let (i, content) = filter_command payload in
    let u = slave_context random i check s in
    let k : Kept s u = slave_context-Kept random i check s t in
    let d : ContextForward = record (new_context random false) { id = i; check_point = check } in
    let here : find s.made u.contexts ≡ some d =
      find-put_self s.made d (malloc_context random false s).contexts in
    let node = check_node_info (c_string (drop 8 content)) d.local_args in
    let o = slave_node calls check s.made d u node in
    let r =
      Returns-bind u o (λ r. slave_finish calls s.made r)
        (slave_node-Returns calls check s.made d u node k.sound here)
        (λ b w l. slave_finish-Returns calls s.made d.id b w l.sound (l.still s.made d here)) in
    Returns-if (leb (length payload) 12) s (false, s, refl, Kept-refl s t)
      (rw (here) (Returns-after s u (o >>= λ r. slave_finish calls s.made r) k r))

forward_data-Returns :
    (calls : Calls) (h : ℕ) (c : ContextForward) (content : List ℕ) (s : HdcForwardBase)
    → Sound s
    → find h s.contexts ≡ some c
    → Returns s (forward_data calls h s (send_forward_buf calls c content))
forward_data-Returns calls h c content s t e =
    elim (Bool-cases
      (ltb (2 ^ 31 - 2) (length content) || length content == 0 || not calls.opens)) [
        | inl q ↦ rw (q) (
            then_return-Returns true s (free_context calls h true s)
              (free_context-Does calls h true c s t e))
        | inr q ↦
            let d : ContextForward = record c { written = c.written ++ content } in
            rw (q) (true, set_context h d s, refl, set_context-Kept h c d s t e refl refl refl)
      ]

Kept-announced :
    (s : HdcForwardBase) (m : List (List ℕ)) → Sound s → Kept s (record s { announced = m })
Kept-announced s m t = record {
  sound = record {
    counted = t.counted;
    ordered = t.ordered;
    indexed = t.indexed;
    fewer = t.fewer;
    mapped = t.mapped;
    staged = t.staged;
    below = t.below;
  };
  still = λ h c e. (c, e, refl);
  grows = omega arith;
}

check_result-Returns :
    (h : ℕ) (c : ContextForward) (s : HdcForwardBase)
    → Sound s
    → find h s.contexts ≡ some c
    → Returns s (command_forward_check_result h c s)
check_result-Returns h c s t e =
    let d : ContextForward = record c { ready = true } in
    let u = set_context h d s in
    let k : Kept s u = set_context-Kept h c d s t e refl refl refl in
    let m =
      s.announced
      ++ ((if s.server_or_daemon then codes "1|" else codes "0|") ++ (s.task_command ++ 0 ∷ []))
        ∷ [] in
    (
      true,
      record u { announced = m },
      refl,
      Kept-trans s u (record u { announced = m }) k (Kept-announced u m k.sound),
    )

dispatch_found-Returns :
    (calls : Calls) (command : ℕ) (content : List ℕ) (h : ℕ) (s : HdcForwardBase)
    (c : ContextForward)
    → Sound s
    → find h s.contexts ≡ some c
    → Returns s (dispatch_found calls command content h s c)
dispatch_found-Returns calls command content h s c t e =
    Returns-if (command == cmd_forward_check_result) s (check_result-Returns h c s t e) (
      Returns-if (command == cmd_forward_active_master) s (do_forward_begin-Returns h c s t e) (
        Returns-if (command == cmd_forward_data) s
          (Returns-if c.finish s (true, s, refl, Kept-refl s t)
            (forward_data-Returns calls h c content s t e))
          (Returns-if (command == cmd_forward_free_context) s
            (then_return-Returns true s (free_context calls h false s)
              (free_context-Does calls h false c s t e))
            (then_return-Returns false s (free_context calls h true s)
              (free_context-Does calls h true c s t e)))))

-- A context that the map leads to is there.
dispatch_to-Returns :
    (calls : Calls) (command i : ℕ) (content : List ℕ) (s : HdcForwardBase) (o : Option ℕ)
    → query_context i s ≡ o
    → Sound s
    → Returns s (dispatch_to calls command content s o)
dispatch_to-Returns calls command i content s none q t = (true, s, refl, Kept-refl s t)
dispatch_to-Returns calls command i content s (some h) q t =
    let (c, e, p) = t.mapped i h q in
    rw (e) (dispatch_found-Returns calls command content h s c t e)

forward_command_dispatch-Returns :
    (calls : Calls) (command : ℕ) (payload : List ℕ) (s : HdcForwardBase)
    → Sound s
    → Returns s (forward_command_dispatch calls command payload s)
unfolding forward_command_dispatch
forward_command_dispatch-Returns calls command payload s t =
    let (i, content) = filter_command payload in
    Returns-if (leb (length payload) 4 && not (command == 2506) && not (command == 2504)) s
      (false, s, refl, Kept-refl s t)
      (dispatch_to-Returns calls command i content s (query_context i s) refl t)

pub command_dispatch-Returns :
    (calls : Calls) (random command : ℕ) (payload : List ℕ) (s : HdcForwardBase)
    → Sound s
    → Returns s (command_dispatch calls random command payload s)
unfolding command_dispatch
command_dispatch-Returns calls random command payload s t =
    Returns-if (command == 2500) s (begin_forward-Returns calls random payload s t) (
      Returns-if (command == 2501) s (slave_connect-Returns calls random payload true s t) (
        Returns-if (command == 2503) s (slave_connect-Returns calls random payload false s t)
          (forward_command_dispatch-Returns calls command payload s t)))

accept_send-Does :
    (calls : Calls) (h : ℕ) (c d : ContextForward) (s : HdcForwardBase) (o : Option (List ℕ))
    → Kept s (set_context h d s)
    → Does s (accept_send calls h d s o)
accept_send-Does calls h c d s none k =
    let u = set_context h d s in
    Does-after s u (free_context calls h false u) k
      (free_context-Does calls h false d u k.sound (find-put_self h d s.contexts))
accept_send-Does calls h c d s (some content) k =
    let u = set_context h d s in
    let v = (send_to_task calls d.id cmd_forward_active_slave content u).1 in
    (
      v,
      refl,
      Kept-trans s u v k (Kept-send_to_task calls d.id cmd_forward_active_slave content u k.sound),
    )

Does-if :
    (b : Bool) (s : HdcForwardBase) {o p : Option HdcForwardBase}
    → Does s o
    → Does s p
    → Does s (if b then o else p)
Does-if true s r q = r
Does-if false s r q = q

-- What follows the pointer to a context that is there.
Does-found :
    (h : ℕ) (c : ContextForward) (s : HdcForwardBase) (f : ContextForward → Option HdcForwardBase)
    → find h s.contexts ≡ some c
    → Does s (f c)
    → Does s (find h s.contexts >>= f)
Does-found h c s f e (u, q, k) = (u, ap (λ o. o >>= f) e ∙ q, k)

on_accept-Does :
    (calls : Calls) (listen c : ContextForward) (h : ℕ) (s : HdcForwardBase)
    → Sound s
    → find h s.contexts ≡ some c
    → Does s (on_accept calls listen h s)
on_accept-Does calls listen c h s t e =
    let d : ContextForward = record c {
      forward_type = listen.forward_type;
      remote_parameters = listen.remote_parameters;
    } in
    rw (e) (
      Does-if calls.opens s
        (accept_send-Does calls h c d s (accept_parameter listen.remote_parameters)
          (set_context-Kept h c d s t e refl refl refl))
        (free_context-Does calls h false c s t e))

pub listen_callback-Does :
    (calls : Calls) (failed : Bool) (random h : ℕ) (c : ContextForward) (s : HdcForwardBase)
    → Sound s
    → find h s.contexts ≡ some c
    → Does s (listen_callback calls failed random h s)
unfolding listen_callback malloc_context
listen_callback-Does calls failed random h c s t e =
    let u = malloc_context random true s in
    let k : Kept s u = Kept-malloc_context random true s t in
    let n = new_context random true in
    Does-found h c s
      (λ x.
        if failed || not x.ready then free_context calls h false s else on_accept calls x s.made u)
      e
      (Does-if (failed || not c.ready) s (free_context-Does calls h false c s t e) (
        Does-after s u (on_accept calls c s.made u) k
          (on_accept-Does calls c n s.made u k.sound (find-put_self s.made n s.contexts))))

read_bytes-Does :
    (calls : Calls) (h : ℕ) (c : ContextForward) (s : HdcForwardBase) (o : Option (List ℕ))
    → Sound s
    → find h s.contexts ≡ some c
    → Does s (read_bytes calls h c s o)
read_bytes-Does calls h c s none t e = free_context-Does calls h true c s t e
read_bytes-Does calls h c s (some bytes) t e =
    let u = (send_to_task calls c.id cmd_forward_data bytes s).1 in
    Does-if (length bytes == 0) s (s, refl, Kept-refl s t)
      (u, refl, Kept-send_to_task calls c.id cmd_forward_data bytes s t)

pub read_forward_buf-Does :
    (calls : Calls) (nread : Option (List ℕ)) (h : ℕ) (c : ContextForward) (s : HdcForwardBase)
    → Sound s
    → find h s.contexts ≡ some c
    → Does s (read_forward_buf calls nread h s)
unfolding read_forward_buf
read_forward_buf-Does calls nread h c s t e = rw (e) (read_bytes-Does calls h c s nread t e)

pub send_callback_forward_buf-Does :
    (calls : Calls) (failed : Bool) (h : ℕ) (c : ContextForward) (s : HdcForwardBase)
    → Sound s
    → find h s.contexts ≡ some c
    → Does s (send_callback_forward_buf calls failed h s)
unfolding send_callback_forward_buf
send_callback_forward_buf-Does calls failed h c s t e =
    Does-found h c s (λ x. if failed && not x.finish then free_context calls h true s else some s) e
      (Does-if (failed && not c.finish) s (free_context-Does calls h true c s t e)
        (s, refl, Kept-refl s t))

pub connect_target-Does :
    (calls : Calls) (status : Status) (h : ℕ) (c : ContextForward) (s : HdcForwardBase)
    → Sound s
    → find h s.contexts ≡ some c
    → Does s (connect_target calls status h s)
unfolding connect_target
connect_target-Does calls status h c s t e =
    let (b, u, q, k) = setup_point_continue-Returns calls status h c s t e in (u, (rw (q) refl), k)
