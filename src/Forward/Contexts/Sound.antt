-- ===== src/Forward/Contexts/Sound.antt =====
-- forward.cpp: what holds of the contexts of a forwarding task, and what each of their operations keeps.
use supertools_public.Common.{
  ℕ, suc, ◌-◌, ◌^◌, ◌≤◌, ◌<◌, ◌≡◌, refl, sym, ap, ◌∙◌, subst, inl, inr, Bool, true, false, not,
  ◌&&◌, Option, none, some, List, [], ◌∷◌, ◌++◌, arith, ltb, ◌==◌, if◌then◌else◌, ==_iff, ==_self,
  Bool-cases, Option-cases, All, length, Map, find, put, erase, Sorted, find-put_self,
  find-erase_ne, Sorted-put, Sorted-erase, find-below, find-put, length-put_old, length-put_new,
  length-erase, find-put-some, find-erase-some,
}
use supertools_public.Forward.Contexts.{
  ContextForward, HdcForwardBase, Calls, Stage, opened, closing, idle, idle_closing, next_loop,
  ◌>>=◌, new_context, malloc_context, set_context, task_frame, send_frame, send_to_task,
  closing_stage, finish_context, free_context, handle_closed, idle_turn, delete_context, free_all,
  handles, stop_task,
}
use supertools_public.Forward.Node.{
  ForwardType, tcp, device, jdwp, ark, abstract, reserved, filesystem,
}

abbrev pub is_open : Stage → Bool
is_open opened = true
is_open closing = false
is_open idle = false
is_open idle_closing = false
is_open next_loop = false

-- A context is there, under this id.
abbrev pub HasId : ℕ → ℕ → HdcForwardBase → Type 0
HasId h i s = (c : ContextForward) × (find h s.contexts ≡ some c) × (c.id ≡ i)

abbrev pub IsStaged : ContextForward → Type 0
IsStaged c = c.finish ≡ not (is_open c.stage)

pub record Sound (s : HdcForwardBase) : Type 0 where
  pub counted : s.made < 2 ^ 32 → s.ref_count ≡ length s.contexts
  pub ordered : Sorted s.contexts
  pub indexed : Sorted s.map_ctx_point
  pub fewer : length s.contexts ≤ s.made
  pub mapped : (i h : ℕ) → find i s.map_ctx_point ≡ some h → HasId h i s
  pub staged : (h : ℕ) (c : ContextForward) → find h s.contexts ≡ some c → IsStaged c
  pub below : (h : ℕ) (c : ContextForward) → find h s.contexts ≡ some c → h < s.made

-- A sound task in which every context of another one still is there, under its id.
pub record Kept (s t : HdcForwardBase) : Type 0 where
  pub sound : Sound t
  pub still : (h : ℕ) (c : ContextForward) → find h s.contexts ≡ some c → HasId h c.id t
  pub grows : s.made ≤ t.made

-- An operation that comes to its end and keeps the contexts.
abbrev pub Does : HdcForwardBase → Option HdcForwardBase → Type 0
Does s o = (t : HdcForwardBase) × (o ≡ some t) × Kept s t

abbrev pub Returns : HdcForwardBase → Option (Bool × HdcForwardBase) → Type 0
Returns s o = (b : Bool) × (t : HdcForwardBase) × (o ≡ some (b, t)) × Kept s t

pub Kept-refl : (s : HdcForwardBase) → Sound s → Kept s s
Kept-refl s t = record { sound = t; still = λ h c e. (c, e, refl); grows = omega arith }

pub Kept-trans : (s t u : HdcForwardBase) → Kept s t → Kept t u → Kept s u
Kept-trans s t u a b = record {
  sound = b.sound;
  still = λ h c e.
      let (d, f, i) = a.still h c e in let (d', f', i') = b.still h d f in (d', f', i' ∙ i);
  grows = omega (arith, a.grows, b.grows);
}

-- A task that differs only in what has been sent.
pub Kept-sent :
    (s : HdcForwardBase) (m : List (ℕ × List ℕ)) → Sound s → Kept s (record s { sent = m })
Kept-sent s m t = record {
  sound = record {
    counted = t.counted;
    ordered = t.ordered;
    indexed = t.indexed;
    fewer = t.fewer;
    mapped = t.mapped;
    staged = t.staged;
    below = t.below;
  };
  still = λ h c e. (c, e, refl);
  grows = omega arith;
}

pub Kept-send_to_task :
    (calls : Calls) (cid command : ℕ) (content : List ℕ) (s : HdcForwardBase)
    → Sound s
    → Kept s (send_to_task calls cid command content s).1
unfolding send_to_task
Kept-send_to_task calls cid command content s t = send_frame-Kept (task_frame cid content)
  where
    send_frame-Kept : (o : Option (List ℕ)) → Kept s (send_frame calls.sends command s o).1
    send_frame-Kept none = Kept-refl s t
    send_frame-Kept (some payload) = elim (Bool-cases calls.sends) [
      | inl e ↦ rw (e) (Kept-sent s (s.sent ++ (command, payload) ∷ []) t)
      | inr e ↦ rw (e) (Kept-refl s t)
    ]

-- A write that keeps the id of a context.
pub Kept-set_context :
    (h : ℕ) (c d : ContextForward) (s : HdcForwardBase)
    → Sound s
    → find h s.contexts ≡ some c
    → d.id ≡ c.id
    → IsStaged d
    → Kept s (set_context h d s)
Kept-set_context h c d s t e q g =
    let still : (k : ℕ) (x : ContextForward)
        → find k s.contexts ≡ some x
        → HasId k x.id (set_context h d s) =
      λ k x f. elim (Bool-cases (k == h)) [
        | inl i ↦
            let same : k ≡ h = (==_iff k h).0 i in
            let here : some c ≡ some x = sym e ∙ ap (λ j. find j s.contexts) (sym same) ∙ f in
            let eq : c ≡ x = cc (here) in
            (d, (rw (find-put h k d s.contexts, i) refl), q ∙ ap (λ (y : ContextForward). y.id) eq)
        | inr i ↦ (x, (rw (find-put h k d s.contexts, i) f), refl)
      ] in
    record {
      sound = record {
        counted = λ l. t.counted l ∙ sym (length-put_old h d c s.contexts t.ordered e);
        ordered = Sorted-put h d s.contexts t.ordered;
        indexed = t.indexed;
        fewer = rw (length-put_old h d c s.contexts t.ordered e) t.fewer;
        mapped = λ i k f.
            let (x, r, p) = t.mapped i k f in let (y, r', p') = still k x r in (y, r', p' ∙ p);
        staged = λ k x f. elim (find-put-some h k d x s.contexts f) [
          | inl (p, r) ↦ subst IsStaged r g
          | inr r ↦ t.staged k x r
        ];
        below = λ k x f. elim (find-put-some h k d x s.contexts f) [
          | inl (p, r) ↦ rw (p) (t.below h c e)
          | inr r ↦ t.below k x r
        ];
      };
      still = still;
      grows = omega arith;
    }

pub unmade : (s : HdcForwardBase) → Sound s → find s.made s.contexts ≡ none
unmade s t = elim (Option-cases (find s.made s.contexts)) [
  | inl e ↦ e
  | inr (c, e) ↦ absurd (omega (arith, t.below s.made c e))
]

-- A context that has been allocated.
pub Kept-malloc_context :
    (random : ℕ) (master : Bool) (s : HdcForwardBase)
    → Sound s
    → Kept s (malloc_context random master s)
unfolding malloc_context
Kept-malloc_context random master s t =
    let c = new_context random master in
    let fresh : find s.made s.contexts ≡ none = unmade s t in
    let old : (h : ℕ) (x : ContextForward)
        → find h s.contexts ≡ some x
        → find h (put s.made c s.contexts) ≡ some x =
      λ h x f.
        let l = t.below h x f in rw (find-put s.made h c s.contexts) (ground (arith, l, f)) in
    let new : find s.made (put s.made c s.contexts) ≡ some c = find-put_self s.made c s.contexts in
    record {
      sound = record {
        counted = λ l. ground (
          arith,
          t.counted (omega (arith, l)),
          t.fewer,
          length-put_new s.made c s.contexts fresh,
        );
        ordered = Sorted-put s.made c s.contexts t.ordered;
        indexed = Sorted-put random s.made s.map_ctx_point t.indexed;
        fewer = rw (length-put_new s.made c s.contexts fresh) (omega (arith, t.fewer));
        mapped = λ i k f. elim (find-put-some random i s.made k s.map_ctx_point f) [
          | inl (p, r) ↦ (c, ap (λ j. find j (put s.made c s.contexts)) (sym r) ∙ new, sym p)
          | inr r ↦ let (x, q, p) = t.mapped i k r in (x, old k x q, p)
        ];
        staged = λ k x f. elim (find-put-some s.made k c x s.contexts f) [
          | inl (p, r) ↦ subst IsStaged r refl
          | inr r ↦ t.staged k x r
        ];
        below = λ k x f. elim (find-put-some s.made k c x s.contexts f) [
          | inl (p, r) ↦ omega (arith, p)
          | inr r ↦ let l = t.below k x r in omega (arith, l)
        ];
      };
      still = λ h x f. (x, old h x f, refl);
      grows = omega arith;
    }

pub contexts-send_to_task :
    (calls : Calls) (cid command : ℕ) (content : List ℕ) (s : HdcForwardBase)
    → (send_to_task calls cid command content s).1.contexts ≡ s.contexts
unfolding send_to_task
contexts-send_to_task calls cid command content s = sent_contexts (task_frame cid content)
  where
    sent_contexts :
        (o : Option (List ℕ)) → (send_frame calls.sends command s o).1.contexts ≡ s.contexts
    sent_contexts none = refl
    sent_contexts (some payload) = ground arith

closing_stage_shut :
    (streaming : Bool) (k : ForwardType) → not (is_open (closing_stage streaming k)) ≡ true
closing_stage_shut streaming device = refl
closing_stage_shut true tcp = refl
closing_stage_shut false tcp = refl
closing_stage_shut true jdwp = refl
closing_stage_shut false jdwp = refl
closing_stage_shut true ark = refl
closing_stage_shut false ark = refl
closing_stage_shut true abstract = refl
closing_stage_shut false abstract = refl
closing_stage_shut true reserved = refl
closing_stage_shut false reserved = refl
closing_stage_shut true filesystem = refl
closing_stage_shut false filesystem = refl

finish_context-Kept :
    (calls : Calls) (h : ℕ) (notify : Bool) (c : ContextForward) (s : HdcForwardBase)
    → Sound s
    → find h s.contexts ≡ some c
    → Kept s (finish_context calls h notify c s)
finish_context-Kept calls h false c s t e =
    Kept-set_context h c
      (record c { finish = true; stage = closing_stage calls.streaming c.forward_type }) s t e refl
      (sym (closing_stage_shut calls.streaming c.forward_type))
finish_context-Kept calls h true c s t e =
    let u = (send_to_task calls c.id 2506 [] s).1 in
    let d : ContextForward = record c {
      finish = true;
      stage = closing_stage calls.streaming c.forward_type;
    } in
    let k : Kept s u = Kept-send_to_task calls c.id 2506 [] s t in
    Kept-trans s u (set_context h d u) k (
      Kept-set_context h c d u k.sound
        (ap (find h) (contexts-send_to_task calls c.id 2506 [] s) ∙ e) refl
        (sym (closing_stage_shut calls.streaming c.forward_type)))

-- `FreeContext` of a context that is there.
pub free_context-Does :
    (calls : Calls) (h : ℕ) (notify : Bool) (c : ContextForward) (s : HdcForwardBase)
    → Sound s
    → find h s.contexts ≡ some c
    → Does s (free_context calls h notify s)
unfolding free_context
free_context-Does calls h notify c s t e = elim (Bool-cases c.finish) [
  | inl f ↦ (s, (rw (e, f) refl), Kept-refl s t)
  | inr f ↦ (
    finish_context calls h notify c s,
    (rw (e, f) refl),
    finish_context-Kept calls h notify c s t e,
  )
]

-- The callbacks of a context that is being freed.
pub handle_closed-Does :
    (h : ℕ) (c : ContextForward) (s : HdcForwardBase)
    → Sound s
    → find h s.contexts ≡ some c
    → is_open c.stage ≡ false
    → Does s (handle_closed h s)
unfolding handle_closed
handle_closed-Does h c s t e o =
    let d : ContextForward = record c { stage = next_loop } in
    (
      set_context h d s,
      (rw (e) refl),
      Kept-set_context h c d s t e refl (t.staged h c e ∙ ap not o),
    )

pub idle_turn-Does :
    (released : Bool) (h : ℕ) (c : ContextForward) (s : HdcForwardBase)
    → Sound s
    → find h s.contexts ≡ some c
    → is_open c.stage ≡ false
    → Does s (idle_turn released h s)
unfolding idle_turn
idle_turn-Does released h c s t e o = elim (Bool-cases (c.fd_class && not released)) [
  | inl w ↦ (s, (rw (e, w) refl), Kept-refl s t)
  | inr w ↦
      let d : ContextForward = record c { fd_class = false; stage = idle_closing } in
      (
        set_context h d s,
        (rw (e, w) refl),
        Kept-set_context h c d s t e refl (t.staged h c e ∙ ap not o),
      )
]

other :
    (s : HdcForwardBase) (h k : ℕ) (c x : ContextForward)
    → find h s.contexts ≡ some c
    → find k s.contexts ≡ some x
    → k ≡ h
    → x.id ≡ c.id
other s h k c x e f r =
    let here : some x ≡ some c = sym f ∙ ap (λ j. find j s.contexts) r ∙ e in
    let eq : x ≡ c = cc (here) in ap (λ (y : ContextForward). y.id) eq

-- What is left after a context has been deleted.
pub delete_context-Sound :
    (h : ℕ) (c : ContextForward) (s : HdcForwardBase)
    → Sound s
    → find h s.contexts ≡ some c
    → (t : HdcForwardBase) × (delete_context h s ≡ some t) × Sound t
unfolding delete_context
delete_context-Sound h c s t e =
    let u : HdcForwardBase = record s {
      map_ctx_point = erase c.id s.map_ctx_point;
      contexts = erase h s.contexts;
      ref_count = if ltb 0 s.ref_count then s.ref_count - 1 else s.ref_count;
    } in
    let fewer : suc (length (erase h s.contexts)) ≡ length s.contexts =
      length-erase h c s.contexts t.ordered e in
    (
      u,
      (rw (e) refl),
      record {
        counted = λ l. ground (arith, t.counted l, fewer);
        ordered = Sorted-erase h s.contexts t.ordered;
        indexed = Sorted-erase c.id s.map_ctx_point t.indexed;
        fewer = omega (arith, fewer, t.fewer);
        mapped = λ i k f.
            let (n, g) = find-erase-some c.id i k s.map_ctx_point f in
            let (x, q, p) = t.mapped i k g in
            (x, find-erase_ne h k s.contexts (λ r. n (sym p ∙ other s h k c x e q r)) ∙ q, p);
        staged = λ k x f. t.staged k x (find-erase-some h k x s.contexts f).1;
        below = λ k x f. t.below k x (find-erase-some h k x s.contexts f).1;
      },
    )

handles-All :
    (Q : ℕ → Type 0) (m : Map ℕ)
    → Sorted m
    → ((i h : ℕ) → find i m ≡ some h → Q h)
    → All Q (handles m)
handles-All Q [] s p = tt
handles-All Q ((i, h) ∷ m) s p = (
  p i h (rw (==_self i) refl),
  handles-All Q m s.1 (λ j k f. p j k (elim (Bool-cases (j == i)) [
    | inl e ↦ absurd (ground (arith, f, e, find-below j i m (ground (arith, e)) s.0))
    | inr e ↦ rw (e) f
  ])),
)

abbrev IsThere : HdcForwardBase → ℕ → Type 0
IsThere s h = (c : ContextForward) × (find h s.contexts ≡ some c)

All-later :
    (s t : HdcForwardBase) (hs : List ℕ) → Kept s t → All (IsThere s) hs → All (IsThere t) hs
All-later s t [] k a = tt
All-later s t (h ∷ hs) k (there, a) =
    let (c, e) = there in let (d, f, i) = k.still h c e in ((d, f), All-later s t hs k a)

free_all-Does :
    (calls : Calls) (hs : List ℕ) (s : HdcForwardBase)
    → Sound s
    → All (IsThere s) hs
    → Does s (free_all calls hs s)
free_all-Does calls [] s t a = (s, refl, Kept-refl s t)
free_all-Does calls (h ∷ hs) s t (there, a) =
    let (c, e) = there in
    let (u, q, k) = free_context-Does calls h false c s t e in
    let (v, r, l) = free_all-Does calls hs u k.sound (All-later s u hs k a) in
    (v, ap (λ o. o >>= λ x. free_all calls hs x) q ∙ r, Kept-trans s u v k l)

pub stop_task-Does : (calls : Calls) (s : HdcForwardBase) → Sound s → Does s (stop_task calls s)
unfolding stop_task
stop_task-Does calls s t =
    let u : HdcForwardBase = record s { map_ctx_point = [] } in
    let k : Kept s u = record {
      sound = record {
        counted = t.counted;
        ordered = t.ordered;
        indexed = tt;
        fewer = t.fewer;
        mapped = λ i h f. cc;
        staged = t.staged;
        below = t.below;
      };
      still = λ h c e. (c, e, refl);
      grows = omega arith;
    } in
    let (v, q, l) = free_all-Does calls (handles s.map_ctx_point) u k.sound (
      handles-All (IsThere u) s.map_ctx_point t.indexed
        (λ i h f. let (c, e, p) = t.mapped i h f in (c, e))) in
    (v, q, Kept-trans s u v k l)
