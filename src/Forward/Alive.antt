-- ===== src/Forward/Alive.antt =====
-- forward.cpp: a forwarding task over any sequence of commands, callbacks and frees.
use supertools_public.Common.{
  ℕ, ◌^◌, ◌<◌, ◌≡◌, refl, sym, ◌∙◌, subst, Bool, true, false, not, Option, some, List, [], arith,
  length, find,
}
use supertools_public.Forward.Contexts.{
  Stage, opened, closing, idle, idle_closing, next_loop, ContextForward, HdcForwardBase, Calls,
  query_context, handle_closed, idle_turn, delete_context, stop_task,
}
use supertools_public.Forward.Contexts.Sound.{
  Sound, Does, HasId, is_open, handle_closed-Does, idle_turn-Does, delete_context-Sound,
  stop_task-Does,
}
use supertools_public.Forward.Commands.{Status}
use supertools_public.Forward.Dispatch.{
  command_dispatch, listen_callback, read_forward_buf, send_callback_forward_buf, connect_target,
}
use supertools_public.Forward.Dispatch.Keeps.{
  command_dispatch-Returns, listen_callback-Does, read_forward_buf-Does,
  send_callback_forward_buf-Does, connect_target-Does,
}

-- A callback of a context's stream, which libuv makes before the stream's close callback.
pub data Callback : Type 0 where
  listens : Bool → ℕ → Callback
  reads : Option (List ℕ) → Callback
  writes : Bool → Callback
  connects : Status → Callback

unfoldable pub call_back : Calls → Callback → ℕ → HdcForwardBase → Option HdcForwardBase
call_back calls (listens failed random) h s = listen_callback calls failed random h s
call_back calls (reads nread) h s = read_forward_buf calls nread h s
call_back calls (writes failed) h s = send_callback_forward_buf calls failed h s
call_back calls (connects status) h s = connect_target calls status h s

-- The stages before the close callback.
abbrev pub has_stream : Stage → Bool
has_stream opened = true
has_stream closing = true
has_stream idle = true
has_stream idle_closing = false
has_stream next_loop = false

-- The callbacks that end a context, each at its stage.
pub data Ending : Type 0 where
  closes deletes : Ending
  idles : Bool → Ending

abbrev pub comes_at : Ending → Stage → Bool
comes_at closes closing = true
comes_at closes idle_closing = true
comes_at closes opened = false
comes_at closes idle = false
comes_at closes next_loop = false
comes_at deletes next_loop = true
comes_at deletes opened = false
comes_at deletes closing = false
comes_at deletes idle = false
comes_at deletes idle_closing = false
comes_at (idles released) idle = true
comes_at (idles released) opened = false
comes_at (idles released) closing = false
comes_at (idles released) idle_closing = false
comes_at (idles released) next_loop = false

unfoldable pub end_with : Ending → ℕ → HdcForwardBase → Option HdcForwardBase
end_with closes h s = handle_closed h s
end_with deletes h s = delete_context h s
end_with (idles released) h s = idle_turn released h s

-- What can happen to a task.
pub data Step : HdcForwardBase → HdcForwardBase → Type 0 where
  commands :
      {s t : HdcForwardBase} (calls : Calls) (random command : ℕ) (payload : List ℕ) (b : Bool)
      → command_dispatch calls random command payload s ≡ some (b, t)
      → Step s t
  calls_back :
      {s t : HdcForwardBase} (calls : Calls) (e : Callback) (h : ℕ) (c : ContextForward)
      → find h s.contexts ≡ some c
      → has_stream c.stage ≡ true
      → call_back calls e h s ≡ some t
      → Step s t
  ends :
      {s t : HdcForwardBase} (e : Ending) (h : ℕ) (c : ContextForward)
      → find h s.contexts ≡ some c
      → comes_at e c.stage ≡ true
      → end_with e h s ≡ some t
      → Step s t
  stops : {s t : HdcForwardBase} (calls : Calls) → stop_task calls s ≡ some t → Step s t

-- A new task.
abbrev pub new_task : Bool → HdcForwardBase
new_task server_or_daemon = record {
  ref_count = 0;
  map_ctx_point = [];
  contexts = [];
  made = 0;
  server_or_daemon = server_or_daemon;
  task_command = [];
  sent = [];
  announced = [];
}

pub data Reaches : HdcForwardBase → Type 0 where
  here : (b : Bool) → Reaches (new_task b)
  there : {s t : HdcForwardBase} → Reaches s → Step s t → Reaches t

-- The result of an operation that keeps the contexts.
Does-Sound : (s t : HdcForwardBase) (o : Option HdcForwardBase) → Does s o → o ≡ some t → Sound t
Does-Sound s t o (u, e, k) f =
    let same : some u ≡ some t = sym e ∙ f in let eq : u ≡ t = cc (same) in subst Sound eq k.sound

call_back-Does :
    (calls : Calls) (e : Callback) (h : ℕ) (c : ContextForward) (s : HdcForwardBase)
    → Sound s
    → find h s.contexts ≡ some c
    → Does s (call_back calls e h s)
unfolding call_back
call_back-Does calls (listens failed random) h c s t f =
    listen_callback-Does calls failed random h c s t f
call_back-Does calls (reads nread) h c s t f = read_forward_buf-Does calls nread h c s t f
call_back-Does calls (writes failed) h c s t f =
    send_callback_forward_buf-Does calls failed h c s t f
call_back-Does calls (connects status) h c s t f = connect_target-Does calls status h c s t f

closes_late : (x : Stage) → comes_at closes x ≡ true → is_open x ≡ false
closes_late closing h = refl
closes_late idle_closing h = refl
closes_late opened h = cc
closes_late idle h = cc
closes_late next_loop h = cc

idles_late : (b : Bool) (x : Stage) → comes_at (idles b) x ≡ true → is_open x ≡ false
idles_late b idle h = refl
idles_late b idle_closing h = cc
idles_late b opened h = cc
idles_late b closing h = cc
idles_late b next_loop h = cc

end_with-Sound :
    (e : Ending) (h : ℕ) (c : ContextForward) (s : HdcForwardBase)
    → Sound s
    → find h s.contexts ≡ some c
    → comes_at e c.stage ≡ true
    → (t : HdcForwardBase) × (end_with e h s ≡ some t) × Sound t
unfolding end_with
end_with-Sound closes h c s t f o =
    let (u, q, k) = handle_closed-Does h c s t f (closes_late c.stage o) in (u, q, k.sound)
end_with-Sound deletes h c s t f o = delete_context-Sound h c s t f
end_with-Sound (idles released) h c s t f o =
    let (u, q, k) = idle_turn-Does released h c s t f (idles_late released c.stage o) in
    (u, q, k.sound)

Step-Sound : {s t : HdcForwardBase} → Step s t → Sound s → Sound t
Step-Sound (commands {s} {t} calls random command payload b e) g =
    let (b', u, q, k) = command_dispatch-Returns calls random command payload s g in
    let same : some (b', u) ≡ some (b, t) = sym q ∙ e in
    let eq : u ≡ t = cc (same) in subst Sound eq k.sound
Step-Sound (calls_back {s} {t} calls e h c f o q) g =
    Does-Sound s t (call_back calls e h s) (call_back-Does calls e h c s g f) q
Step-Sound (ends {s} {t} e h c f o q) g =
    let (u, r, k) = end_with-Sound e h c s g f o in
    let same : some u ≡ some t = sym r ∙ q in let eq : u ≡ t = cc (same) in subst Sound eq k
Step-Sound (stops {s} {t} calls q) g =
    Does-Sound s t (stop_task calls s) (stop_task-Does calls s g) q

new_task-Sound : (b : Bool) → Sound (new_task b)
new_task-Sound b = record {
  counted = λ l. refl;
  ordered = tt;
  indexed = tt;
  fewer = omega arith;
  mapped = λ i h f. cc;
  staged = λ h c f. cc;
  below = λ h c f. cc;
}

reached-Sound : (s : HdcForwardBase) → Reaches s → Sound s
reached-Sound _ (here b) = new_task-Sound b
reached-Sound _ (there {s} {t} r st) = Step-Sound st (reached-Sound s r)

-- In every state that a task reaches with fewer than 2 ^ 32 contexts, whatever commands the other side sends, whatever ids it gives to its
-- contexts, whatever the calls of libuv return and in whatever order the callbacks come, none before the
-- stage that it belongs to: the map leads from an id only to a context that is not deleted and has this id;
-- a context has `finish` set exactly if one of the callbacks that end it is to come; for fewer than 2 ^ 32
-- contexts, `refCount` is the number of contexts not deleted; and the next command, the next callback of a
-- stream or of an ending context, and `StopTask` never follow the pointer to a deleted one.
pub forward-alive :
    (s : HdcForwardBase)
    → Reaches s
    → s.made < 2 ^ 32
    → ((i h : ℕ) → query_context i s ≡ some h → HasId h i s)
      × ((h : ℕ) (c : ContextForward)
          → find h s.contexts ≡ some c
          → c.finish ≡ not (is_open c.stage))
      × (s.ref_count ≡ length s.contexts)
      × ((calls : Calls) (random command : ℕ) (payload : List ℕ)
          → (b : Bool) × (t : HdcForwardBase) × (command_dispatch calls random command payload s
              ≡ some (b, t)))
      × ((calls : Calls) (e : Callback) (h : ℕ) (c : ContextForward)
          → find h s.contexts ≡ some c
          → (t : HdcForwardBase) × (call_back calls e h s ≡ some t))
      × ((e : Ending) (h : ℕ) (c : ContextForward)
          → find h s.contexts ≡ some c
          → comes_at e c.stage ≡ true
          → (t : HdcForwardBase) × (end_with e h s ≡ some t))
      × ((calls : Calls) → (t : HdcForwardBase) × (stop_task calls s ≡ some t))
forward-alive s r few =
    let g = reached-Sound s r in
    (
      g.mapped,
      g.staged,
      g.counted few,
      λ calls random command payload.
          let (b, t, e, k) = command_dispatch-Returns calls random command payload s g in (b, t, e),
      λ calls e h c f. let (t, q, k) = call_back-Does calls e h c s g f in (t, q),
      λ e h c f o. let (t, q, k) = end_with-Sound e h c s g f o in (t, q),
      λ calls. let (t, q, k) = stop_task-Does calls s g in (t, q),
    )
