-- ===== src/Uart/Queue/Slots.antt =====
-- uart.cpp: the order of the packages in the queue, over any sequence of its events.
use supertools_public.Common.{
  ℕ, suc, ◌+◌, ◌≡◌, ◌≤◌, refl, Bool, true, false, not, ◌&&◌, Option, none, some, List, [], ◌∷◌,
  ◌++◌, ◌==◌, if◌then◌else◌, arith, Bool-cases, inl, inr,
}
use supertools_public.Uart.Queue.{
  PkgStatus, pkg_wait_send, pkg_wait_response, Key, OutputPkg, Request, Uart, waits, free_slot,
  find_pkg, erase_pkg, resend_pkg, new_pkg, add_pkg, add_unless, request_send_package, answer,
  process_response_package, Event, sent, Run, visit_send, visit_wait, visit, notify, transfer_error,
  send_loop, send_pkgs, clear_loop, clear_uart_out_map, to_pkg_identity, is_response_package,
}

abbrev pub waiting : OutputPkg → Bool
waiting p = elim p.pkg_status [ pkg_wait_send ↦ false | pkg_wait_response ↦ true ]

-- No package of the session waits for its response.
abbrev pub no_wait : ℕ → List OutputPkg → Bool
no_wait s [] = true
no_wait s (p ∷ ps) =
    let rest = no_wait s ps in if s == p.session_id && waiting p then false else rest

-- A response never waits for one, and no package waits behind another one of its session.
abbrev pub in_order : List OutputPkg → Bool
in_order [] = true
in_order (p ∷ ps) =
    let rest = in_order ps in
    let here = if p.response then not (waiting p) else no_wait p.session_id ps in
    if here then rest else false

no_wait-append :
    (s : ℕ) (ps : List OutputPkg) (q : Request)
    → no_wait s ps ≡ true
    → no_wait s (ps ++ (new_pkg q ∷ [])) ≡ true
no_wait-append s [] q h = ground arith
no_wait-append s (p ∷ ps) q h = ground (arith, no_wait-append s ps q)

in_order-append :
    (ps : List OutputPkg) (q : Request)
    → in_order ps ≡ true
    → in_order (ps ++ (new_pkg q ∷ [])) ≡ true
in_order-append [] q h = ground arith
in_order-append (p ∷ ps) q h =
    ground (arith, in_order-append ps q, no_wait-append p.session_id ps q)

no_wait-erase :
    (s : ℕ) (k : Key) (ps : List OutputPkg)
    → no_wait s ps ≡ true
    → no_wait s (erase_pkg k ps) ≡ true
no_wait-erase s k [] h = refl
no_wait-erase s k (p ∷ ps) h = ground (arith, no_wait-erase s k ps)

in_order-erase :
    (k : Key) (ps : List OutputPkg) → in_order ps ≡ true → in_order (erase_pkg k ps) ≡ true
in_order-erase k [] h = refl
in_order-erase k (p ∷ ps) h = ground (arith, in_order-erase k ps, no_wait-erase p.session_id k ps)

no_wait-resend :
    (s : ℕ) (k : Key) (ps : List OutputPkg)
    → no_wait s ps ≡ true
    → no_wait s (resend_pkg k ps) ≡ true
no_wait-resend s k [] h = refl
no_wait-resend s k (p ∷ ps) h = ground (arith, no_wait-resend s k ps)

in_order-resend :
    (k : Key) (ps : List OutputPkg) → in_order ps ≡ true → in_order (resend_pkg k ps) ≡ true
in_order-resend k [] h = refl
in_order-resend k (p ∷ ps) h =
    ground (arith, in_order-resend k ps, no_wait-resend p.session_id k ps)

no_wait-clear :
    (s t : ℕ) (ps : List OutputPkg) (slots : List ℕ)
    → no_wait s ps ≡ true
    → no_wait s (clear_loop t ps slots).0 ≡ true
unfolding clear_loop
no_wait-clear s t [] slots h = refl
no_wait-clear s t (p ∷ ps) slots h =
    ground (arith, no_wait-clear s t ps slots, no_wait-clear s t ps (free_slot p.session_id slots))

in_order-clear :
    (t : ℕ) (ps : List OutputPkg) (slots : List ℕ)
    → in_order ps ≡ true
    → in_order (clear_loop t ps slots).0 ≡ true
unfolding clear_loop
in_order-clear t [] slots h = refl
in_order-clear t (p ∷ ps) slots h = ground (
  arith,
  in_order-clear t ps slots,
  in_order-clear t ps (free_slot p.session_id slots),
  no_wait-clear p.session_id t ps slots,
)

-- The packages of a session that were sent and that want a response.
abbrev pub sent_of : ℕ → List Event → ℕ
sent_of s [] = 0
sent_of s (sent p ∷ es) = (if s == p.session_id && not p.response then 1 else 0) + sent_of s es
sent_of s (notify ∷ es) = sent_of s es
sent_of s (transfer_error t ∷ es) = sent_of s es

-- The sessions that wait have no waiting package further on.
abbrev Apart : List ℕ → List OutputPkg → Type 0
Apart w ps = (s : ℕ) → waits s w ≡ true → no_wait s ps ≡ true

-- What a run from here on makes of the queue.
abbrev Ordered : List ℕ → Run → Type 0
Ordered w (qs, es) =
    (in_order qs ≡ true) × Apart w qs × ((s : ℕ) → sent_of s es ≤ (if waits s w then 0 else 1))

visit_send-Ordered :
    (ok : Bool) (now : ℕ) (w : List ℕ) (p : OutputPkg) (ps : List OutputPkg) (skip wait : Run)
    → p.pkg_status ≡ pkg_wait_send
    → in_order (p ∷ ps) ≡ true
    → Apart w (p ∷ ps)
    → Ordered w skip
    → (no_wait p.session_id ps ≡ true → Ordered (p.session_id ∷ w) wait)
    → Ordered w (visit_send (waits p.session_id w) ok now p ps skip wait)
visit_send-Ordered ok now w p ps (qs, es) (qs', es') st h a (o, b, c) f =
    elim (Bool-cases p.response) [
      | inl r ↦ (ground arith, λ s e. ground (arith, a s e, b s e), λ s. ground (arith, c s))
      | inr r ↦
          let (o', b', c') = f (ground arith) in
          (
            ground (arith, b p.session_id, b' p.session_id),
            λ s e. ground (arith, a s e, b s, b' s),
            λ s. ground (arith, c s, c' s),
          )
    ]

visit_wait-Ordered :
    (now : ℕ) (w : List ℕ) (p : OutputPkg) (ps : List OutputPkg) (wait : Run)
    → p.pkg_status ≡ pkg_wait_response
    → in_order (p ∷ ps) ≡ true
    → Apart w (p ∷ ps)
    → (no_wait p.session_id ps ≡ true → Ordered (p.session_id ∷ w) wait)
    → Ordered w (visit_wait now p ps wait)
visit_wait-Ordered now w p ps (qs, es) st h a f =
    let behind : no_wait p.session_id ps ≡ true = ground arith in
    let (o, b, c) = f behind in
    (ground (arith, b p.session_id), λ s e. ground (arith, a s e, b s), λ s. ground (arith, c s))

visit-Ordered :
    (st : PkgStatus) (ok : Bool) (now : ℕ) (w : List ℕ) (p : OutputPkg) (ps : List OutputPkg)
    (skip wait : Run)
    → p.pkg_status ≡ st
    → in_order (p ∷ ps) ≡ true
    → Apart w (p ∷ ps)
    → Ordered w skip
    → (no_wait p.session_id ps ≡ true → Ordered (p.session_id ∷ w) wait)
    → Ordered w (visit st (waits p.session_id w) ok now p ps skip wait)
visit-Ordered pkg_wait_send ok now w p ps skip wait st h a o f =
    visit_send-Ordered ok now w p ps skip wait st h a o f
visit-Ordered pkg_wait_response ok now w p ps skip wait st h a o f =
    visit_wait-Ordered now w p ps wait st h a f

module _ (clock : ℕ → ℕ) (raw_ok : ℕ → Bool) where
  send_loop-Ordered :
      (i : ℕ) (w : List ℕ) (ps : List OutputPkg)
      → in_order ps ≡ true
      → Apart w ps
      → Ordered w (send_loop clock raw_ok i w ps)
  unfolding send_loop
  send_loop-Ordered i w [] h a = (refl, λ s e. refl, λ s. ground arith)
  send_loop-Ordered i w (p ∷ ps) h a =
      let tail : in_order ps ≡ true = ground arith in
      let skip = send_loop-Ordered (suc i) w ps tail (λ s e. ground (arith, a s e)) in
      let wait : no_wait p.session_id ps ≡ true
          → Ordered (p.session_id ∷ w) (send_loop clock raw_ok (suc i) (p.session_id ∷ w) ps) =
        λ n. send_loop-Ordered (suc i) (p.session_id ∷ w) ps tail (λ s e. ground (arith, a s)) in
      visit-Ordered p.pkg_status (raw_ok i) (clock i) w p ps (send_loop clock raw_ok (suc i) w ps)
        (send_loop clock raw_ok (suc i) (p.session_id ∷ w) ps) refl h a skip wait

-- What can happen to the queue: a request that is not blocked, a response from the other side, a run of the
-- sender with any clock and any results of the writes, and the end of a session.
pub data Step : Uart → Uart → Type 0 where
  requests :
      {u v : Uart} (queue : Bool) (q : Request) → request_send_package queue q u ≡ some v → Step u v
  responds : {u : Uart} (head : Request) → Step u (process_response_package head u)
  runs : {u : Uart} (clock : ℕ → ℕ) (raw_ok : ℕ → Bool) → Step u (send_pkgs clock raw_ok u).0
  clears : {u : Uart} (session_id : ℕ) → Step u (clear_uart_out_map session_id u)

pub data Reaches : Uart → Uart → Type 0 where
  here : {u : Uart} → Reaches u u
  there : {u v w : Uart} → Reaches u v → Step v w → Reaches u w

add_unless-in_order :
    (o : Option OutputPkg) (q : Request) (u : Uart)
    → in_order u.out_pkgs ≡ true
    → in_order (add_unless o q u).out_pkgs ≡ true
add_unless-in_order none q u h = in_order-append u.out_pkgs q h
add_unless-in_order (some p) q u h = h

add_pkg-in_order :
    (q : Request) (u : Uart) → in_order u.out_pkgs ≡ true → in_order (add_pkg q u).out_pkgs ≡ true
unfolding add_pkg
add_pkg-in_order q u h =
    add_unless-in_order (find_pkg (to_pkg_identity q (is_response_package q)) u.out_pkgs) q u h

request-in_order :
    (queue : Bool) (q : Request) (u v : Uart)
    → request_send_package queue q u ≡ some v
    → in_order u.out_pkgs ≡ true
    → in_order v.out_pkgs ≡ true
unfolding request_send_package
request-in_order queue q u v e h =
    let blocked = add_pkg-in_order q (record u { slots = q.session_id ∷ u.slots }) h in
    let free = add_pkg-in_order q u h in ground arith

answer-in_order :
    (ack : Bool) (k : Key) (o : Option OutputPkg) (u : Uart)
    → in_order u.out_pkgs ≡ true
    → in_order (answer ack k o u).out_pkgs ≡ true
answer-in_order ack k none u h = h
answer-in_order true k (some p) u h = in_order-erase k u.out_pkgs h
answer-in_order false k (some p) u h = in_order-resend k u.out_pkgs h

Step-in_order : {u v : Uart} → Step u v → in_order u.out_pkgs ≡ true → in_order v.out_pkgs ≡ true
unfolding process_response_package send_pkgs clear_uart_out_map
Step-in_order (requests {u} {v} queue q e) h = request-in_order queue q u v e h
Step-in_order (responds {u} head) h =
    let k = to_pkg_identity head false in answer-in_order head.ack k (find_pkg k u.out_pkgs) u h
Step-in_order (runs {u} clock raw_ok) h =
    (send_loop-Ordered clock raw_ok 0 [] u.out_pkgs h (λ s e. absurd cc)).0
Step-in_order (clears {u} s) h = in_order-clear s u.out_pkgs u.slots h

-- From an empty queue, or any in order, each sequence of requests, responses, runs of the sender and ends of
-- sessions leaves the queue in order: no package waits for its response behind another one of its session
-- that is not answered, and no response waits for a response.
pub uart-in_order :
    (u v : Uart) → in_order u.out_pkgs ≡ true → Reaches u v → in_order v.out_pkgs ≡ true
uart-in_order u v h here = h
uart-in_order u v h (there r s) = Step-in_order s (uart-in_order u _ h r)

-- One run of the sender, on a queue in order, sends at most one package of a session that wants a response.
pub send_pkgs-once :
    (clock : ℕ → ℕ) (raw_ok : ℕ → Bool) (u : Uart) (s : ℕ)
    → in_order u.out_pkgs ≡ true
    → sent_of s (send_pkgs clock raw_ok u).1 ≤ 1
unfolding send_pkgs
send_pkgs-once clock raw_ok u s h =
    (send_loop-Ordered clock raw_ok 0 [] u.out_pkgs h (λ t e. absurd cc)).2 s
