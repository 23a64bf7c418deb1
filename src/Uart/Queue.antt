-- ===== src/Uart/Queue.antt =====
-- uart.cpp: `RequestSendPackage`, `ProcessResponsePackage`, `SendPkgInUARTOutMap` and `ClearUARTOutMap`.
--
-- `ToPkgIdentityString` writes the response mark, the session and the index of a package into a string, from
-- which they can be read back: a key is the three. The set `hasWaitPkg` of `slots` is a list. Each package
-- that `SendPkgInUARTOutMap` visits reads the clock and calls `SendUARTRaw` once at most: `clock` and
-- `raw_ok` answer for the package that is visited as number i. `OnTransferError` is outside: its call is an
-- event, and the run ends with it. The locks make each operation one step.
pub mod Slots
use supertools_public.Common.{
  ℕ, zero, suc, ◌+◌, ◌-◌, Bool, true, false, not, ◌&&◌, ◌||◌, Option, none, some, List, [], ◌∷◌,
  ◌++◌, ltb, leb, ◌==◌, if◌then◌else◌,
}

pub data PkgStatus : Type 0 where
  pkg_wait_send pkg_wait_response : PkgStatus

pub record Key : Type 0 where
  pub marked : Bool
  pub session : ℕ
  pub index : ℕ

abbrev pub same_bool : Bool → Bool → Bool
same_bool true b = b
same_bool false b = not b

abbrev pub same_key : Key → Key → Bool
same_key a b = same_bool a.marked b.marked && a.session == b.session && a.index == b.index

pub record OutputPkg : Type 0 where
  pub key : Key
  pub session_id : ℕ
  pub response : Bool
  pub pkg_status : PkgStatus
  pub msg_send_buf : List ℕ
  pub retry_chance : ℕ
  pub send_time_point : ℕ

-- What `RequestSendPackage` reads in a head. `ack` and `nak` are bits of the option.
pub record Request : Type 0 where
  pub session_id : ℕ
  pub package_index : ℕ
  pub ack : Bool
  pub nak : Bool
  pub buf : List ℕ

abbrev pub is_response_package : Request → Bool
is_response_package q = q.ack || q.nak

abbrev pub to_pkg_identity : Request → Bool → Key
to_pkg_identity q marked = record {
  marked = marked;
  session = q.session_id;
  index = q.package_index;
}

pub record Uart : Type 0 where
  pub out_pkgs : List OutputPkg
  pub slots : List ℕ

abbrev pub waits : ℕ → List ℕ → Bool
waits s [] = false
waits s (i ∷ is) = let rest = waits s is in if s == i then true else rest

-- `slots.Free`.
abbrev pub free_slot : ℕ → List ℕ → List ℕ
free_slot s [] = []
free_slot s (i ∷ is) = let rest = free_slot s is in if s == i then rest else i ∷ rest

abbrev pub find_pkg : Key → List OutputPkg → Option OutputPkg
find_pkg k [] = none
find_pkg k (p ∷ ps) = let rest = find_pkg k ps in if same_key k p.key then some p else rest

abbrev pub erase_pkg : Key → List OutputPkg → List OutputPkg
erase_pkg k [] = []
erase_pkg k (p ∷ ps) = let rest = erase_pkg k ps in if same_key k p.key then ps else p ∷ rest

abbrev pub resend_pkg : Key → List OutputPkg → List OutputPkg
resend_pkg k [] = []
resend_pkg k (p ∷ ps) =
    let rest = resend_pkg k ps in
    if same_key k p.key then (record p { pkg_status = pkg_wait_send }) ∷ ps else p ∷ rest

abbrev pub new_pkg : Request → OutputPkg
new_pkg q = record {
  key = to_pkg_identity q (is_response_package q);
  session_id = q.session_id;
  response = is_response_package q;
  pkg_status = pkg_wait_send;
  msg_send_buf = q.buf;
  retry_chance = 4;
  send_time_point = 0;
}

abbrev pub add_unless : Option OutputPkg → Request → Uart → Uart
add_unless none q u = record u { out_pkgs = u.out_pkgs ++ (new_pkg q ∷ []) }
add_unless (some _) q u = u

unfoldable pub add_pkg : Request → Uart → Uart
add_pkg q u = add_unless (find_pkg (to_pkg_identity q (is_response_package q)) u.out_pkgs) q u

-- `none` while the caller is blocked in `slots.Wait`.
unfoldable pub request_send_package : Bool → Request → Uart → Option Uart
unfolding add_pkg
request_send_package queue q u =
    if queue
    then (if waits q.session_id u.slots
        then none
        else some (add_pkg q (record u { slots = q.session_id ∷ u.slots })))
    else some (add_pkg q u)

abbrev pub answer : Bool → Key → Option OutputPkg → Uart → Uart
answer ack k none u = u
answer true k (some p) u = record u {
  slots = free_slot p.session_id u.slots;
  out_pkgs = erase_pkg k u.out_pkgs;
}
answer false k (some p) u = record u { out_pkgs = resend_pkg k u.out_pkgs }

unfoldable pub process_response_package : Request → Uart → Uart
process_response_package head u =
    let k = to_pkg_identity head false in answer head.ack k (find_pkg k u.out_pkgs) u

abbrev pub wait_response_time_out_ms : ℕ
wait_response_time_out_ms = 1000

pub data Event : Type 0 where
  sent : OutputPkg → Event
  notify : Event
  transfer_error : ℕ → Event

abbrev pub Run : Type 0
Run = List OutputPkg × List Event

-- The package `p` before `ps`, with the runs over `ps` that skip it, and that have its session wait.
abbrev pub visit_send : Bool → Bool → ℕ → OutputPkg → List OutputPkg → Run → Run → Run
visit_send blocked ok now p ps (skipped, es) (after, fs) =
    if not p.response && blocked
    then (p ∷ skipped, es)
    else if not ok
    then (p ∷ ps, [])
    else if p.response
    then (skipped, sent p ∷ es)
    else ((record p { pkg_status = pkg_wait_response; send_time_point = now }) ∷ after, sent p ∷ fs)

abbrev pub visit_wait : ℕ → OutputPkg → List OutputPkg → Run → Run
visit_wait now p ps (after, fs) =
    if leb wait_response_time_out_ms (now - p.send_time_point)
    then (if ltb 0 p.retry_chance
        then (
          (record p { pkg_status = pkg_wait_send; retry_chance = p.retry_chance - 1 }) ∷ ps,
          notify ∷ [],
        )
        else (p ∷ ps, transfer_error p.session_id ∷ []))
    else (p ∷ after, fs)

abbrev pub visit : PkgStatus → Bool → Bool → ℕ → OutputPkg → List OutputPkg → Run → Run → Run
visit pkg_wait_send blocked ok now p ps skip wait = visit_send blocked ok now p ps skip wait
visit pkg_wait_response blocked ok now p ps skip wait = visit_wait now p ps wait

module _ (clock : ℕ → ℕ) (raw_ok : ℕ → Bool) where
  -- The loop, at the package number i, with the sessions that wait.
  unfoldable pub send_loop : ℕ → List ℕ → List OutputPkg → Run
  send_loop i has_wait [] = ([], [])
  send_loop i has_wait (p ∷ ps) =
      let skip = send_loop (suc i) has_wait ps in
      let wait = send_loop (suc i) (p.session_id ∷ has_wait) ps in
      visit p.pkg_status (waits p.session_id has_wait) (raw_ok i) (clock i) p ps skip wait

  unfoldable pub send_pkgs : Uart → Uart × List Event
  unfolding send_loop
  send_pkgs u = let (ps, es) = send_loop 0 [] u.out_pkgs in (record u { out_pkgs = ps }, es)

unfoldable pub clear_loop : ℕ → List OutputPkg → List ℕ → List OutputPkg × List ℕ
clear_loop s [] slots = ([], slots)
clear_loop s (p ∷ ps) slots =
    let (kept, free) = clear_loop s ps slots in
    let (kept', free') = clear_loop s ps (free_slot p.session_id slots) in
    if p.session_id == s
    then (if p.response then (kept, free) else (kept', free'))
    else (p ∷ kept, free)

unfoldable pub clear_uart_out_map : ℕ → Uart → Uart
unfolding clear_loop
clear_uart_out_map s u =
    let (ps, slots) = clear_loop s u.out_pkgs u.slots in record { out_pkgs = ps; slots = slots }
