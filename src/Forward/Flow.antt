-- ===== src/Forward/Flow.antt =====
-- forward.cpp: bytes on their way through a forwarding, `ReadForwardBuf` on one side, `SendToTask`,
-- `FilterCommand` and `SendForwardBuf` on the other.
use supertools_public.Common.{
  ℕ, ◌-◌, ◌^◌, ◌≤◌, ◌<◌, ◌≡◌, refl, sym, ap, ◌∙◌, ◌≢◌, true, false, not, ◌||◌, Option, some, List,
  [], ◌∷◌, ◌++◌, append-nil, append_assoc, arith, ltb, leb, ◌==◌, All, length, find, find-put_self,
  find-put_ne,
}
use supertools_public.Common.Bytes.{be32, read_be32}
use supertools_public.Forward.Contexts.{
  ContextForward, HdcForwardBase, Calls, ◌>>=◌, query_context, set_context, task_frame,
  send_to_task, filter_command, max_task_data, cmd_forward_data,
}
use supertools_public.Forward.Dispatch.{
  dispatch_found, dispatch_to, forward_command_dispatch, command_dispatch, read_forward_buf,
}

-- Reads of a stream, one after the other.
unfoldable pub read_all : Calls → ℕ → List (List ℕ) → HdcForwardBase → Option HdcForwardBase
read_all calls h [] s = some s
read_all calls h (bytes ∷ more) s =
    read_forward_buf calls (some bytes) h s >>= λ t. read_all calls h more t

-- Commands that arrive, one after the other.
unfoldable pub dispatch_all : Calls → List (ℕ × List ℕ) → HdcForwardBase → Option HdcForwardBase
dispatch_all calls [] s = some s
dispatch_all calls ((command, payload) ∷ more) s =
    command_dispatch calls 0 command payload s >>= λ r. dispatch_all calls more r.1

-- What reads of these bytes send.
abbrev pub data_commands : ℕ → List (List ℕ) → List (ℕ × List ℕ)
data_commands i [] = []
data_commands i (bytes ∷ more) = (cmd_forward_data, be32 i ++ bytes) ∷ data_commands i more

abbrev pub concat : List (List ℕ) → List ℕ
concat [] = []
concat (bytes ∷ more) = bytes ++ concat more

abbrev pub IsRead : List ℕ → Type 0
IsRead bytes = (0 < length bytes) × (length bytes ≤ max_task_data)

read_one :
    (calls : Calls) (h : ℕ) (c : ContextForward) (s : HdcForwardBase) (bytes : List ℕ)
    → calls.sends ≡ true
    → find h s.contexts ≡ some c
    → IsRead bytes
    → read_forward_buf calls (some bytes) h s
      ≡ some (record s { sent = s.sent ++ (cmd_forward_data, be32 c.id ++ bytes) ∷ [] })
unfolding read_forward_buf send_to_task task_frame
read_one calls h c s bytes a e r =
    let some_bytes : (length bytes == 0) ≡ false = ground (arith, r.0) in
    let fits : ltb max_task_data (length bytes) ≡ false = ground (arith, r.1) in
    rw (e, some_bytes, fits) (ground (arith, a))

read_all_lem :
    (calls : Calls) (h : ℕ) (c : ContextForward) (s : HdcForwardBase) (reads : List (List ℕ))
    → calls.sends ≡ true
    → find h s.contexts ≡ some c
    → All IsRead reads
    → read_all calls h reads s ≡ some (record s { sent = s.sent ++ data_commands c.id reads })
unfolding read_all
read_all_lem calls h c s [] a e r = ground (arith, append-nil s.sent)
read_all_lem calls h c s (bytes ∷ more) a e r =
    let t : HdcForwardBase = record s {
      sent = s.sent ++ (cmd_forward_data, be32 c.id ++ bytes) ∷ [];
    } in
    ap (λ o. o >>= λ x. read_all calls h more x) (read_one calls h c s bytes a e r.0)
    ∙ read_all_lem calls h c t more a e r.1
    ∙ ap (λ (m : List (ℕ × List ℕ)). some (record s { sent = m }))
        (append_assoc s.sent ((cmd_forward_data, be32 c.id ++ bytes) ∷ [])
          (data_commands c.id more))

read_be32-be32 : (i : ℕ) (bytes : List ℕ) → i < 2 ^ 32 → read_be32 (be32 i ++ bytes) ≡ i
read_be32-be32 i bytes l = omega arith

-- A context that is not being freed takes the bytes.
found_one :
    (calls : Calls) (k : ℕ) (d : ContextForward) (s : HdcForwardBase) (bytes : List ℕ)
    → calls.opens ≡ true
    → d.finish ≡ false
    → IsRead bytes
    → dispatch_found calls cmd_forward_data bytes k s d
      ≡ some (true, set_context k (record d { written = d.written ++ bytes }) s)
found_one calls k d s bytes o f r =
    let taken : (ltb (2 ^ 31 - 2) (length bytes) || length bytes == 0 || not calls.opens) ≡ false =
      ground (arith, r.0, r.1, o) in
    ground (arith, f, taken)

dispatch_one :
    (calls : Calls) (i k : ℕ) (d : ContextForward) (s : HdcForwardBase) (bytes : List ℕ)
    → calls.opens ≡ true
    → i < 2 ^ 32
    → query_context i s ≡ some k
    → find k s.contexts ≡ some d
    → d.finish ≡ false
    → IsRead bytes
    → command_dispatch calls 0 cmd_forward_data (be32 i ++ bytes) s
      ≡ some (true, set_context k (record d { written = d.written ++ bytes }) s)
unfolding command_dispatch forward_command_dispatch filter_command
dispatch_one calls i k d s bytes o l q e f r =
    let long : leb (length (be32 i ++ bytes)) 4 ≡ false = ground (arith, r.0) in
    rw (long) (
      ap (λ j. dispatch_to calls cmd_forward_data bytes s (query_context j s))
        (read_be32-be32 i bytes l)
      ∙ ap (dispatch_to calls cmd_forward_data bytes s) q
      ∙ ap (λ x. x >>= λ y. dispatch_found calls cmd_forward_data bytes k s y) e
      ∙ found_one calls k d s bytes o f r)

-- The stream `k` of a task has been given bytes, and nothing else has changed.
abbrev pub Given : ℕ → ContextForward → List ℕ → HdcForwardBase → HdcForwardBase → Type 0
Given k d bytes s t =
    (find k t.contexts ≡ some (record d { written = d.written ++ bytes }))
    × ((j : ℕ) → j ≢ k → find j t.contexts ≡ find j s.contexts)
    × (t ≡ record s { contexts = t.contexts })

dispatch_all_lem :
    (calls : Calls) (i k : ℕ) (d : ContextForward) (s : HdcForwardBase) (reads : List (List ℕ))
    → calls.opens ≡ true
    → i < 2 ^ 32
    → query_context i s ≡ some k
    → find k s.contexts ≡ some d
    → d.finish ≡ false
    → All IsRead reads
    → (t : HdcForwardBase) × (dispatch_all calls (data_commands i reads) s ≡ some t)
      × Given k d (concat reads) s t
unfolding dispatch_all
dispatch_all_lem calls i k d s [] o l q e f r = (
  s,
  refl,
  (
    e ∙ ap (λ (w : List ℕ). some (record d { written = w })) (sym (append-nil d.written)),
    λ j n. refl,
    refl,
  ),
)
dispatch_all_lem calls i k d s (bytes ∷ more) o l q e f r =
    let d' : ContextForward = record d { written = d.written ++ bytes } in
    let u = set_context k d' s in
    let (t, p, (g, others, rest)) =
      dispatch_all_lem calls i k d' u more o l q (find-put_self k d' s.contexts) f r.1 in
    (
      t,
      ap (λ x. x >>= λ y. dispatch_all calls (data_commands i more) y.1)
            (dispatch_one calls i k d s bytes o l q e f r.0)
          ∙ p,
      (
        g
            ∙ ap (λ (w : List ℕ). some (record d { written = w }))
                (append_assoc d.written bytes (concat more)),
        λ j n. others j n ∙ find-put_ne k j d' s.contexts n,
        rest,
      ),
    )

-- Bytes read from a stream in any number of reads, each of at most 120 KiB, while the messages go out: they
-- are sent as commands, and if these arrive in that order at a task whose context of that id is not being
-- freed and takes its writes, its stream is given exactly the bytes that were read, in their order, behind
-- what it had; no other context and no other field of that task changes.
pub dispatch_all-read_all :
    (from to : Calls) (h : ℕ) (c : ContextForward) (s : HdcForwardBase) (k : ℕ) (d : ContextForward)
    (r : HdcForwardBase) (reads : List (List ℕ))
    → from.sends ≡ true
    → find h s.contexts ≡ some c
    → c.id < 2 ^ 32
    → to.opens ≡ true
    → query_context c.id r ≡ some k
    → find k r.contexts ≡ some d
    → d.finish ≡ false
    → All IsRead reads
    → (commands : List (ℕ × List ℕ)) × (t : HdcForwardBase) × (read_all from h reads s
        ≡ some (record s { sent = s.sent ++ commands }))
      × (dispatch_all to commands r ≡ some t)
      × Given k d (concat reads) r t
dispatch_all-read_all from to h c s k d r reads a e l o q g f b =
    let (t, p, given) = dispatch_all_lem to c.id k d r reads o l q g f b in
    (data_commands c.id reads, t, read_all_lem from h c s reads a e b, p, given)
