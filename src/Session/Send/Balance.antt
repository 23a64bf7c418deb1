-- ===== src/Session/Send/Balance.antt =====
-- session.cpp: `Send`, and the references, buffers and writes that it makes.
use supertools_public.Common.{
  ℕ, ◌+◌, ◌^◌, ◌<◌, ◌≡◌, refl, ap, ◌∙◌, ◌⊎◌, ◌&&◌, Bool, true, false, not, some, List, [], ◌∷◌,
  ◌==◌, if◌then◌else◌, arith, find, ==_iff, ==_self, Bool-cases, Option-cases, inl, inr, length,
}
use supertools_public.Session.Admin.{
  ConnType, conn_usb, conn_tcp, conn_serial, conn_other, SessionInfo, Heap, Sessions, admin_session,
  add_ref, drop_ref,
}
use supertools_public.Session.Packet.{packet, head_len, protect_buf}
use supertools_public.Serial.Message.{serialize_to_string}
use supertools_public.Serial.Structs.{protect_message}
use supertools_public.Session.Send.{
  Link, Event, write, free_buf, by_type, tcp_link, work_tcp, child_work_tcp, usb, uart,
  send_by_protocol, send_to, send, all_copied, cmd_kernel_echo,
}

-- The events that end the life of a buffer.
abbrev pub released : List Event → ℕ
released [] = 0
released (free_buf ∷ es) = 1 + released es
released (write work_tcp h b ∷ es) = 1 + released es
released (write child_work_tcp h b ∷ es) = 1 + released es
released (write usb h b ∷ es) = released es
released (write uart h b ∷ es) = released es

abbrev pub written : List Event → List (ℕ × List ℕ)
written [] = []
written (free_buf ∷ es) = written es
written (write l h b ∷ es) = (h, b) ∷ written es

abbrev pub has_link : ConnType → Bool
has_link conn_usb = true
has_link conn_tcp = true
has_link conn_serial = true
has_link conn_other = false

tcp_link_lem :
    (x : SessionInfo) (echo : Bool)
    → (tcp_link x echo ≡ work_tcp) ⊎ (tcp_link x echo ≡ child_work_tcp)
tcp_link_lem x echo = ground arith

by_type_lem :
    (c : ConnType) (l : Link) (h : ℕ) (buf : List ℕ)
    → (l ≡ work_tcp) ⊎ (l ≡ child_work_tcp)
    → (released (by_type c l h buf).1 ≡ 1)
      × (written (by_type c l h buf).1 ≡ (if has_link c then (h, buf) ∷ [] else []))
by_type_lem conn_usb l h buf k = (refl, refl)
by_type_lem conn_tcp l h buf (inl k) = rw k (refl, refl)
by_type_lem conn_tcp l h buf (inr k) = rw k (refl, refl)
by_type_lem conn_serial l h buf k = (refl, refl)
by_type_lem conn_other l h buf k = (refl, refl)

send_by_protocol_lem :
    (h : ℕ) (x : SessionInfo) (buf : List ℕ) (echo : Bool)
    → (released (send_by_protocol h x buf echo).1 ≡ 1)
      × (written (send_by_protocol h x buf echo).1
          ≡ (if not x.is_dead && has_link x.conn_type then (h, buf) ∷ [] else []))
unfolding send_by_protocol
send_by_protocol_lem h x buf echo =
    ground (arith, by_type_lem x.conn_type (tcp_link x echo) h buf, tcp_link_lem x echo)

ref_back : (heap : Heap) (h i : ℕ) → (heap h).ref < 2 ^ 32 → drop_ref h (add_ref h heap) i ≡ heap i
ref_back heap h i r = elim (Bool-cases (i == h)) [
  | inl e ↦
      rw ((==_iff i h).0 e, ==_self h) (ap (λ n. record (heap h) { ref = n }) (omega arith) ∙ refl)
  | inr e ↦ rw e refl
]

module _ (io_checksum : Bool) (alloc copies : ℕ → Bool) where
  send_to_state :
      (h : ℕ) (t : Sessions) (channel_id command_flag : ℕ) (payload : List ℕ)
      → (send_to io_checksum alloc copies h t channel_id command_flag payload).1
        ≡ record t { heap = drop_ref h t.heap }
  unfolding send_to
  send_to_state h t channel_id command_flag payload = ground arith

  abbrev head_of : ℕ → ℕ → List ℕ → List ℕ
  head_of channel_id command_flag payload =
      serialize_to_string
        (protect_message (protect_buf io_checksum channel_id command_flag payload))

  -- Both buffers can be had and filled.
  abbrev pub allocated : ℕ → ℕ → List ℕ → Bool
  allocated channel_id command_flag payload =
      alloc (head_len + length (head_of channel_id command_flag payload) + length payload)

  abbrev pub filled : ℕ → ℕ → List ℕ → Bool
  filled channel_id command_flag payload =
      allocated channel_id command_flag payload
      && all_copied io_checksum alloc copies (length (head_of channel_id command_flag payload))
          (length payload)

  send_to_events :
      (h : ℕ) (t : Sessions) (channel_id command_flag : ℕ) (payload : List ℕ)
      → let es = (send_to io_checksum alloc copies h t channel_id command_flag payload).2 in
        let x = t.heap h in
        (released es ≡ (if allocated channel_id command_flag payload then 1 else 0))
        × (written es ≡ (
            if filled channel_id command_flag payload && not x.is_dead && has_link x.conn_type
            then (h, packet io_checksum channel_id command_flag payload) ∷ []
            else []))
  unfolding send_to
  send_to_events h t channel_id command_flag payload =
      let (a, b) =
        send_by_protocol_lem h (t.heap h) (packet io_checksum channel_id command_flag payload)
          (command_flag == cmd_kernel_echo) in
      ground (arith, a, b)

  -- `Send` leaves each session and the table as they were, on every path: the reference it takes is given
  -- back. No count of references is at the end of its range.
  pub send-sessions :
      (server : Bool) (t : Sessions) (session_id channel_id command_flag : ℕ) (payload : List ℕ)
      → ((h : ℕ) → (t.heap h).ref < 2 ^ 32)
      → let (ret, u, events) =
          send io_checksum alloc copies server t session_id channel_id command_flag payload in
        ((h : ℕ) → u.heap h ≡ t.heap h) × (u.map_session ≡ t.map_session) × (u.aborted ≡ t.aborted)
  unfolding send send_to admin_session
  send-sessions server t k cid flag payload r = elim (Option-cases (find k t.map_session)) [
    | inl e ↦ rw e (λ h. refl, refl, refl)
    | inr (h, e) ↦
        let back : (i : ℕ) → drop_ref h (add_ref h t.heap) i ≡ t.heap i =
          λ i. ref_back t.heap h i (r h) in
        rw (e, send_to_state h (record t { heap = add_ref h t.heap }) cid flag payload)
          (back, refl, refl)
  ]

  -- `Send` to a session of the table makes one buffer if one can be had, and on every path it is freed or
  -- handed to the TCP writer exactly once. Exactly one packet is written, to that session, if the buffer can
  -- be had and filled, the session is not dead and its connection has a transport; otherwise none is.
  pub send-buffer :
      (server : Bool) (t : Sessions) (session_id h channel_id command_flag : ℕ) (payload : List ℕ)
      → find session_id t.map_session ≡ some h
      → let es =
          (send io_checksum alloc copies server t session_id channel_id command_flag payload).2 in
        let x = t.heap h in
        (released es ≡ (if allocated channel_id command_flag payload then 1 else 0))
        × (written es ≡ (
            if filled channel_id command_flag payload && not x.is_dead && has_link x.conn_type
            then (h, packet io_checksum channel_id command_flag payload) ∷ []
            else []))
  unfolding send admin_session
  send-buffer server t k h cid flag payload e =
      let u : Sessions = record t { heap = add_ref h t.heap } in
      let (a, b) = send_to_events h u cid flag payload in rw e (a, b ∙ rw (==_self h))
