-- ===== src/Shell/Accepts.antt =====
-- host_shell_option.cpp: which command lines become tagged values, and which values.
use supertools_public.Common.{
  ℕ, ◌≤◌, ◌<◌, ◌≡◌, refl, sym, ap, ◌∙◌, subst, inl, inr, Bool, true, false, List, [], ◌∷◌, ◌++◌,
  arith, if◌then◌else◌, Bool-cases, length, Map, has, put, str_eq, str_eq→eq,
}
use supertools_public.Tlv.{tlv_value_max_len, TlvBuf, append}
use supertools_public.Base.Names.{check_bundle_name}
use supertools_public.Shell.{
  tag_shell_cmd, tag_shell_bundle, registerd_tag_set, option_bundle, missing_msg, unsupport_msg,
  construct_shell_command, tlv_append_parameter, Parameters, give_up, starts_with_dash, with_bundle,
  with_command, parameter_loop, parameter_to_tlv, start_buf,
}

-- A word that starts a command, of a length that a value can have.
abbrev pub IsCommand : List ℕ → List (List ℕ) → Type 0
IsCommand w ws =
    (starts_with_dash w ≡ false)
    × (0 < length (construct_shell_command (w ∷ ws)))
    × (length (construct_shell_command (w ∷ ws)) ≤ tlv_value_max_len)

-- The words that are accepted, and the values that they stand for: a command, or `-b`, the name of a bundle
-- and a command.
pub data Accepted : List (List ℕ) → Map (List ℕ) → Type 0 where
  plain :
      (w : List ℕ) (ws : List (List ℕ))
      → IsCommand w ws
      → Accepted (w ∷ ws) ((tag_shell_cmd, construct_shell_command (w ∷ ws)) ∷ [])
  bundled :
      (name w : List ℕ) (ws : List (List ℕ))
      → check_bundle_name name ≡ true
      → IsCommand w ws
      → Accepted
          (option_bundle ∷ name ∷ w ∷ ws)
          ((tag_shell_cmd, construct_shell_command (w ∷ ws)) ∷ (tag_shell_bundle, name) ∷ [])

abbrev pub buf_of : Map (List ℕ) → TlvBuf
buf_of m = record { tlv_map = m; valid_tags = registerd_tag_set }

not_bundle : (w : List ℕ) → starts_with_dash w ≡ false → str_eq w option_bundle ≡ false
not_bundle [] h = refl
not_bundle (c ∷ cs) h = ground arith

pub name_size :
    (name : List ℕ) → check_bundle_name name ≡ true → (0 < length name) × (length name ≤ 128)
unfolding check_bundle_name
name_size name h = ground arith

-- The value of a word that starts a command, in a buffer with or without a bundle.
pub loop_command :
    (w : List ℕ) (ws : List (List ℕ)) (b : TlvBuf)
    → starts_with_dash w ≡ false
    → parameter_loop 0 (w ∷ ws) b
      ≡ with_command
          (construct_shell_command (w ∷ ws))
          (tlv_append_parameter tag_shell_cmd (construct_shell_command (w ∷ ws)) b)
unfolding parameter_loop
loop_command w [] b h = rw (not_bundle w h, h) refl
loop_command w (v ∷ ws) b h = rw (not_bundle w h, h) refl

append_command :
    (text : List ℕ) (b : TlvBuf)
    → 0 < length text
    → length text ≤ tlv_value_max_len
    → has tag_shell_cmd b.tlv_map ≡ false
    → tlv_append_parameter tag_shell_cmd text b
      ≡ (true, [], record b { tlv_map = put tag_shell_cmd text b.tlv_map })
unfolding tlv_append_parameter append
append_command text b h k l = ground arith

append_command_inv :
    (text : List ℕ) (b : TlvBuf)
    → (tlv_append_parameter tag_shell_cmd text b).0 ≡ true
    → (0 < length text) × (length text ≤ tlv_value_max_len) × (has tag_shell_cmd b.tlv_map ≡ false)
unfolding tlv_append_parameter append
append_command_inv text b h = ground arith

-- A failure has a message.
pub append_fails :
    (tag : ℕ) (text : List ℕ) (b : TlvBuf)
    → let (ok, err, b') = tlv_append_parameter tag text b in if ok then err ≡ [] else 0 < length err
unfolding tlv_append_parameter
append_fails tag text b = ground arith

append_bundle :
    (name : List ℕ)
    → check_bundle_name name ≡ true
    → tlv_append_parameter tag_shell_bundle name start_buf
      ≡ (true, [], buf_of ((tag_shell_bundle, name) ∷ []))
unfolding tlv_append_parameter append
append_bundle name h = let s = name_size name h in ground arith

append_bundle_inv :
    (name : List ℕ) (b : TlvBuf)
    → (tlv_append_parameter tag_shell_bundle name b).0 ≡ true
    → (check_bundle_name name ≡ true) × (has tag_shell_bundle b.tlv_map ≡ false)
unfolding tlv_append_parameter append
append_bundle_inv name b h = ground arith

-- What is accepted succeeds.
pub parameter_to_tlv-Accepted :
    (ws : List (List ℕ)) (m : Map (List ℕ))
    → Accepted ws m
    → parameter_to_tlv ws start_buf ≡ (true, [], buf_of m)
unfolding parameter_to_tlv
parameter_to_tlv-Accepted ws m (plain w rest (d, p, l)) =
    rw
      (
        loop_command w rest start_buf d,
        append_command (construct_shell_command (w ∷ rest)) start_buf p l refl,
      )
      (ground arith)
parameter_to_tlv-Accepted ws m (bundled name w rest c (d, p, l)) =
    let b = buf_of ((tag_shell_bundle, name) ∷ []) in
    rw
      (
        append_bundle name c,
        loop_command w rest b d,
        append_command (construct_shell_command (w ∷ rest)) b p l refl,
      )
      (ground arith)

pub loop_dash :
    (w : List ℕ) (ws : List (List ℕ)) (b : TlvBuf)
    → str_eq w option_bundle ≡ false
    → starts_with_dash w ≡ true
    → parameter_loop 0 (w ∷ ws) b ≡ give_up (unsupport_msg ++ w) b
unfolding parameter_loop
loop_dash w [] b e h = rw (e, h) refl
loop_dash w (v ∷ ws) b e h = rw (e, h) refl

pub loop_missing :
    (w : List ℕ) (b : TlvBuf)
    → str_eq w option_bundle ≡ true
    → parameter_loop 0 (w ∷ []) b ≡ give_up missing_msg b
unfolding parameter_loop
loop_missing w b e = rw e refl

pub loop_bundle :
    (w v : List ℕ) (ws : List (List ℕ)) (b : TlvBuf)
    → str_eq w option_bundle ≡ true
    → parameter_loop 0 (w ∷ v ∷ ws) b
      ≡ with_bundle (parameter_loop 0 ws) (tlv_append_parameter tag_shell_bundle v b)
unfolding parameter_loop
loop_bundle w v ws b e = rw e refl

takes-IsCommand :
    (w : List ℕ) (ws : List (List ℕ)) (b : TlvBuf)
    → str_eq w option_bundle ≡ false
    → (parameter_loop 0 (w ∷ ws) b).ret ≡ true
    → IsCommand w ws
takes-IsCommand w ws b e r = elim (Bool-cases (starts_with_dash w)) [
  | inl d ↦ absurd (ground (arith, loop_dash w ws b e d))
  | inr d ↦
      let i =
        append_command_inv (construct_shell_command (w ∷ ws)) b
          (sym (ap (λ (p : Parameters). p.ret) (loop_command w ws b d)) ∙ r) in
      (d, i.0, i.1)
]

with_bundle_fails :
    (go : TlvBuf → Parameters) (p : Bool × List ℕ × TlvBuf)
    → p.0 ≡ false
    → (with_bundle go p).ret ≡ false
with_bundle_fails go (true, err, b) h = cc
with_bundle_fails go (false, err, b) h = refl

-- The rest of the line in a buffer that has a bundle.
behind_bundle :
    (ws : List (List ℕ)) (b : TlvBuf)
    → has tag_shell_bundle b.tlv_map ≡ true
    → (parameter_loop 0 ws b).ret ≡ true
    → (w : List ℕ) × (rest : List (List ℕ)) × (ws ≡ w ∷ rest) × IsCommand w rest
behind_bundle [] b h r = unfold parameter_loop in cc
behind_bundle (w ∷ ws) b h r = elim (Bool-cases (str_eq w option_bundle)) [
  | inl e ↦ absurd (no_second w ws e r)
  | inr e ↦ (w, ws, refl, takes-IsCommand w ws b e r)
]
  where
    no_second :
        (w : List ℕ) (ws : List (List ℕ))
        → str_eq w option_bundle ≡ true
        → ¬ ((parameter_loop 0 (w ∷ ws) b).ret ≡ true)
    no_second w [] e r = ground (arith, loop_missing w b e)
    no_second w (v ∷ ws) e r = elim (Bool-cases (tlv_append_parameter tag_shell_bundle v b).0) [
      | inl t ↦ ground (arith, append_bundle_inv v b t)
      | inr t ↦ ground (
        arith,
        loop_bundle w v ws b e,
        with_bundle_fails (parameter_loop 0 ws) (tlv_append_parameter tag_shell_bundle v b) t,
      )
    ]

loop_named :
    (name : List ℕ) (ws : List (List ℕ))
    → check_bundle_name name ≡ true
    → parameter_loop 0 (option_bundle ∷ name ∷ ws) start_buf
      ≡ parameter_loop 0 ws (buf_of ((tag_shell_bundle, name) ∷ []))
loop_named name ws c =
    loop_bundle option_bundle name ws start_buf refl
    ∙ ap (with_bundle (parameter_loop 0 ws)) (append_bundle name c)

-- What succeeds is accepted.
pub parameter_loop_inv :
    (ws : List (List ℕ))
    → (parameter_loop 0 ws start_buf).ret ≡ true
    → (m : Map (List ℕ)) × Accepted ws m
parameter_loop_inv [] r = unfold parameter_loop in cc
parameter_loop_inv (w ∷ ws) r = elim (Bool-cases (str_eq w option_bundle)) [
  | inr e ↦ (_, plain w ws (takes-IsCommand w ws start_buf e r))
  | inl e ↦ rw (str_eq→eq w option_bundle e) (
      after ws (
        subst (λ v. (parameter_loop 0 (v ∷ ws) start_buf).ret ≡ true) (str_eq→eq w option_bundle e)
          r))
]
  where
    after :
        (ws : List (List ℕ))
        → (parameter_loop 0 (option_bundle ∷ ws) start_buf).ret ≡ true
        → (m : Map (List ℕ)) × Accepted (option_bundle ∷ ws) m
    after [] r = absurd (ground (arith, loop_missing option_bundle start_buf refl))
    after (name ∷ ws) r =
        elim (Bool-cases (tlv_append_parameter tag_shell_bundle name start_buf).0) [
          | inl t ↦
              let c = (append_bundle_inv name start_buf t).0 in
              let (v, rest, e, cmd) =
                behind_bundle ws (buf_of ((tag_shell_bundle, name) ∷ [])) refl
                  (sym (ap (λ (p : Parameters). p.ret) (loop_named name ws c)) ∙ r) in
              rw e (_, bundled name v rest c cmd)
          | inr t ↦ absurd (
              ground (
                arith,
                loop_bundle option_bundle name ws start_buf refl,
                with_bundle_fails (parameter_loop 0 ws)
                    (tlv_append_parameter tag_shell_bundle name start_buf) t,
              ))
        ]
