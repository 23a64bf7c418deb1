-- ===== src/Shell/Messages.antt =====
-- host_shell_option.cpp: `FormatParametersToTlv` when it fails.
use supertools_public.Common.{
  ℕ, ◌<◌, ◌≡◌, refl, ◌⊎◌, inl, inr, Bool, true, false, ◌||◌, Option, none, some, List, [], ◌∷◌,
  arith, leb, ◌==◌, if◌then◌else◌, Bool-cases, length, drop, str_eq,
}
use supertools_public.Tlv.{TlvBuf}
use supertools_public.Base.Args.{c_str, split_command_to_args}
use supertools_public.Shell.{
  tag_shell_cmd, tag_shell_bundle, option_bundle, construct_shell_command, tlv_append_parameter,
  Parameters, starts_with_dash, with_bundle, with_command, parameter_loop, parameter_to_tlv,
  copy_to_string, start_buf, copied, format_buf, format_args, format_parameters_to_tlv,
}
use supertools_public.Shell.Accepts.{
  loop_missing, loop_dash, loop_command, loop_bundle, append_fails,
}

-- A failure of the loop has a message, or no command.
abbrev Explained : Parameters → Type 0
Explained p = if p.ret then Unit else (0 < length p.err_msg) ⊎ (length p.shell_command ≡ 0)

with_command-Explained :
    (tag : ℕ) (text : List ℕ) (b : TlvBuf)
    → Explained (with_command text (tlv_append_parameter tag text b))
with_command-Explained tag text b = elim (Bool-cases (tlv_append_parameter tag text b).0) [
  | inl e ↦ rw e tt
  | inr e ↦ let f = append_fails tag text b in rw e (inl (ground arith))
]

with_bundle-Explained :
    (go : TlvBuf → Parameters) (p : Bool × List ℕ × TlvBuf)
    → ((b : TlvBuf) → Explained (go b))
    → Explained (with_bundle go p)
with_bundle-Explained go (true, err, b) h = h b
with_bundle-Explained go (false, err, b) h = inr refl

-- A word that is no option for a bundle.
word-Explained :
    (w : List ℕ) (ws : List (List ℕ)) (b : TlvBuf)
    → str_eq w option_bundle ≡ false
    → Explained (parameter_loop 0 (w ∷ ws) b)
word-Explained w ws b e = elim (Bool-cases (starts_with_dash w)) [
  | inl d ↦ rw (loop_dash w ws b e d) (inr refl)
  | inr d ↦
      rw (loop_command w ws b d)
        (with_command-Explained tag_shell_cmd (construct_shell_command (w ∷ ws)) b)
]

loop-Explained : (ws : List (List ℕ)) (b : TlvBuf) → Explained (parameter_loop 0 ws b)
loop-Explained [] b = unfold parameter_loop in inr refl
loop-Explained (w ∷ []) b = elim (Bool-cases (str_eq w option_bundle)) [
  | inl e ↦ rw (loop_missing w b e) (inr refl)
  | inr e ↦ word-Explained w [] b e
]
loop-Explained (w ∷ v ∷ ws) b = elim (Bool-cases (str_eq w option_bundle)) [
  | inl e ↦ rw (loop_bundle w v ws b e) (
      with_bundle-Explained (parameter_loop 0 ws) (tlv_append_parameter tag_shell_bundle v b)
        (loop-Explained ws))
  | inr e ↦ word-Explained w (v ∷ ws) b e
]

parameter_to_tlv-message :
    (ws : List (List ℕ)) (b : TlvBuf)
    → (parameter_to_tlv ws b).0 ≡ false
    → 0 < length (parameter_to_tlv ws b).1
unfolding parameter_to_tlv
parameter_to_tlv-message ws b h = let e = loop-Explained ws b in ground arith

format_buf-message :
    (p : Bool × List ℕ × TlvBuf)
    → (p.0 ≡ false → 0 < length p.1)
    → (format_buf p).0 ≡ none
    → 0 < length (format_buf p).1
format_buf-message (true, err, b) h e = copied-message (copy_to_string b) e
  where
    copied-message : (o : Option (List ℕ)) → (copied o).0 ≡ none → 0 < length (copied o).1
    copied-message none e = omega arith
    copied-message (some x) e = cc
format_buf-message (false, err, b) h e = h refl

format_args-message :
    (o : Option (List (List ℕ))) → (format_args o).0 ≡ none → 0 < length (format_args o).1
format_args-message none e = omega arith
format_args-message (some []) e = omega arith
format_args-message (some (w ∷ ws)) e =
    format_buf-message (parameter_to_tlv (w ∷ ws) start_buf)
      (parameter_to_tlv-message (w ∷ ws) start_buf) e

-- Where `FormatParametersToTlv` gives no bytes, it says why: the message is not empty.
pub format_parameters_to_tlv-err_msg :
    (parameters : List ℕ) (start_pos : ℕ)
    → (format_parameters_to_tlv parameters start_pos).0 ≡ none
    → 0 < length (format_parameters_to_tlv parameters start_pos).1
unfolding format_parameters_to_tlv
format_parameters_to_tlv-err_msg parameters start_pos e =
    elim (Bool-cases (length parameters == 0 || leb (length parameters) start_pos)) [
      | inl t ↦ rw t (omega arith)
      | inr t ↦
          let m = format_args-message (split_command_to_args (c_str (drop start_pos parameters))) in
          rw t (m (rw t at e))
    ]
