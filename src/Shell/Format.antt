-- ===== src/Shell/Format.antt =====
-- host_shell_option.cpp: `FormatParametersToTlv` as a whole.
use supertools_public.Common.{
  ℕ, ◌^◌, ◌<◌, ◌≡◌, refl, sym, ap, ◌∙◌, subst, Bool, true, false, Option, none, some, List, [], ◌∷◌,
  arith, All, length, drop, Map, Sorted,
}
use supertools_public.Tlv.{TlvBuf, parse, get_buf_size, copy_to_buf}
use supertools_public.Tlv.RoundTrip.{IsTlv, total, size_from-total, parse-copy_to_buf}
use supertools_public.Base.Args.{c_str, split_command_to_args}
use supertools_public.Shell.{
  parameter_to_tlv, copy_to_string, start_buf, format_buf, format_args, format_parameters_to_tlv,
}
use supertools_public.Shell.Accepts.{
  Accepted, plain, bundled, buf_of, parameter_to_tlv-Accepted, parameter_loop_inv, name_size,
}

-- The words of the parameters from a position on.
abbrev pub words_from : List ℕ → ℕ → Option (List (List ℕ))
words_from parameters start_pos = split_command_to_args (c_str (drop start_pos parameters))

Accepted-IsTlv :
    (ws : List (List ℕ)) (m : Map (List ℕ))
    → Accepted ws m
    → All IsTlv m × Sorted m × (0 < total m) × (total m < 2 ^ 32)
Accepted-IsTlv ws m (plain w rest (d, p, l)) =
    (((omega arith, p, l), tt), (tt, tt), omega arith, omega arith)
Accepted-IsTlv ws m (bundled name w rest c (d, p, l)) =
    let n = name_size name c in
    (
      ((omega arith, p, l), ((omega arith, n.0, omega (arith, n)), tt)),
      ((omega arith, tt), (tt, tt)),
      omega arith,
      omega (arith, n),
    )

-- The tagged values that are accepted can be written and read back.
copy_to_string-Accepted :
    (ws : List (List ℕ)) (m : Map (List ℕ))
    → Accepted ws m
    → (bytes : List ℕ) × (copy_to_string (buf_of m) ≡ some bytes)
      × (parse bytes ≡ record { tlv_map = m; valid_tags = [] })
unfolding copy_to_string
copy_to_string-Accepted ws m a =
    let (tlvs, sorted, pos, small) = Accepted-IsTlv ws m a in
    let b = buf_of m in
    let size : get_buf_size b ≡ total m = size_from-total 0 m (omega arith) ∙ omega arith in
    let (ok, len, back) =
      parse-copy_to_buf (get_buf_size b) b tlvs sorted (omega arith) (omega arith)
        (omega (arith, size)) in
    ((copy_to_buf (get_buf_size b) b).1, ground (arith, size, ok), back)

parameter_to_tlv_inv :
    (ws : List (List ℕ))
    → (parameter_to_tlv ws start_buf).0 ≡ true
    → (m : Map (List ℕ)) × Accepted ws m
unfolding parameter_to_tlv
parameter_to_tlv_inv ws r = parameter_loop_inv ws (ground arith)

Accepted-words : (ws : List (List ℕ)) (m : Map (List ℕ)) → Accepted ws m → 0 < length ws
Accepted-words ws m (plain w rest c) = omega arith
Accepted-words ws m (bundled name w rest v c) = omega arith

format_args-Accepted :
    (ws : List (List ℕ)) (m : Map (List ℕ))
    → Accepted ws m
    → (bytes : List ℕ) × (format_args (some ws) ≡ (some bytes, []))
      × (parse bytes ≡ record { tlv_map = m; valid_tags = [] })
format_args-Accepted [] m a = absurd (omega (arith, Accepted-words [] m a))
format_args-Accepted (w ∷ ws) m a =
    let (bytes, e, back) = copy_to_string-Accepted (w ∷ ws) m a in
    (bytes, rw (parameter_to_tlv-Accepted (w ∷ ws) m a, e) refl, back)

format_buf_inv :
    (p : Bool × List ℕ × TlvBuf) (bytes err : List ℕ)
    → format_buf p ≡ (some bytes, err)
    → p.0 ≡ true
format_buf_inv (true, e, b) bytes err h = refl
format_buf_inv (false, e, b) bytes err h = cc

format_args_inv :
    (o : Option (List (List ℕ))) (bytes err : List ℕ)
    → format_args o ≡ (some bytes, err)
    → (ws : List (List ℕ)) × (m : Map (List ℕ)) × (o ≡ some ws) × Accepted ws m
format_args_inv none bytes err h = cc
format_args_inv (some []) bytes err h = cc
format_args_inv (some (w ∷ ws)) bytes err h =
    let (m, a) =
      parameter_to_tlv_inv (w ∷ ws)
        (format_buf_inv (parameter_to_tlv (w ∷ ws) start_buf) bytes err h) in
    (w ∷ ws, m, refl, a)

-- Parameters whose words from the start position on are accepted: a command, or `-b`, a valid bundle name
-- and a command, where a command does not begin with `-` and is neither empty nor longer than 16 MiB.
-- `FormatParametersToTlv` gives bytes for them, without an error, that hold exactly their values.
pub format_parameters_to_tlv-Accepted :
    (parameters : List ℕ) (start_pos : ℕ) (ws : List (List ℕ)) (m : Map (List ℕ))
    → start_pos < length parameters
    → words_from parameters start_pos ≡ some ws
    → Accepted ws m
    → (bytes : List ℕ) × (format_parameters_to_tlv parameters start_pos ≡ (some bytes, []))
      × (parse bytes ≡ record { tlv_map = m; valid_tags = [] })
unfolding format_parameters_to_tlv
format_parameters_to_tlv-Accepted parameters start_pos ws m h e a =
    let (bytes, f, back) = format_args-Accepted ws m a in (bytes, rw (e, f) (ground arith), back)

-- If `FormatParametersToTlv` gives bytes, the words from the start position on are accepted, and the bytes
-- hold exactly their values, so the bundle's name is valid and the command is not empty.
pub format_parameters_to_tlv_inv :
    (parameters : List ℕ) (start_pos : ℕ) (bytes err : List ℕ)
    → format_parameters_to_tlv parameters start_pos ≡ (some bytes, err)
    → (ws : List (List ℕ)) × (m : Map (List ℕ)) × (words_from parameters start_pos ≡ some ws)
      × Accepted ws m
      × (parse bytes ≡ record { tlv_map = m; valid_tags = [] })
unfolding format_parameters_to_tlv
format_parameters_to_tlv_inv parameters start_pos bytes err e =
    let args = split_command_to_args (c_str (drop start_pos parameters)) in
    let same : format_args args ≡ (some bytes, err) = ground arith in
    let (ws, m, f, a) = format_args_inv args bytes err same in
    let (bytes', g, back) = format_args-Accepted ws m a in
    let b : bytes' ≡ bytes =
      ap (λ (o : Option (List ℕ)). get o)
        (ap (λ (q : Option (List ℕ) × List ℕ). q.0) (sym g ∙ sym (ap format_args f) ∙ same)) in
    (ws, m, f, a, subst (λ z. parse z ≡ record { tlv_map = m; valid_tags = [] }) b back)
  where
    get : Option (List ℕ) → List ℕ
    get none = []
    get (some x) = x
