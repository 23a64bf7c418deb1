-- ===== src/Shell.antt =====
-- host_shell_option.cpp: the options of `shell`, as tagged values.
--
-- `errMsg` is a reference that the callers pass empty; it is the text returned beside the result.
pub mod Accepts
pub mod Format
pub mod Messages
mod Tests
use supertools_public.Common.{
  ℕ, zero, suc, Bool, true, false, not, ◌&&◌, ◌||◌, Option, none, some, List, [], ◌∷◌, ◌++◌, ltb,
  leb, ◌==◌, if◌then◌else◌, length, drop, str_eq, codes,
}
use supertools_public.Base.Args.{c_str, split_command_to_args}
use supertools_public.Base.Names.{check_bundle_name}
use supertools_public.Tlv.{TlvBuf, append, get_buf_size, copy_to_buf}

-- `TAG_SHELL_CMD` and `TAG_SHELL_BUNDLE`.
abbrev pub tag_shell_cmd : ℕ
tag_shell_cmd = 0

abbrev pub tag_shell_bundle : ℕ
tag_shell_bundle = 1

-- `REGISTERD_TAG_SET`, in order.
abbrev pub registerd_tag_set : List ℕ
registerd_tag_set = tag_shell_cmd ∷ tag_shell_bundle ∷ []

abbrev pub option_bundle : List ℕ
option_bundle = codes "-b"

abbrev pub interactive_msg : List ℕ
interactive_msg = codes "[E003002] Unsupport interactive shell command option"

abbrev pub missing_msg : List ℕ
missing_msg =
    codes
      "[E003005] The parameter is missing, correct your input by referring below:\nUsage: hdc shell [-b bundlename] [COMMAND...]"

abbrev pub unsupport_msg : List ℕ
unsupport_msg = codes "[E003003] Unsupport shell option: "

abbrev pub bundle_msg : List ℕ
bundle_msg = codes "[E003001] Invalid bundle name: "

abbrev pub append_msg : List ℕ
append_msg = codes "[E003008] Internal error: Failed to add value to TLV buffer"

abbrev pub options_msg : List ℕ
options_msg = codes "[E003007] Internal error: Invalid option parameters"

abbrev pub buffer_msg : List ℕ
buffer_msg = codes "[E003009] Internal error: Invalid tlv buffer"

-- The words from `startIndex` on, with a blank between them.
unfoldable pub construct_shell_command : List (List ℕ) → List ℕ
construct_shell_command [] = []
construct_shell_command (w ∷ []) = w
construct_shell_command (w ∷ v ∷ ws) = w ++ (b' ' ∷ construct_shell_command (v ∷ ws))

-- The value of `errMsg` after a success is the one before it.
unfoldable pub tlv_append_parameter : ℕ → List ℕ → TlvBuf → Bool × List ℕ × TlvBuf
tlv_append_parameter tag text b =
    let (ok, b') = append tag text b in
    if tag == tag_shell_cmd && length text == 0
    then (false, interactive_msg, b)
    else if tag == tag_shell_bundle && not (check_bundle_name text)
    then (false, bundle_msg ++ text, b)
    else if not ok
    then (false, append_msg, b')
    else (true, [], b')

-- What the loop of `ParameterToTlv` leaves in `ret`, `errMsg`, `shellCommand` and the buffer.
pub record Parameters : Type 0 where
  pub ret : Bool
  pub err_msg : List ℕ
  pub shell_command : List ℕ
  pub buf : TlvBuf

-- A `break` without success.
abbrev pub give_up : List ℕ → TlvBuf → Parameters
give_up err b = record { ret = false; err_msg = err; shell_command = []; buf = b }

abbrev pub starts_with_dash : List ℕ → Bool
starts_with_dash [] = false
starts_with_dash (c ∷ cs) = c == b'-'

-- Behind `TlvAppendParameter` for a bundle, with the rest of the loop.
abbrev pub with_bundle : (TlvBuf → Parameters) → Bool × List ℕ × TlvBuf → Parameters
with_bundle rest (true, err, b) = rest b
with_bundle rest (false, err, b) = give_up err b

abbrev pub with_command : List ℕ → Bool × List ℕ × TlvBuf → Parameters
with_command command (ok, err, b) = record {
  ret = ok;
  err_msg = err;
  shell_command = command;
  buf = b;
}

-- The loop, with `skipNext`.
unfoldable pub parameter_loop : ℕ → List (List ℕ) → TlvBuf → Parameters
parameter_loop skip [] b = give_up [] b
parameter_loop (suc skip) (w ∷ ws) b = parameter_loop skip ws b
parameter_loop zero (w ∷ []) b =
    if str_eq w option_bundle
    then give_up missing_msg b
    else if starts_with_dash w
    then give_up (unsupport_msg ++ w) b
    else with_command (construct_shell_command (w ∷ []))
        (tlv_append_parameter tag_shell_cmd (construct_shell_command (w ∷ [])) b)
parameter_loop zero (w ∷ v ∷ ws) b =
    let rest = parameter_loop 1 (v ∷ ws) in
    if str_eq w option_bundle
    then with_bundle rest (tlv_append_parameter tag_shell_bundle v b)
    else if starts_with_dash w
    then give_up (unsupport_msg ++ w) b
    else with_command (construct_shell_command (w ∷ v ∷ ws))
        (tlv_append_parameter tag_shell_cmd (construct_shell_command (w ∷ v ∷ ws)) b)

-- The test behind the loop.
abbrev pub end_parameters : Parameters → Bool × List ℕ × TlvBuf
end_parameters p =
    if length p.err_msg == 0 && length p.shell_command == 0
    then (p.ret, interactive_msg, p.buf)
    else (p.ret, p.err_msg, p.buf)

unfoldable pub parameter_to_tlv : List (List ℕ) → TlvBuf → Bool × List ℕ × TlvBuf
unfolding parameter_loop
parameter_to_tlv argv b = end_parameters (parameter_loop 0 argv b)

-- The bytes, if `CopyToBuf` succeeds; allocation does.
unfoldable pub copy_to_string : TlvBuf → Option (List ℕ)
copy_to_string b =
    let (ok, bytes) = copy_to_buf (get_buf_size b) b in
    if get_buf_size b == 0 then none else if ok then some bytes else none

abbrev pub start_buf : TlvBuf
start_buf = record { tlv_map = []; valid_tags = registerd_tag_set }

abbrev pub copied : Option (List ℕ) → Option (List ℕ) × List ℕ
copied none = (none, buffer_msg)
copied (some bytes) = (some bytes, [])

abbrev pub format_buf : Bool × List ℕ × TlvBuf → Option (List ℕ) × List ℕ
format_buf (false, err, b) = (none, err)
format_buf (true, err, b) = copied (copy_to_string b)

abbrev pub format_args : Option (List (List ℕ)) → Option (List ℕ) × List ℕ
format_args none = (none, options_msg)
format_args (some []) = (none, options_msg)
format_args (some (w ∷ ws)) = format_buf (parameter_to_tlv (w ∷ ws) start_buf)

-- The bytes in `formatOutput`, if it returns true, and `errMsg`.
unfoldable pub format_parameters_to_tlv : List ℕ → ℕ → Option (List ℕ) × List ℕ
unfolding parameter_to_tlv copy_to_string
format_parameters_to_tlv parameters start_pos =
    if length parameters == 0 || leb (length parameters) start_pos
    then (none, options_msg)
    else format_args (split_command_to_args (c_str (drop start_pos parameters)))
