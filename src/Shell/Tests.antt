-- ===== src/Shell/Tests.antt =====
-- The theorems on the options of `shell` at concrete inputs.
use supertools_public.Common.{
  ℕ, ◌<◌, ◌≡◌, refl, none, some, List, [], ◌∷◌, arith, length, Map, codes,
}
use supertools_public.Base.Args.{split_command_to_args, split_char}
use supertools_public.Base.Names.{check_bundle_name}
use supertools_public.Tlv.{parse}
use supertools_public.Tlv.{append, copy_to_buf}
use supertools_public.Shell.{
  tag_shell_cmd, tag_shell_bundle, construct_shell_command, format_parameters_to_tlv,
  parameter_loop, tlv_append_parameter,
}
use supertools_public.Shell.Accepts.{Accepted, bundled}
use supertools_public.Shell.Format.{
  words_from, format_parameters_to_tlv-Accepted, format_parameters_to_tlv_inv,
}
use supertools_public.Shell.Messages.{format_parameters_to_tlv-err_msg}

abbrev shell_line : List ℕ
shell_line = codes "shell -b com.test ls -l"

abbrev ls_words : List (List ℕ)
ls_words = codes "-b" ∷ codes "com.test" ∷ codes "ls" ∷ codes "-l" ∷ []

abbrev ls_values : Map (List ℕ)
ls_values = (tag_shell_cmd, codes "ls -l") ∷ (tag_shell_bundle, codes "com.test") ∷ []

ls_line : words_from shell_line 6 ≡ some ls_words
unfolding split_command_to_args split_char
ls_line = refl

ls-Accepted : Accepted ls_words ls_values
unfolding construct_shell_command check_bundle_name
ls-Accepted =
    bundled (codes "com.test") (codes "ls") (codes "-l" ∷ []) refl (refl, omega arith, omega arith)

format_parameters_to_tlv-Accepted_example :
    (bytes : List ℕ) × (format_parameters_to_tlv shell_line 6 ≡ (some bytes, []))
    × (parse bytes ≡ record { tlv_map = ls_values; valid_tags = [] })
format_parameters_to_tlv-Accepted_example =
    format_parameters_to_tlv-Accepted shell_line 6 ls_words ls_values (omega arith) ls_line
      ls-Accepted

abbrev date_bytes : List ℕ
date_bytes = 0 ∷ 0 ∷ 0 ∷ 0 ∷ 4 ∷ 0 ∷ 0 ∷ 0 ∷ codes "date"

date_line : format_parameters_to_tlv (codes "shell date") 6 ≡ (some date_bytes, [])
unfolding format_parameters_to_tlv split_command_to_args split_char parameter_loop
    tlv_append_parameter append copy_to_buf construct_shell_command
date_line = refl

format_parameters_to_tlv_inv_example :
    (ws : List (List ℕ)) × (m : Map (List ℕ)) × (words_from (codes "shell date") 6 ≡ some ws)
    × Accepted ws m
    × (parse date_bytes ≡ record { tlv_map = m; valid_tags = [] })
format_parameters_to_tlv_inv_example =
    format_parameters_to_tlv_inv (codes "shell date") 6 date_bytes [] date_line

no_line : (format_parameters_to_tlv (codes "shell -x") 6).0 ≡ none
unfolding format_parameters_to_tlv split_command_to_args split_char parameter_loop
no_line = refl

format_parameters_to_tlv-err_msg_example :
    0 < length (format_parameters_to_tlv (codes "shell -x") 6).1
format_parameters_to_tlv-err_msg_example =
    format_parameters_to_tlv-err_msg (codes "shell -x") 6 no_line
