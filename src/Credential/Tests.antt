-- ===== src/Credential/Tests.antt =====
-- The theorem on credential messages at a concrete input.
use supertools_public.Common.{◌≡◌, refl, arith, codes}
use supertools_public.Credential.{CredentialMessage, pos, blank_message, init, construct}
use supertools_public.Credential.RoundTrip.{init-construct}

abbrev request : CredentialMessage
request = record {
  message_version = 1;
  message_method_type = pos 2;
  message_body_len = pos 5;
  message_body = codes "hello";
}

init-construct_example : init (construct request) blank_message ≡ request
init-construct_example =
    init-construct request 2
      (omega arith, omega arith, refl, omega arith, refl, omega arith, omega arith)
