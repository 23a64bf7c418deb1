-- ===== src/Serial/Tests.antt =====
-- The theorems on serialized messages at concrete inputs.
use supertools_public.Common.{◌≡◌, ◌≢◌, none, some, [], ◌∷◌, arith, codes}
use supertools_public.Serial.Message.{u32, text, Message, serialize_to_string, parse_from_string}
use supertools_public.Serial.Message.RoundTrip.{parse_from_string-serialize_to_string}
use supertools_public.Serial.Structs.{field}
use supertools_public.Serial.Message.Ends.{parse_from_string-ne-none}

abbrev old_message : Message
old_message = field 1 (u32 9) ∷ field 2 (text (codes "old text")) ∷ []

abbrev new_message : Message
new_message = field 1 (u32 300) ∷ field 2 (text (codes "new")) ∷ []

parse_from_string-serialize_to_string_example :
    parse_from_string old_message (serialize_to_string new_message) ≡ some new_message
parse_from_string-serialize_to_string_example =
    parse_from_string-serialize_to_string old_message new_message (omega arith) (omega arith)

parse_from_string-ne-none_example : parse_from_string old_message (10 ∷ 255 ∷ 255 ∷ []) ≢ none
parse_from_string-ne-none_example = parse_from_string-ne-none old_message (10 ∷ 255 ∷ 255 ∷ [])
