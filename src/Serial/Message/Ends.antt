-- ===== src/Serial/Message/Ends.antt =====
-- serial_struct_define.h: the loop of `ReadMessage` on any bytes.
use supertools_public.Common.{
  ℕ, zero, suc, ◌/◌, ◌%◌, ◌≤◌, ◌<◌, ◌≢◌, none, List, [], ◌∷◌, arith, length, length-drop,
}
use supertools_public.Serial.Varint.{read_varint32, read_varint64}
use supertools_public.Serial.Varint.RoundTrip.{read_varint32_takes, read_varint64_takes}
use supertools_public.Serial.Message.{
  Cell, u8, u16, u32, u64, boolean, text, Field, Message, string_read, parse_payload, parse,
  read_field, read_fields, read_message, parse_from_string,
}

string_read_takes : (size : ℕ) (input : List ℕ) → length (string_read size input).1 ≤ length input
unfolding string_read
string_read_takes size input = ground (arith, length-drop size input)

parse_payload_takes : (c : Cell) (input : List ℕ) → length (parse_payload c input).1 ≤ length input
unfolding parse_payload
parse_payload_takes (u8 v) input = ground (arith, read_varint32_takes input)
parse_payload_takes (u16 v) input = ground (arith, read_varint32_takes input)
parse_payload_takes (u32 v) input = ground (arith, read_varint32_takes input)
parse_payload_takes (u64 v) input = ground (arith, read_varint64_takes input)
parse_payload_takes (boolean b) input = ground (arith, read_varint32_takes input)
parse_payload_takes (text s) input = ground (
  arith,
  read_varint64_takes input,
  string_read_takes (read_varint64 input).1 (read_varint64 input).2,
)

read_field_takes :
    (t w : ℕ) (f : Field) (input : List ℕ) → length (read_field t w f input).1 ≤ length input
unfolding read_field parse
read_field_takes t w f input = ground (arith, parse_payload_takes f.cell input)

read_fields_takes :
    (t w : ℕ) (fs : Message) (input : List ℕ) → length (read_fields t w fs input).1 ≤ length input
unfolding read_fields
read_fields_takes t w [] input = omega arith
read_fields_takes t w (f ∷ fs) input =
    omega (arith, read_field_takes t w f input, read_fields_takes t w fs (read_field t w f input).1)

read_message-ne-none :
    (fuel : ℕ) (m : Message) (input : List ℕ)
    → length input < fuel
    → read_message fuel m input ≢ none
unfolding read_message
read_message-ne-none zero m input h = absurd (omega arith)
read_message-ne-none (suc fuel) m input h =
    let key = (read_varint32 input).1 in
    let rest = (read_varint32 input).2 in
    let next = read_fields (key / 8) (key % 8) m rest in
    ground (
      arith,
      read_varint32_takes input,
      read_fields_takes (key / 8) (key % 8) m rest,
      read_message-ne-none fuel next.0 next.1,
    )

-- On any bytes, the loop of `ReadMessage` ends within one round more than there are bytes.
pub parse_from_string-ne-none :
    (shape : Message) (input : List ℕ) → parse_from_string shape input ≢ none
unfolding parse_from_string
parse_from_string-ne-none shape input =
    read_message-ne-none (suc (length input)) shape input (omega arith)
