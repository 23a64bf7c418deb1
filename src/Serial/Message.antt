-- ===== src/Serial/Message.antt =====
-- serial_struct_define.h: `Serializer`, `WriteMessage`, `ReadMessage`, `SerializeToString` and
-- `ParseFromString`, over the field types that are registered.
pub mod RoundTrip
pub mod Ends
pub mod Padded
use supertools_public.Common.{
  ℕ, zero, suc, ◌+◌, ◌-◌, ◌*◌, ◌/◌, ◌%◌, ◌^◌, Bool, true, false, not, Option, none, some, List, [],
  ◌∷◌, ◌++◌, ltb, ◌==◌, if◌then◌else◌, length, take, drop, replicate,
}
use supertools_public.Serial.Varint.{write_varint32, write_varint64, read_varint32, read_varint64}

pub data Cell : Type 0 where
  u8 u16 u32 u64 : ℕ → Cell
  boolean : Bool → Cell
  text : List ℕ → Cell

pub record Field : Type 0 where
  pub tag : ℕ
  pub cell : Cell

abbrev pub Message : Type 0
Message = List Field

-- `WireType::VARINT` and `WireType::LENGTH_DELIMETED`.
abbrev pub varint : ℕ
varint = 0

abbrev pub length_delimited : ℕ
length_delimited = 2

-- `tag << 3 | wireType` as a `uint32_t`; the two have no bit in common.
abbrev pub make_tag_wire_type : ℕ → ℕ → ℕ
make_tag_wire_type tag wire = tag * 8 % 2 ^ 32 + wire

abbrev pub wire_type : Cell → ℕ
wire_type (text s) = length_delimited
wire_type _ = varint

-- What `Serializer<T>::Serialize` writes behind the key.
unfoldable pub write_payload : Cell → List ℕ
write_payload (u8 v) = write_varint32 v
write_payload (u16 v) = write_varint32 v
write_payload (u32 v) = write_varint32 v
write_payload (u64 v) = write_varint64 v
write_payload (boolean b) = write_varint32 (if b then 1 else 0)
write_payload (text s) = write_varint64 (length s) ++ s

-- `Serializer<T>::Serialize`.
unfoldable pub serialize : Field → List ℕ
serialize f = write_varint32 (make_tag_wire_type f.tag (wire_type f.cell)) ++ write_payload f.cell

-- `WriteMessage`: the fields in order. `SerializeToString` starts from the empty string.
unfoldable pub write_message : Message → List ℕ
write_message [] = []
write_message (f ∷ fs) = serialize f ++ write_message fs

abbrev pub serialize_to_string : Message → List ℕ
serialize_to_string = write_message

-- `SECUREC_MEM_MAX_LEN`: `memcpy_s` refuses a larger buffer.
abbrev pub mem_max_len : ℕ
mem_max_len = 2 ^ 31 - 1

-- `StringReader::Read`: the bytes copied, and the input left. After a refusal of `memcpy_s` the position
-- stays.
unfoldable pub string_read : ℕ → List ℕ → List ℕ × List ℕ
string_read size input =
    if ltb mem_max_len size then ([], input) else (take size input, drop size input)

-- `std::string::resize`. Memory is taken to suffice.
abbrev pub resize : ℕ → List ℕ → List ℕ
resize size s = take size s ++ replicate (size - length s) 0

-- `Read(value.data(), size)` into the string resized before.
abbrev pub overwrite : List ℕ → List ℕ → List ℕ
overwrite bytes s = bytes ++ drop (length bytes) s

abbrev pub parse_small : (ℕ → Cell) → Cell → Bool × ℕ × List ℕ → Cell × List ℕ
parse_small make old (good, v, rest) = (if good then make v else old, rest)

abbrev pub parse_text : List ℕ → Bool × ℕ × List ℕ → Cell × List ℕ
parse_text s (false, size, rest) = (text s, rest)
parse_text s (true, size, rest) =
    let (bytes, rest') = string_read size rest in (text (overwrite bytes (resize size s)), rest')

abbrev pub parse_direct : (ℕ → Cell) → Bool × ℕ × List ℕ → Cell × List ℕ
parse_direct make (good, v, rest) = (make v, rest)

-- `Serializer<T>::Parse`, whose success nobody reads: what becomes of the field, and the input left.
-- The small integers and `bool` go through a `uint32_t` that is assigned on success only; `uint32_t` and
-- `uint64_t` are read in place.
unfoldable pub parse_payload : Cell → List ℕ → Cell × List ℕ
parse_payload (u8 v) input = parse_small (λ x. u8 (x % 256)) (u8 v) (read_varint32 input)
parse_payload (u16 v) input = parse_small (λ x. u16 (x % 65536)) (u16 v) (read_varint32 input)
parse_payload (u32 v) input = parse_direct u32 (read_varint32 input)
parse_payload (u64 v) input = parse_direct u64 (read_varint64 input)
parse_payload (boolean b) input =
    parse_small (λ x. boolean (not (x == 0))) (boolean b) (read_varint32 input)
parse_payload (text s) input = parse_text s (read_varint64 input)

-- A wire type that does not suit the field leaves field and input alone.
unfoldable pub parse : Cell → ℕ → List ℕ → Cell × List ℕ
unfolding parse_payload string_read
parse c wire input = if wire == wire_type c then parse_payload c input else (c, input)

-- `ReadField`.
unfoldable pub read_field : ℕ → ℕ → Field → List ℕ → Field × List ℕ
read_field tag wire f input =
    if f.tag == tag
    then (let (c, rest) = parse f.cell wire input in (record f { cell = c }, rest))
    else (f, input)

-- `message.Visit` in `ReadMessage`: every field is offered the key, in order.
unfoldable pub read_fields : ℕ → ℕ → Message → List ℕ → Message × List ℕ
read_fields tag wire [] input = ([], input)
read_fields tag wire (f ∷ fs) input =
    let (f', rest) = read_field tag wire f input in
    let (fs', rest') = read_fields tag wire fs rest in (f' ∷ fs', rest')

-- `ReadMessage`, on fuel; `none` means that the fuel ran out. The loop ends when no key can be read.
unfoldable pub read_message : ℕ → Message → List ℕ → Option Message
read_message zero m input = none
read_message (suc fuel) m input =
    let (good, key, rest) = read_varint32 input in
    let next : Option Message =
      let (m', rest') = read_fields (key / 8) (key % 8) m rest in read_message fuel m' rest' in
    if good then next else some m

-- `ParseFromString`, which always returns true: the message as it is left. Every round takes a byte.
unfoldable pub parse_from_string : Message → List ℕ → Option Message
unfolding read_message
parse_from_string m input = read_message (suc (length input)) m input
