-- ===== src/Serial/Structs/RoundTrip.antt =====
-- serial_struct.h: the registered structs and their bytes.
use supertools_public.Common.{ℕ, ◌^◌, ◌<◌, ◌≤◌, ◌≡◌, ap, List, arith, length}
use supertools_public.Serial.Message.{Message, serialize_to_string, mem_max_len}
use supertools_public.Serial.Message.RoundTrip.{
  FitsAll, Distinct, parse_from_string-serialize_to_string,
}
use supertools_public.Serial.Structs.{
  parsed, PayloadProtect, protect_message, protect_of, SessionHandShake, handshake_message,
  handshake_of, TransferPayload, payload_message, payload_of, TransferConfig, config_message,
  config_of,
}

parsed-serialize_to_string :
    (shape m : Message) → FitsAll shape m → Distinct m → parsed shape (serialize_to_string m) ≡ m
unfolding parsed
parsed-serialize_to_string shape m h d =
    rw (parse_from_string-serialize_to_string shape m h d, parsed)

-- The integers of a `PayloadProtect` are in the range of their types.
abbrev pub IsProtect : PayloadProtect → Type 0
IsProtect p =
    (p.channel_id < 2 ^ 32) × (p.command_flag < 2 ^ 32) × (p.check_sum < 2 ^ 8) × (p.v_code < 2 ^ 8)

-- The head of a packet comes back from its bytes, its integers in range, into whatever record it is parsed.
pub protect_roundtrip :
    (old p : PayloadProtect)
    → IsProtect p
    → protect_of (parsed (protect_message old) (serialize_to_string (protect_message p))) ≡ p
unfolding protect_of
protect_roundtrip old p h = ap protect_of (
    parsed-serialize_to_string (protect_message old) (protect_message p) (omega arith)
      (omega arith))

abbrev pub IsText : List ℕ → Type 0
IsText s = length s ≤ mem_max_len

abbrev pub IsHandShake : SessionHandShake → Type 0
IsHandShake h =
    (h.auth_type < 2 ^ 8)
    × (h.session_id < 2 ^ 32)
    × IsText h.banner
    × IsText h.connect_key
    × IsText h.buf
    × IsText h.version

-- A handshake comes back from its bytes whatever the record that it is parsed into held before, if its
-- integers are in range and no string is longer than `memcpy_s` copies.
pub handshake_roundtrip :
    (old h : SessionHandShake)
    → IsHandShake h
    → handshake_of (parsed (handshake_message old) (serialize_to_string (handshake_message h))) ≡ h
unfolding handshake_of
handshake_roundtrip old h r = ap handshake_of (
    parsed-serialize_to_string (handshake_message old) (handshake_message h) (omega arith)
      (omega arith))

abbrev pub IsPayload : TransferPayload → Type 0
IsPayload p =
    (p.index < 2 ^ 64)
    × (p.compress_type < 2 ^ 8)
    × (p.compress_size < 2 ^ 32)
    × (p.uncompress_size < 2 ^ 32)

-- The head of a block of a transfer comes back from its bytes, its integers in range, into whatever record it
-- is parsed.
pub payload_roundtrip :
    (old p : TransferPayload)
    → IsPayload p
    → payload_of (parsed (payload_message old) (serialize_to_string (payload_message p))) ≡ p
unfolding payload_of
payload_roundtrip old p h = ap payload_of (
    parsed-serialize_to_string (payload_message old) (payload_message p) (omega arith)
      (omega arith))

abbrev pub IsConfig : TransferConfig → Type 0
IsConfig c =
    (c.file_size < 2 ^ 64)
    × (c.atime < 2 ^ 64)
    × (c.mtime < 2 ^ 64)
    × (c.compress_type < 2 ^ 8)
    × IsText c.options
    × IsText c.path
    × IsText c.optional_name
    × IsText c.function_name
    × IsText c.client_cwd
    × IsText c.reserve1
    × IsText c.reserve2

-- A transfer's configuration, all thirteen fields of it, comes back from its bytes whatever the record
-- that it is parsed into held before, if its integers are in range and no string is longer than `memcpy_s`
-- copies.
pub config_roundtrip :
    (old c : TransferConfig)
    → IsConfig c
    → config_of (parsed (config_message old) (serialize_to_string (config_message c))) ≡ c
unfolding config_of
config_roundtrip old c h =
    ap config_of (
      parsed-serialize_to_string (config_message old) (config_message c) (omega arith)
        (omega arith))
