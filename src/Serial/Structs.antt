-- ===== src/Serial/Structs.antt =====
-- serial_struct.h: the registered structs, and their fields by tag.
pub mod RoundTrip
use supertools_public.Common.{
  ℕ, zero, suc, Bool, true, false, Option, none, some, List, [], ◌∷◌, get_elem?,
}
use supertools_public.Serial.Message.{
  Cell, u8, u16, u32, u64, boolean, text, Field, Message, serialize_to_string, parse_from_string,
}

-- The parsed message. `ParseFromString` ends on every input, so the second case does not arise.
unfoldable pub parsed : Message → List ℕ → Message
parsed shape input = elim (parse_from_string shape input) [ some m ↦ m | none ↦ shape ]

abbrev pub field : ℕ → Cell → Field
field t c = record { tag = t; cell = c }

-- The value of the field at a position of the descriptor.
abbrev pub number : Option Field → ℕ
number none = 0
number (some f) = elim f.cell [
  | u8 v ↦ v
  | u16 v ↦ v
  | u32 v ↦ v
  | u64 v ↦ v
  | boolean b ↦ 0
  | text s ↦ 0
]

abbrev pub flag : Option Field → Bool
flag none = false
flag (some f) = elim f.cell [ boolean b ↦ b | _ ↦ false ]

abbrev pub string : Option Field → List ℕ
string none = []
string (some f) = elim f.cell [ text s ↦ s | _ ↦ [] ]

-- `HdcSessionBase::PayloadProtect`.
pub record PayloadProtect : Type 0 where
  pub channel_id : ℕ
  pub command_flag : ℕ
  pub check_sum : ℕ
  pub v_code : ℕ

abbrev pub protect_message : PayloadProtect → Message
protect_message p =
    field 1 (u32 p.channel_id)
    ∷ field 2 (u32 p.command_flag)
    ∷ field 3 (u8 p.check_sum)
    ∷ field 4 (u8 p.v_code)
    ∷ []

unfoldable pub protect_of : Message → PayloadProtect
protect_of m = record {
  channel_id = number (get_elem? m 0);
  command_flag = number (get_elem? m 1);
  check_sum = number (get_elem? m 2);
  v_code = number (get_elem? m 3);
}

-- `HdcSessionBase::SessionHandShake`.
pub record SessionHandShake : Type 0 where
  pub banner : List ℕ
  pub auth_type : ℕ
  pub session_id : ℕ
  pub connect_key : List ℕ
  pub buf : List ℕ
  pub version : List ℕ

abbrev pub handshake_message : SessionHandShake → Message
handshake_message h =
    field 1 (text h.banner)
    ∷ field 2 (u8 h.auth_type)
    ∷ field 3 (u32 h.session_id)
    ∷ field 4 (text h.connect_key)
    ∷ field 5 (text h.buf)
    ∷ field 6 (text h.version)
    ∷ []

unfoldable pub handshake_of : Message → SessionHandShake
handshake_of m = record {
  banner = string (get_elem? m 0);
  auth_type = number (get_elem? m 1);
  session_id = number (get_elem? m 2);
  connect_key = string (get_elem? m 3);
  buf = string (get_elem? m 4);
  version = string (get_elem? m 5);
}

-- `HdcTransferBase::TransferPayload`.
pub record TransferPayload : Type 0 where
  pub index : ℕ
  pub compress_type : ℕ
  pub compress_size : ℕ
  pub uncompress_size : ℕ

abbrev pub payload_message : TransferPayload → Message
payload_message p =
    field 1 (u64 p.index)
    ∷ field 2 (u8 p.compress_type)
    ∷ field 3 (u32 p.compress_size)
    ∷ field 4 (u32 p.uncompress_size)
    ∷ []

unfoldable pub payload_of : Message → TransferPayload
payload_of m = record {
  index = number (get_elem? m 0);
  compress_type = number (get_elem? m 1);
  compress_size = number (get_elem? m 2);
  uncompress_size = number (get_elem? m 3);
}

-- `HdcTransferBase::FileMode`.
pub record FileMode : Type 0 where
  pub perm : ℕ
  pub u_id : ℕ
  pub g_id : ℕ
  pub context : List ℕ
  pub full_name : List ℕ

abbrev pub file_mode_message : FileMode → Message
file_mode_message m =
    field 1 (u64 m.perm)
    ∷ field 2 (u64 m.u_id)
    ∷ field 3 (u64 m.g_id)
    ∷ field 4 (text m.context)
    ∷ field 5 (text m.full_name)
    ∷ []

unfoldable pub file_mode_of : Message → FileMode
file_mode_of m = record {
  perm = number (get_elem? m 0);
  u_id = number (get_elem? m 1);
  g_id = number (get_elem? m 2);
  context = string (get_elem? m 3);
  full_name = string (get_elem? m 4);
}

-- `HdcTransferBase::TransferConfig`.
pub record TransferConfig : Type 0 where
  pub file_size : ℕ
  pub atime : ℕ
  pub mtime : ℕ
  pub options : List ℕ
  pub path : List ℕ
  pub optional_name : List ℕ
  pub update_if_new : Bool
  pub compress_type : ℕ
  pub hold_timestamp : Bool
  pub function_name : List ℕ
  pub client_cwd : List ℕ
  pub reserve1 : List ℕ
  pub reserve2 : List ℕ

abbrev pub config_message : TransferConfig → Message
config_message c =
    field 1 (u64 c.file_size)
    ∷ field 2 (u64 c.atime)
    ∷ field 3 (u64 c.mtime)
    ∷ field 4 (text c.options)
    ∷ field 5 (text c.path)
    ∷ field 6 (text c.optional_name)
    ∷ field 7 (boolean c.update_if_new)
    ∷ field 8 (u8 c.compress_type)
    ∷ field 9 (boolean c.hold_timestamp)
    ∷ field 10 (text c.function_name)
    ∷ field 11 (text c.client_cwd)
    ∷ field 12 (text c.reserve1)
    ∷ field 13 (text c.reserve2)
    ∷ []

unfoldable pub config_of : Message → TransferConfig
config_of m = record {
  file_size = number (get_elem? m 0);
  atime = number (get_elem? m 1);
  mtime = number (get_elem? m 2);
  options = string (get_elem? m 3);
  path = string (get_elem? m 4);
  optional_name = string (get_elem? m 5);
  update_if_new = flag (get_elem? m 6);
  compress_type = number (get_elem? m 7);
  hold_timestamp = flag (get_elem? m 8);
  function_name = string (get_elem? m 9);
  client_cwd = string (get_elem? m 10);
  reserve1 = string (get_elem? m 11);
  reserve2 = string (get_elem? m 12);
}

-- `HdcSessionBase::HeartbeatMsg`.
pub record HeartbeatMsg : Type 0 where
  pub heartbeat_count : ℕ
  pub reserved : List ℕ

abbrev pub heartbeat_message : HeartbeatMsg → Message
heartbeat_message h = field 1 (u64 h.heartbeat_count) ∷ field 2 (text h.reserved) ∷ []

unfoldable pub heartbeat_of : Message → HeartbeatMsg
heartbeat_of m = record {
  heartbeat_count = number (get_elem? m 0);
  reserved = string (get_elem? m 1);
}
