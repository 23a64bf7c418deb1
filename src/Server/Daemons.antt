-- ===== src/Server/Daemons.antt =====
-- server.cpp in main/src/main/cpp/hdctools: `AdminDaemonMap`, the table of devices, and the functions that
-- change it; host_usb.cpp and host_uart.cpp: what the drivers do to it.
--
-- An entry owns its information, so that the entry holds it here; an entry of none is a null pointer. A caller
-- hands in and gets back a pointer to such information, of which the model keeps the content. Where the code
-- would follow a null pointer, the result is none. Strings are ordered by their bytes. A function that asks
-- for an entry and then changes it takes the lock of the table twice: here it gives the operation that it then
-- asks of `AdminDaemonMap`, and others may come between.
pub mod Safe
pub mod Runs
pub mod Kept
pub mod Answers
use supertools_public.Common.{
  ℕ, zero, suc, ◌+◌, ◌-◌, ◌*◌, ◌/◌, ◌%◌, ◌^◌, ◌≤◌, ◌<◌, min, ◌≡◌, refl, sym, ap, ap₂, ◌∙◌, subst,
  ◌≢◌, ◌↔◌, ◌⊎◌, inl, inr, Bool, true, false, not, ◌&&◌, ◌||◌, Option, none, some, List, [], ◌∷◌,
  ◌++◌, map, append-nil, append_assoc, arith, ltb, leb, ◌==◌, if◌then◌else◌, ==_iff, ==_self, ==_ne,
  Bool-cases, Option-cases, All, All-append, length, get_elem?, get_or, take, drop, replicate,
  length-append, take-append-drop, length-take, length-drop, length-replicate, take_prefix,
  drop_prefix, take_all, drop_all, take-append, drop-append, get_or-append, Map, find, has, put,
  erase, Above, Sorted, find-put_self, find-put_ne, find-erase_self, find-erase_ne, has-find,
  find-has, Above-put, Sorted-put, Above-erase, Sorted-erase, find-below, find-put, find-erase,
  codes, str_eq, str_eq→eq, str_eq_self,
}
use supertools_public.Common.StringMap.{StringMap, str_lt, entry_of, set_entry, erase_entry}
use supertools_public.Base.Fields.{TlvMap, set_tag, tlv_to_string_map}
use supertools_public.Serial.Structs.{SessionHandShake}

abbrev pub status_unknown : ℕ
status_unknown = 0

abbrev pub status_ready : ℕ
status_ready = 1

abbrev pub status_connected : ℕ
status_connected = 2

abbrev pub status_offline : ℕ
status_offline = 3

pub record HdcDaemonInformation : Type 0 where
  pub conn_type : ℕ
  pub conn_status : ℕ
  pub connect_key : List ℕ
  pub usb_mount_point : List ℕ
  pub dev_name : List ℕ
  pub h_session : Option ℕ
  pub version : List ℕ
  pub emgmsg : List ℕ
  pub daemon_auth_status : List ℕ
  pub daemon_feature : TlvMap

-- `HDaemonInfo`.
abbrev pub Pointer : Type 0
Pointer = Option HdcDaemonInformation

-- The entries in the order of their keys.
abbrev pub DaemonMap : Type 0
DaemonMap = StringMap Pointer

-- `mapDaemon[k]` as a value: it makes a null entry for a missing key.
abbrev pub pointer_of : Option Pointer → Pointer
pointer_of none = none
pointer_of (some p) = p

abbrev pub add_entry : Bool → HdcDaemonInformation → DaemonMap → Pointer → DaemonMap
add_entry allocated d m none = if allocated then set_entry d.connect_key (some d) m else m
add_entry allocated d m (some old) = m

-- `OP_ADD`.
unfoldable pub op_add : Bool → HdcDaemonInformation → DaemonMap → DaemonMap
op_add allocated d m = add_entry allocated d m (pointer_of (entry_of d.connect_key m))

abbrev pub or_else : Pointer → Option Pointer → Pointer
or_else inout none = inout
or_else inout (some p) = p

-- `OP_QUERY`.
unfoldable pub op_query : List ℕ → DaemonMap → Pointer → Pointer
op_query k m inout = or_else inout (entry_of k m)

-- `OP_REMOVE`.
unfoldable pub op_remove : List ℕ → DaemonMap → DaemonMap
op_remove k m = erase_entry k m

-- `OP_GET_ANY`.
unfoldable pub op_get_any : DaemonMap → Pointer → Option Pointer
op_get_any [] inout = some inout
op_get_any ((k, none) ∷ m) inout = none
op_get_any ((k, some d) ∷ m) inout =
    let rest = op_get_any m inout in
    if d.conn_status == status_ready || d.conn_status == status_connected
    then some (some d)
    else rest

-- `OP_WAIT_FOR_ANY`: `AdminDaemonMapForWait`.
unfoldable pub op_wait_for_any : List ℕ → DaemonMap → Pointer → Option Pointer
op_wait_for_any key [] inout = some inout
op_wait_for_any key ((k, none) ∷ m) inout = none
op_wait_for_any key ((k, some d) ∷ m) inout =
    let rest = op_wait_for_any key m inout in
    if not (d.conn_status == status_connected)
    then rest
    else if not (length key == 0) && not (str_eq key d.connect_key)
    then rest
    else some (some d)

-- The loop of `GetDaemonMapOnlyOne`, from the key found so far.
unfoldable pub only_key : DaemonMap → List ℕ → Option (List ℕ)
only_key [] key = some key
only_key ((k, none) ∷ m) key = none
only_key ((k, some d) ∷ m) key =
    let first = only_key m k in
    let rest = only_key m key in
    if not (d.conn_status == status_connected)
    then rest
    else if length key == 0
    then first
    else some []

abbrev pub only_entry : DaemonMap → Pointer → Option (List ℕ) → Option Pointer
only_entry m inout none = none
only_entry m inout (some key) =
    if length key == 0 then some inout else some (pointer_of (entry_of key m))

-- `OP_GET_ONLY`: `GetDaemonMapOnlyOne`.
unfoldable pub op_get_only : DaemonMap → Pointer → Option Pointer
op_get_only m inout = only_entry m inout (only_key m [])

-- What `OP_UPDATE` leaves at the key: a null entry where there was none.
abbrev pub updated : HdcDaemonInformation → Option Pointer → Pointer
updated d none = none
updated d (some none) = none
updated d (some (some old)) = some d

-- `OP_UPDATE`.
unfoldable pub op_update : HdcDaemonInformation → DaemonMap → DaemonMap
op_update d m = set_entry d.connect_key (updated d (entry_of d.connect_key m)) m

-- The operations of `AdminDaemonMap` that change the table. `OP_ADD` comes with whether its `new` succeeds.
pub data TableOp : Type 0 where
  adds : Bool → HdcDaemonInformation → TableOp
  updates : HdcDaemonInformation → TableOp
  removes : List ℕ → TableOp

unfoldable pub admin_table : TableOp → DaemonMap → DaemonMap
unfolding op_add op_update op_remove
admin_table (adds allocated d) m = op_add allocated d m
admin_table (updates d) m = op_update d m
admin_table (removes k) m = op_remove k m

abbrev pub tag_value : List ℕ → TlvMap → Option (List ℕ)
tag_value t [] = none
tag_value t ((u, v) ∷ m) = let rest = tag_value t m in if str_eq t u then some v else rest

abbrev pub value_or : List ℕ → Option (List ℕ) → List ℕ
value_or old none = old
value_or old (some v) = v

abbrev pub feature_set : TlvMap → Option (List ℕ) → TlvMap
feature_set m none = m
feature_set m (some v) = set_tag (codes "1200") v m

abbrev pub with_fields : HdcDaemonInformation → Bool × TlvMap → HdcDaemonInformation
with_fields d (ok, m) =
    if ok
    then record d {
      dev_name = value_or d.dev_name (tag_value (codes "devname") m);
      emgmsg = value_or d.emgmsg (tag_value (codes "emgmsg") m);
      daemon_auth_status = value_or d.daemon_auth_status (tag_value (codes "daemonauthstatus") m);
      daemon_feature = feature_set d.daemon_feature (tag_value (codes "1200") m);
    }
    else d

-- `diNew` of `UpdateHdiInfo`; what `ParsePeerSupportFeatures` does to the session is left out.
unfoldable pub hdi_of : SessionHandShake → HdcDaemonInformation → HdcDaemonInformation
hdi_of handshake old =
    let d : HdcDaemonInformation = record old { conn_status = status_connected } in
    let e =
      if str_lt handshake.version (codes "Ver: 3.0.0b")
      then (if length handshake.buf == 0 then d else record d { dev_name = handshake.buf })
      else with_fields d (tlv_to_string_map handshake.buf []) in
    record e { version = handshake.version }

-- An update of what a query has found, if it has found something.
abbrev pub update_old : (HdcDaemonInformation → HdcDaemonInformation) → Pointer → List TableOp
update_old change none = []
update_old change (some old) = updates (change old) ∷ []

-- `UpdateHdiInfo`: its query, and what it then asks for.
unfoldable pub update_hdi_info : List ℕ → SessionHandShake → DaemonMap → List TableOp
unfolding op_query hdi_of
update_hdi_info key handshake m = update_old (hdi_of handshake) (op_query key m none)

abbrev pub offline : HdcDaemonInformation → HdcDaemonInformation
offline old = record old { conn_status = status_offline; h_session = none }

-- `NotifyInstanceSessionFree`, its first step.
unfoldable pub notify_instance_session_free : List ℕ → DaemonMap → List TableOp
unfolding op_query
notify_instance_session_free key m = update_old offline (op_query key m none)

abbrev pub add_or_update : Bool → HdcDaemonInformation → Pointer → List TableOp
add_or_update allocated d none = adds allocated d ∷ []
add_or_update allocated d (some old) = updates d ∷ []

-- `UpdateUSBDaemonInfo`, of the information it puts together.
unfoldable pub update_usb_daemon_info : Bool → HdcDaemonInformation → DaemonMap → List TableOp
unfolding op_query
update_usb_daemon_info allocated d m = add_or_update allocated d (op_query d.connect_key m none)

-- `UpdateUARTDaemonInfo`, of the information it puts together; its list of ports is left out.
unfoldable pub update_uart_daemon_info : Bool → HdcDaemonInformation → DaemonMap → List TableOp
unfolding op_query
update_uart_daemon_info allocated d m =
    if d.conn_status == status_unknown
    then removes d.connect_key ∷ []
    else add_or_update allocated d (op_query d.connect_key m none)

-- `di` of `CreateConnect`.
abbrev pub unknown_of : ℕ → List ℕ → HdcDaemonInformation
unknown_of conn_type key = record {
  conn_type = conn_type;
  conn_status = status_unknown;
  connect_key = key;
  usb_mount_point = [];
  dev_name = [];
  h_session = none;
  version = [];
  emgmsg = [];
  daemon_auth_status = [];
  daemon_feature = [];
}

abbrev pub add_unknown : Bool → ℕ → List ℕ → Pointer → List TableOp
add_unknown allocated conn_type key none = adds allocated (unknown_of conn_type key) ∷ []
add_unknown allocated conn_type key (some old) = []

-- `CreateConnect` before it connects; its second query changes nothing.
unfoldable pub create_connect_begin : Bool → ℕ → List ℕ → DaemonMap → List TableOp
unfolding op_query
create_connect_begin allocated conn_type key m =
    add_unknown allocated conn_type key (op_query key m none)

abbrev pub with_session : ℕ → HdcDaemonInformation → HdcDaemonInformation
with_session session old = record old { h_session = some session }

-- `CreateConnect` once it has a session.
unfoldable pub create_connect_end : ℕ → List ℕ → DaemonMap → List TableOp
unfolding op_query
create_connect_end session key m = update_old (with_session session) (op_query key m none)
