-- ===== src/Server/Daemons/Runs.antt =====
-- server.cpp, host_usb.cpp and host_uart.cpp: the table of devices over any interleaving of the functions that
-- change it, each of which takes the lock once to ask and once to change.
use supertools_public.Common.{ℕ, ◌<◌, ◌≡◌, Bool, false, List, [], ◌∷◌, ◌++◌, All, length, str_eq}
use supertools_public.Serial.Structs.{SessionHandShake}
use supertools_public.Server.Daemons.{
  HdcDaemonInformation, DaemonMap, TableOp, adds, updates, removes, admin_table, update_hdi_info,
  notify_instance_session_free, update_usb_daemon_info, update_uart_daemon_info,
  create_connect_begin, create_connect_end,
}

-- What calls on the table.
pub data Event : Type 0 where
  asks : TableOp → Event
  shakes : List ℕ → SessionHandShake → Event
  frees : List ℕ → Event
  usb : Bool → HdcDaemonInformation → Event
  uart : Bool → HdcDaemonInformation → Event
  connects : Bool → ℕ → List ℕ → Event
  connected : ℕ → List ℕ → Event

-- What it asks for, by what its query finds.
unfoldable pub asked : Event → DaemonMap → List TableOp
asked (asks op) m = op ∷ []
asked (shakes k handshake) m = update_hdi_info k handshake m
asked (frees k) m = notify_instance_session_free k m
asked (usb allocated d) m = update_usb_daemon_info allocated d m
asked (uart allocated d) m = update_uart_daemon_info allocated d m
asked (connects allocated conn_type k) m = create_connect_begin allocated conn_type k m
asked (connected session k) m = create_connect_end session k m

-- The devices that come in have a key. Nothing updates without a query.
abbrev pub HasKey : Event → Type 0
HasKey (asks (adds allocated d)) = 0 < length d.connect_key
HasKey (asks (updates d)) = ⊥
HasKey (asks (removes k)) = Unit
HasKey (shakes k handshake) = Unit
HasKey (frees k) = Unit
HasKey (usb allocated d) = 0 < length d.connect_key
HasKey (uart allocated d) = 0 < length d.connect_key
HasKey (connects allocated conn_type k) = 0 < length k
HasKey (connected session k) = Unit

-- A removal does not come between the query and the update of a device.
abbrev pub Apart : TableOp → TableOp → Type 0
Apart (removes k) (updates d) = str_eq d.connect_key k ≡ false
Apart (removes k) (adds allocated d) = Unit
Apart (removes k) (removes j) = Unit
Apart (adds allocated d) other = Unit
Apart (updates d) other = Unit

-- The table, and the operations that have been asked for and not been done.
pub record Tables : Type 0 where
  pub table : DaemonMap
  pub pending : List TableOp

pub data Step : Tables → Tables → Type 0 where
  begins :
      {t : Tables} (e : Event)
      → HasKey e
      → Step t (record t { pending = asked e t.table ++ t.pending })
  does :
      {t : Tables} (before after : List TableOp) (op : TableOp)
      → t.pending ≡ before ++ (op ∷ after)
      → All (Apart op) (before ++ after)
      → Step t (record { table = admin_table op t.table; pending = before ++ after })

pub data Reaches : Tables → Type 0 where
  here : Reaches (record { table = []; pending = [] })
  there : {t u : Tables} → Reaches t → Step t u → Reaches u
