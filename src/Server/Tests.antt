-- ===== src/Server/Tests.antt =====
-- The theorems on the server's tables at concrete inputs.
use supertools_public.Common.{
  ℕ, suc, ◌≡◌, refl, true, none, some, List, [], ◌∷◌, arith, length, codes,
}
use supertools_public.Server.Daemons.{
  HdcDaemonInformation, adds, updates, removes, admin_table, offline, op_get_any, op_wait_for_any,
  op_get_only, only_key, notify_instance_session_free, update_usb_daemon_info, status_connected,
}
use supertools_public.Server.Daemons.Runs.{
  Tables, Reaches, here, there, begins, does, asks, usb, frees, asked,
}
use supertools_public.Server.Daemons.Answers.{
  those, first_of, only_of, is_any, is_awaited, is_connected, admin_daemon_map-answers,
}
use supertools_public.Server.Forwards.{ForwardMap, forward_query, clean_forward_map}
use supertools_public.Server.Forwards.Clean.{
  others, forwards_of, clean_forward_map-others, confirms,
}
use supertools_public.Server.Forwards.Clean

abbrev device : ℕ → List ℕ → HdcDaemonInformation
device status key = record {
  conn_type = 0;
  conn_status = status;
  connect_key = key;
  usb_mount_point = [];
  dev_name = [];
  h_session = none;
  version = [];
  emgmsg = [];
  daemon_auth_status = [];
  daemon_feature = [];
}

abbrev one_device : Tables
one_device = record {
  table = admin_table (adds true (device status_connected (codes "b"))) [];
  pending = [];
}

-- A second device comes over USB while the first one loses its session; each asks before the other is done.
abbrev two_devices : Tables
two_devices = record {
  table =
      admin_table (adds true (device status_connected (codes "a")))
        (admin_table (updates (offline (device status_connected (codes "b")))) one_device.table);
  pending = [];
}

two_devices_reached : Reaches two_devices
unfolding asked admin_table notify_instance_session_free update_usb_daemon_info
two_devices_reached =
    there
      (there
        (there
          (there
            (there
              (there here
                (begins (asks (adds true (device status_connected (codes "b")))) (omega arith)))
              (does [] [] (adds true (device status_connected (codes "b"))) refl tt))
            (begins (usb true (device status_connected (codes "a"))) (omega arith)))
          (begins (frees (codes "b")) tt))
        (does [] (adds true (device status_connected (codes "a")) ∷ [])
          (updates (offline (device status_connected (codes "b")))) refl (tt, tt)))
      (does [] [] (adds true (device status_connected (codes "a"))) refl tt)

only_a : op_get_only two_devices.table none ≡ some (some (device status_connected (codes "a")))
unfolding op_get_only only_key admin_table
only_a = refl

-- A removal between the query and the update leaves a null pointer, which the next query would follow.
removed_between :
    op_get_any
      (admin_table
        (updates (offline (device status_connected (codes "b"))))
        (admin_table (removes (codes "b")) one_device.table))
      none
    ≡ none
unfolding admin_table op_get_any
removed_between = refl

admin_daemon_map-answers_example :
    (op_get_any two_devices.table none ≡ some (first_of none (those is_any two_devices.table)))
    × (op_wait_for_any (codes "a") two_devices.table none
        ≡ some (first_of none (those (is_awaited (codes "a")) two_devices.table)))
    × (op_get_only two_devices.table none
        ≡ some (only_of none (those is_connected two_devices.table)))
admin_daemon_map-answers_example =
    admin_daemon_map-answers two_devices (codes "a") none two_devices_reached

-- Two ports of two sessions; then a session ends.
abbrev forwards : List Clean.Event
forwards =
    confirms true 7 1 (codes "a") (codes "1|tcp:1 tcp:2")
    ∷ confirms true 8 2 (codes "b") (codes "1|tcp:3 tcp:4")
    ∷ []

clean_forward_map-others_example :
    (m : ForwardMap) × (c : ForwardMap) × (forwards_of forwards ≡ some m)
    × (clean_forward_map (suc (length m)) 7 m ≡ some c)
    × ((task : List ℕ) → forward_query task c ≡ others 7 (forward_query task m))
clean_forward_map-others_example = clean_forward_map-others forwards 7
