-- ===== src/Server/Daemons/Kept.antt =====
-- server.cpp: no null pointer stands in the table of devices, and what was found stays there for its update.
use supertools_public.Common.{
  ℕ, ◌<◌, ◌≡◌, refl, sym, ap, ◌∙◌, subst, inl, inr, Bool, true, false, Option, none, some, List, [],
  ◌∷◌, ◌++◌, ◌==◌, Bool-cases, All, All-append, length, str_eq, str_eq→eq, str_eq_self,
}
use supertools_public.Common.StringMap.{entry_of, set_entry, erase_entry, str_lt}
use supertools_public.Server.Daemons.{
  HdcDaemonInformation, Pointer, DaemonMap, TableOp, adds, updates, removes, admin_table, op_add,
  op_update, op_remove, op_query, or_else, add_entry, pointer_of, hdi_of, update_old, add_or_update,
  add_unknown, offline, with_session, update_hdi_info, notify_instance_session_free,
  update_usb_daemon_info, update_uart_daemon_info, create_connect_begin, create_connect_end,
  status_unknown,
}
use supertools_public.Server.Daemons.Safe.{
  IsTable, FoundAt, entry_of-FoundAt, erase_entry-IsTable, op_update-IsTable, add_entry-IsTable,
  connect_key-hdi_of,
}
use supertools_public.Server.Daemons.Runs.{
  Event, asks, shakes, frees, usb, uart, connects, connected, asked, HasKey, Apart, Tables, Step,
  begins, does, Reaches, here, there,
}

-- The table holds information under a key.
abbrev Present : List ℕ → DaemonMap → Type 0
Present k m = (old : HdcDaemonInformation) × (entry_of k m ≡ some (some old))

abbrev Ready : DaemonMap → TableOp → Type 0
Ready m (adds allocated d) = 0 < length d.connect_key
Ready m (updates d) = (0 < length d.connect_key) × Present d.connect_key m
Ready m (removes k) = Unit

entry_of-set_entry_self :
    (k : List ℕ) (p : Pointer) (m : DaemonMap) → entry_of k (set_entry k p m) ≡ some p
entry_of-set_entry_self k p [] = rw (str_eq_self k) refl
entry_of-set_entry_self k p ((i, q) ∷ m) = elim (Bool-cases (str_eq k i)) [
  | inl e ↦ rw (e, str_eq_self k) refl
  | inr e ↦ elim (Bool-cases (str_lt k i)) [
    | inl l ↦ rw (e, l, str_eq_self k) refl
    | inr l ↦ rw (e, l, e) (entry_of-set_entry_self k p m)
  ]
]

entry_of-set_entry_ne :
    (j k : List ℕ) (p : Pointer) (m : DaemonMap)
    → str_eq j k ≡ false
    → entry_of j (set_entry k p m) ≡ entry_of j m
entry_of-set_entry_ne j k p [] n = rw n refl
entry_of-set_entry_ne j k p ((i, q) ∷ m) n = elim (Bool-cases (str_eq k i)) [
  | inl e ↦
      let other : str_eq j i ≡ false = subst (λ x. str_eq j x ≡ false) (str_eq→eq k i e) n in
      rw (e, n, other) refl
  | inr e ↦ elim (Bool-cases (str_lt k i)) [
    | inl l ↦ rw (e, l, n) refl
    | inr l ↦ rw (e, l, entry_of-set_entry_ne j k p m n) refl
  ]
]

entry_of-erase_entry_ne :
    (j k : List ℕ) (m : DaemonMap)
    → str_eq j k ≡ false
    → entry_of j (erase_entry k m) ≡ entry_of j m
entry_of-erase_entry_ne j k [] n = refl
entry_of-erase_entry_ne j k ((i, q) ∷ m) n = elim (Bool-cases (str_eq k i)) [
  | inl e ↦
      let other : str_eq j i ≡ false = subst (λ x. str_eq j x ≡ false) (str_eq→eq k i e) n in
      rw (e, other) refl
  | inr e ↦ rw (e, entry_of-erase_entry_ne j k m n) refl
]

set_entry-Present :
    (j : List ℕ) (k : List ℕ) (d : HdcDaemonInformation) (m : DaemonMap)
    → Present j m
    → Present j (set_entry k (some d) m)
set_entry-Present j k d m (old, e) = elim (Bool-cases (str_eq j k)) [
  | inl q ↦ (
    d,
    subst (λ x. entry_of j (set_entry x (some d) m) ≡ some (some d)) (str_eq→eq j k q)
        (entry_of-set_entry_self j (some d) m),
  )
  | inr q ↦ (old, entry_of-set_entry_ne j k (some d) m q ∙ e)
]

add_entry-Present :
    (j : List ℕ) (allocated : Bool) (d : HdcDaemonInformation) (m : DaemonMap) (p : Pointer)
    → Present j m
    → Present j (add_entry allocated d m p)
add_entry-Present j true d m none e = set_entry-Present j d.connect_key d m e
add_entry-Present j false d m none e = e
add_entry-Present j allocated d m (some old) e = e

-- What is found stays found, but for what is removed.
admin_table-Present :
    (op : TableOp) (d : HdcDaemonInformation) (m : DaemonMap)
    → Ready m op
    → Apart op (updates d)
    → Present d.connect_key m
    → Present d.connect_key (admin_table op m)
unfolding admin_table op_add op_update op_remove
admin_table-Present (adds allocated e) d m r a p =
    add_entry-Present d.connect_key allocated e m (pointer_of (entry_of e.connect_key m)) p
admin_table-Present (updates e) d m (n, (old, f)) a p =
    rw f (set_entry-Present d.connect_key e.connect_key e m p)
admin_table-Present (removes k) d m r a (old, f) =
    (old, entry_of-erase_entry_ne d.connect_key k m a ∙ f)

admin_table-Ready :
    (op q : TableOp) (m : DaemonMap)
    → Ready m op
    → Apart op q
    → Ready m q
    → Ready (admin_table op m) q
admin_table-Ready op (adds allocated d) m r a h = h
admin_table-Ready op (updates d) m r a h = (h.0, admin_table-Present op d m r a h.1)
admin_table-Ready op (removes k) m r a h = tt

admin_table-All :
    (op : TableOp) (qs : List TableOp) (m : DaemonMap)
    → Ready m op
    → All (Apart op) qs
    → All (Ready m) qs
    → All (Ready (admin_table op m)) qs
admin_table-All op [] m r a h = tt
admin_table-All op (q ∷ qs) m r a h =
    (admin_table-Ready op q m r a.0 h.0, admin_table-All op qs m r a.1 h.1)

admin_table-IsTable :
    (op : TableOp) (m : DaemonMap) → Ready m op → IsTable m → IsTable (admin_table op m)
unfolding admin_table op_add op_remove
admin_table-IsTable (adds allocated d) m r t =
    add_entry-IsTable allocated d m (pointer_of (entry_of d.connect_key m)) r t
admin_table-IsTable (updates d) m (n, (old, e)) t = op_update-IsTable d m old t n e
admin_table-IsTable (removes k) m r t = erase_entry-IsTable k m t

-- An update of what was found is ready.
update_old-Ready :
    (change : HdcDaemonInformation → HdcDaemonInformation) (key : List ℕ) (m : DaemonMap)
    (o : Option Pointer)
    → ((d : HdcDaemonInformation) → (change d).connect_key ≡ d.connect_key)
    → entry_of key m ≡ o
    → IsTable m
    → All (Ready m) (update_old change (or_else none o))
unfolding FoundAt
update_old-Ready change key m none c e t = tt
update_old-Ready change key m (some none) c e t = tt
update_old-Ready change key m (some (some d)) c e t =
    let f : FoundAt key (some (some d)) = subst (FoundAt key) e (entry_of-FoundAt key m t) in
    let same = c d ∙ f.0 in
    ((subst (λ i. 0 < length i) (sym same) f.1, (d, ap (λ i. entry_of i m) same ∙ e)), tt)

add_or_update-Ready :
    (allocated : Bool) (d : HdcDaemonInformation) (m : DaemonMap) (o : Option Pointer)
    → entry_of d.connect_key m ≡ o
    → 0 < length d.connect_key
    → All (Ready m) (add_or_update allocated d (or_else none o))
add_or_update-Ready allocated d m none e n = (n, tt)
add_or_update-Ready allocated d m (some none) e n = (n, tt)
add_or_update-Ready allocated d m (some (some old)) e n = ((n, (old, e)), tt)

add_unknown-Ready :
    (allocated : Bool) (conn_type : ℕ) (k : List ℕ) (m : DaemonMap) (p : Pointer)
    → 0 < length k
    → All (Ready m) (add_unknown allocated conn_type k p)
add_unknown-Ready allocated conn_type k m none n = (n, tt)
add_unknown-Ready allocated conn_type k m (some old) n = tt

asked-Ready : (e : Event) (m : DaemonMap) → HasKey e → IsTable m → All (Ready m) (asked e m)
unfolding asked op_query update_hdi_info notify_instance_session_free update_usb_daemon_info
    update_uart_daemon_info create_connect_begin create_connect_end
asked-Ready (asks (adds allocated d)) m n t = (n, tt)
asked-Ready (asks (updates d)) m n t = absurd n
asked-Ready (asks (removes k)) m n t = (tt, tt)
asked-Ready (shakes k handshake) m n t =
    update_old-Ready (hdi_of handshake) k m (entry_of k m) (connect_key-hdi_of handshake) refl t
asked-Ready (frees k) m n t = update_old-Ready offline k m (entry_of k m) (λ d. refl) refl t
asked-Ready (usb allocated d) m n t =
    add_or_update-Ready allocated d m (entry_of d.connect_key m) refl n
asked-Ready (uart allocated d) m n t = elim (Bool-cases (d.conn_status == status_unknown)) [
  | inl e ↦ rw (e) (tt, tt)
  | inr e ↦ rw (e) (add_or_update-Ready allocated d m (entry_of d.connect_key m) refl n)
]
asked-Ready (connects allocated conn_type k) m n t =
    add_unknown-Ready allocated conn_type k m (or_else none (entry_of k m)) n
asked-Ready (connected session k) m n t =
    update_old-Ready (with_session session) k m (entry_of k m) (λ d. refl) refl t

All-middle :
    (m : DaemonMap) (before after : List TableOp) (op : TableOp)
    → All (Ready m) (before ++ (op ∷ after))
    → Ready m op × All (Ready m) (before ++ after)
All-middle m [] after op h = h
All-middle m (q ∷ before) after op h =
    let (r, rest) = All-middle m before after op h.1 in (r, (h.0, rest))

Step-IsTable :
    {t u : Tables}
    → Step t u
    → IsTable t.table
    → All (Ready t.table) t.pending
    → IsTable u.table × All (Ready u.table) u.pending
Step-IsTable (begins {t} e n) i r =
    (i, All-append (Ready t.table) (asked e t.table) t.pending (asked-Ready e t.table n i) r)
Step-IsTable (does {t} before after op p a) i r =
    let (now, rest) = All-middle t.table before after op (subst (All (Ready t.table)) p r) in
    (admin_table-IsTable op t.table now i, admin_table-All op (before ++ after) t.table now a rest)

reached-Ready : (t : Tables) → Reaches t → IsTable t.table × All (Ready t.table) t.pending
reached-Ready t here = (tt, tt)
reached-Ready u (there {t} r s) = let (i, p) = reached-Ready t r in Step-IsTable s i p

pub reached-IsTable : (t : Tables) → Reaches t → IsTable t.table
reached-IsTable t r = (reached-Ready t r).0
