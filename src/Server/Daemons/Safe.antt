-- ===== src/Server/Daemons/Safe.antt =====
-- server.cpp: when an entry of the table of devices stands under its key, and what changes an entry.
use supertools_public.Common.{
  ℕ, ◌<◌, ◌≡◌, refl, sym, ◌∙◌, subst, inl, inr, Bool, true, false, Option, none, some, List, [],
  ◌∷◌, ◌==◌, Bool-cases, length, codes, str_eq, str_eq→eq,
}
use supertools_public.Common.StringMap.{
  str_lt, entry_of, set_entry, erase_entry, Beyond, lt_total, Beyond-trans, Beyond-set_entry,
  Beyond-erase_entry,
}
use supertools_public.Serial.Structs.{SessionHandShake}
use supertools_public.Base.Fields.{tlv_to_string_map}
use supertools_public.Server.Daemons.{
  HdcDaemonInformation, Pointer, DaemonMap, op_update, hdi_of, add_entry,
}

-- Each entry has information, under its own key, which is not empty; the keys are in order.
abbrev pub IsTable : DaemonMap → Type 0
IsTable [] = Unit
IsTable ((k, none) ∷ m) = ⊥
IsTable ((k, some d) ∷ m) = (d.connect_key ≡ k) × (0 < length k) × Beyond k m × IsTable m

pub set_entry-IsTable :
    (d : HdcDaemonInformation) (m : DaemonMap)
    → 0 < length d.connect_key
    → IsTable m
    → IsTable (set_entry d.connect_key (some d) m)
set_entry-IsTable d [] n t = (refl, n, tt, tt)
set_entry-IsTable d ((j, none) ∷ m) n t = absurd t
set_entry-IsTable d ((j, some q) ∷ m) n t = elim (Bool-cases (str_eq d.connect_key j)) [
  | inl e ↦ rw (e) (refl, n, subst (λ i. Beyond i m) (sym (str_eq→eq d.connect_key j e)) t.2, t.3)
  | inr e ↦ elim (Bool-cases (str_lt d.connect_key j)) [
    | inl l ↦ rw (e, l) (refl, n, (l, Beyond-trans d.connect_key j m l t.2), t)
    | inr l ↦
        rw (e, l)
          (
            t.0,
            t.1,
            Beyond-set_entry j d.connect_key (some d) m (lt_total d.connect_key j e l) t.2,
            set_entry-IsTable d m n t.3,
          )
  ]
]

pub erase_entry-IsTable : (k : List ℕ) (m : DaemonMap) → IsTable m → IsTable (erase_entry k m)
erase_entry-IsTable k [] t = tt
erase_entry-IsTable k ((j, none) ∷ m) t = absurd t
erase_entry-IsTable k ((j, some q) ∷ m) t = elim (Bool-cases (str_eq k j)) [
  | inl e ↦ rw (e) t.3
  | inr e ↦ rw (e) (t.0, t.1, Beyond-erase_entry j k m t.2, erase_entry-IsTable k m t.3)
]

-- What the table holds under a key, if anything.
unfoldable pub FoundAt : List ℕ → Option Pointer → Type 0
FoundAt k none = Unit
FoundAt k (some none) = ⊥
FoundAt k (some (some d)) = (d.connect_key ≡ k) × (0 < length k)

pub entry_of-FoundAt : (k : List ℕ) (m : DaemonMap) → IsTable m → FoundAt k (entry_of k m)
unfolding FoundAt
entry_of-FoundAt k [] t = tt
entry_of-FoundAt k ((j, none) ∷ m) t = absurd t
entry_of-FoundAt k ((j, some q) ∷ m) t = elim (Bool-cases (str_eq k j)) [
  | inl e ↦ rw (e) (let h = str_eq→eq k j e in (t.0 ∙ sym h, subst (λ i. 0 < length i) (sym h) t.1))
  | inr e ↦ rw (e) (entry_of-FoundAt k m t.3)
]

-- An update of information under a key that the table holds.
pub op_update-IsTable :
    (d : HdcDaemonInformation) (m : DaemonMap) (old : HdcDaemonInformation)
    → IsTable m
    → 0 < length d.connect_key
    → entry_of d.connect_key m ≡ some (some old)
    → IsTable (op_update d m)
unfolding op_update
op_update-IsTable d m old t n e = rw (e) (set_entry-IsTable d m n t)

pub add_entry-IsTable :
    (allocated : Bool) (d : HdcDaemonInformation) (m : DaemonMap) (p : Pointer)
    → 0 < length d.connect_key
    → IsTable m
    → IsTable (add_entry allocated d m p)
add_entry-IsTable true d m none n t = set_entry-IsTable d m n t
add_entry-IsTable false d m none n t = t
add_entry-IsTable allocated d m (some old) n t = t

pub connect_key-hdi_of :
    (handshake : SessionHandShake) (d : HdcDaemonInformation)
    → (hdi_of handshake d).connect_key ≡ d.connect_key
unfolding hdi_of
connect_key-hdi_of handshake d =
    elim (Bool-cases (str_lt handshake.version (codes "Ver: 3.0.0b"))) [
      | inl e ↦ elim (Bool-cases (length handshake.buf == 0)) [
        | inl z ↦ rw (e, z) refl
        | inr z ↦ rw (e, z) refl
      ]
      | inr e ↦ rw (e) (elim (Bool-cases (tlv_to_string_map handshake.buf []).0) [
        | inl z ↦ rw (z) refl
        | inr z ↦ rw (z) refl
      ])
    ]
