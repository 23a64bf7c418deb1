-- ===== src/Server/Daemons/Answers.antt =====
-- server.cpp: what the queries for any, for one and for the only device answer.
use supertools_public.Common.{
  ℕ, ◌<◌, ◌≡◌, refl, sym, ap, ◌∙◌, subst, inl, inr, Bool, true, false, ◌&&◌, ◌||◌, none, some, List,
  [], ◌∷◌, arith, ◌==◌, if◌then◌else◌, Bool-cases, length, str_eq, str_eq→eq, str_eq_self,
}
use supertools_public.Common.StringMap.{entry_of, entry_of-Beyond}
use supertools_public.Server.Daemons.{
  HdcDaemonInformation, Pointer, DaemonMap, op_get_any, op_wait_for_any, only_key, op_get_only,
  status_ready, status_connected,
}
use supertools_public.Server.Daemons.Safe.{IsTable}
use supertools_public.Server.Daemons.Runs.{Tables, Reaches}
use supertools_public.Server.Daemons.Kept.{reached-IsTable}

-- The devices of the table that pass a test, in the order of their keys.
unfoldable pub those : (HdcDaemonInformation → Bool) → DaemonMap → List HdcDaemonInformation
those test [] = []
those test ((k, none) ∷ m) = those test m
those test ((k, some d) ∷ m) = let rest = those test m in if test d then d ∷ rest else rest

abbrev pub is_connected : HdcDaemonInformation → Bool
is_connected d = d.conn_status == status_connected

abbrev pub is_any : HdcDaemonInformation → Bool
is_any d = d.conn_status == status_ready || d.conn_status == status_connected

abbrev pub is_awaited : List ℕ → HdcDaemonInformation → Bool
is_awaited key d = is_connected d && (length key == 0 || str_eq key d.connect_key)

-- The first one, or what was there before.
abbrev pub first_of : Pointer → List HdcDaemonInformation → Pointer
first_of before [] = before
first_of before (d ∷ ds) = some d

-- The only one, or what was there before.
abbrev pub only_of : Pointer → List HdcDaemonInformation → Pointer
only_of before [] = before
only_of before (d ∷ []) = some d
only_of before (d ∷ e ∷ ds) = before

op_get_any-first :
    (m : DaemonMap) (before : Pointer)
    → IsTable m
    → op_get_any m before ≡ some (first_of before (those is_any m))
unfolding op_get_any those
op_get_any-first [] before t = refl
op_get_any-first ((k, none) ∷ m) before t = absurd t
op_get_any-first ((k, some d) ∷ m) before t = elim (Bool-cases (is_any d)) [
  | inl e ↦ rw (e) refl
  | inr e ↦ rw (e) (op_get_any-first m before t.3)
]

op_wait_for_any-first :
    (key : List ℕ) (m : DaemonMap) (before : Pointer)
    → IsTable m
    → op_wait_for_any key m before ≡ some (first_of before (those (is_awaited key) m))
unfolding op_wait_for_any those
op_wait_for_any-first key [] before t = refl
op_wait_for_any-first key ((k, none) ∷ m) before t = absurd t
op_wait_for_any-first key ((k, some d) ∷ m) before t = elim (Bool-cases (is_connected d)) [
  | inr c ↦ rw (c) (op_wait_for_any-first key m before t.3)
  | inl c ↦ elim (Bool-cases (length key == 0)) [
    | inl z ↦ rw (c, z) refl
    | inr z ↦ elim (Bool-cases (str_eq key d.connect_key)) [
      | inl s ↦ rw (c, z, s) refl
      | inr s ↦ rw (c, z, s) (op_wait_for_any-first key m before t.3)
    ]
  ]
]

length_0 : (xs : List ℕ) → (length xs == 0) ≡ true → xs ≡ []
length_0 [] h = refl
length_0 (x ∷ xs) h = absurd (ground arith)

-- The key that `GetDaemonMapOnlyOne` ends with.
abbrev key_of : List ℕ → List HdcDaemonInformation → List ℕ
key_of key [] = key
key_of [] (d ∷ []) = d.connect_key
key_of [] (d ∷ e ∷ ds) = []
key_of (c ∷ cs) (d ∷ ds) = []

key_of_found :
    (key : List ℕ) (d : HdcDaemonInformation) (ds : List HdcDaemonInformation)
    → 0 < length key
    → key_of key (d ∷ ds) ≡ []
key_of_found [] d ds n = absurd (omega arith)
key_of_found (c ∷ cs) d ds n = refl

key_of_first :
    (d : HdcDaemonInformation) (ds : List HdcDaemonInformation)
    → 0 < length d.connect_key
    → key_of d.connect_key ds ≡ key_of [] (d ∷ ds)
key_of_first d [] n = refl
key_of_first d (e ∷ ds) n = key_of_found d.connect_key e ds n

only_key_lem :
    (m : DaemonMap) (key : List ℕ)
    → IsTable m
    → only_key m key ≡ some (key_of key (those is_connected m))
unfolding only_key those
only_key_lem [] key t = refl
only_key_lem ((k, none) ∷ m) key t = absurd t
only_key_lem ((k, some d) ∷ m) key t = elim (Bool-cases (is_connected d)) [
  | inr c ↦ rw (c) (only_key_lem m key t.3)
  | inl c ↦ elim (Bool-cases (length key == 0)) [
    | inl z ↦
        let ds = those is_connected m in
        let nil : key ≡ [] = length_0 key z in
        rw (c, z, nil)
          (only_key_lem m k t.3
            ∙ ap some (
                subst (λ i. key_of i ds ≡ key_of [] (d ∷ ds)) t.0
                  (key_of_first d ds (subst (λ i. 0 < length i) (sym t.0) t.1))))
    | inr z ↦ rw (c, z) (ap some (sym (key_of_found key d (those is_connected m) (ground arith))))
  ]
]

those-entry_of :
    (m : DaemonMap) (d : HdcDaemonInformation) (ds : List HdcDaemonInformation)
    → IsTable m
    → those is_connected m ≡ d ∷ ds
    → (0 < length d.connect_key) × (entry_of d.connect_key m ≡ some (some d))
unfolding those
those-entry_of [] d ds t h = cc
those-entry_of ((k, none) ∷ m) d ds t h = absurd t
those-entry_of ((k, some e) ∷ m) d ds t h = elim (Bool-cases (is_connected e)) [
  | inl c ↦
      let h' : e ∷ those is_connected m ≡ d ∷ ds = ground (arith, h, c) in
      let same : e ≡ d = cc in
      subst
        (λ i.
          (0 < length i.connect_key) × (entry_of i.connect_key ((k, some e) ∷ m) ≡ some (some i)))
        same (rw (t.0, str_eq_self k) (t.1, refl))
  | inr c ↦
      let h' : those is_connected m ≡ d ∷ ds = ground (arith, h, c) in
      let r = those-entry_of m d ds t.3 h' in
      elim (Bool-cases (str_eq d.connect_key k)) [
        | inl s ↦ absurd (
            ground (
              arith,
              r.1,
              subst (λ i. entry_of i m ≡ none) (sym (str_eq→eq d.connect_key k s))
                  (entry_of-Beyond k m t.2),
            ))
        | inr s ↦ rw (s) r
      ]
]

-- `GetDaemonMapOnlyOne`.
op_get_only-only :
    (m : DaemonMap) (before : Pointer)
    → IsTable m
    → op_get_only m before ≡ some (only_of before (those is_connected m))
unfolding op_get_only
op_get_only-only m before t = only_cases (those is_connected m) refl
  where
    only_cases :
        (ds : List HdcDaemonInformation)
        → those is_connected m ≡ ds
        → op_get_only m before ≡ some (only_of before ds)
    only_cases [] e = rw (only_key_lem m [] t, e) refl
    only_cases (d ∷ []) e =
        let (n, f) = those-entry_of m d [] t e in
        let z : (length d.connect_key == 0) ≡ false = ground (arith, n) in
        rw (only_key_lem m [] t, e, z, f) refl
    only_cases (d ∷ c ∷ ds) e = rw (only_key_lem m [] t, e) refl

-- Whatever devices come or are connected to, each with a key that is not empty, shake hands, lose their session
-- or are removed, and however the functions that do this come between each other's query and change, as long as
-- no device is removed between a query that finds it and the update that follows: no query for any, for an
-- awaited or for the only device follows a null pointer. OP_GET_ANY answers the first device that is ready or
-- connected, OP_WAIT_FOR_ANY the first connected one with the key that is asked for, or the first if none is,
-- and OP_GET_ONLY the connected device if there is exactly one; otherwise each leaves what the caller had.
pub admin_daemon_map-answers :
    (t : Tables) (key : List ℕ) (before : Pointer)
    → Reaches t
    → (op_get_any t.table before ≡ some (first_of before (those is_any t.table)))
      × (op_wait_for_any key t.table before
          ≡ some (first_of before (those (is_awaited key) t.table)))
      × (op_get_only t.table before ≡ some (only_of before (those is_connected t.table)))
admin_daemon_map-answers t key before r =
    let i = reached-IsTable t r in
    (
      op_get_any-first t.table before i,
      op_wait_for_any-first key t.table before i,
      op_get_only-only t.table before i,
    )
