-- ===== src/Forward/Node/Shape.antt =====
-- forward.cpp: which texts `CheckNodeInfo` takes.
use supertools_public.Common.{
  ℕ, suc, ◌+◌, ◌-◌, ◌≤◌, ◌<◌, ◌≡◌, refl, sym, ap, ◌∙◌, subst, ◌≢◌, ◌↔◌, inl, inr, true, false, ◌||◌,
  Option, none, some, List, [], ◌∷◌, ◌++◌, arith, ltb, ◌==◌, ==_iff, Bool-cases, All, length, take,
  drop, length-append, length-take, length-drop, take_prefix, codes, str_eq, str_eq→eq, str_eq_self,
}
use supertools_public.Base.Fields.{atoi}
use supertools_public.Forward.Node.{
  shifted, port_size, find_char, Args, port_in_range, checked_args, split_at, check_node_info,
}

-- A kind and a node with a colon between them; the node of "tcp" is a port.
pub record IsNode (str kind node : List ℕ) : Type 0 where
  pub joined : str ≡ kind ++ b':' ∷ node
  pub plain : All (λ c. c ≢ b':') kind
  pub some_kind : 0 < length kind
  pub some_node : 0 < length node
  pub is_port :
      kind ≡ codes "tcp"
      → (length node ≤ 5) × (port : ℕ) × (atoi node ≡ some port) × (0 < port) × (port ≤ 65535)

-- What `find` answers.
FoundAt : List ℕ → Option ℕ → Type 0
FoundAt str none = Unit
FoundAt str (some i) =
    (i < length str)
    × (str ≡ take i str ++ b':' ∷ drop (suc i) str)
    × All (λ c. c ≢ b':') (take i str)

FoundAt-shifted :
    (c : ℕ) (cs : List ℕ) (o : Option ℕ) → c ≢ b':' → FoundAt cs o → FoundAt (c ∷ cs) (shifted o)
unfolding FoundAt
FoundAt-shifted c cs none n f = tt
FoundAt-shifted c cs (some i) n (l, e, p) = (omega (arith, l), ap (λ xs. c ∷ xs) e, (n, p))

find_char-FoundAt : (str : List ℕ) → FoundAt str (find_char b':' str)
unfolding FoundAt
find_char-FoundAt [] = tt
find_char-FoundAt (c ∷ cs) = elim (Bool-cases (c == b':')) [
  | inl e ↦ rw (e) (omega arith, ap (λ (x : ℕ). x ∷ cs) ((==_iff c b':').0 e), tt)
  | inr e ↦
      rw (e) (FoundAt-shifted c cs (find_char b':' cs) (λ h. ground arith) (find_char-FoundAt cs))
]

find_char_lem :
    (kind node : List ℕ)
    → All (λ c. c ≢ b':') kind
    → find_char b':' (kind ++ b':' ∷ node) ≡ some (length kind)
find_char_lem [] node p = refl
find_char_lem (c ∷ cs) node p = ground (arith, find_char_lem cs node p.1, p.0)

IsPort : List ℕ → List ℕ → Type 0
IsPort kind node =
    kind ≡ codes "tcp"
    → (length node ≤ 5) × (port : ℕ) × (atoi node ≡ some port) × (0 < port) × (port ≤ 65535)

port_lem :
    (o : Option ℕ)
    → port_in_range o ≡ true
    → (port : ℕ) × (o ≡ some port) × (0 < port) × (port ≤ 65535)
port_lem none h = cc
port_lem (some port) h = (port, refl, ground arith, ground arith)

checked_args_inv :
    (kind node k n : List ℕ)
    → checked_args (kind, node) ≡ (true, (k, n))
    → (k ≡ kind) × (n ≡ node) × IsPort kind node
unfolding IsPort
checked_args_inv kind node k n h = elim (Bool-cases (str_eq kind (codes "tcp"))) [
  | inr e ↦
      let q = rw (e) at h in (cc, cc, λ t. absurd (ground (arith, e, t, str_eq_self (codes "tcp"))))
  | inl e ↦ elim (Bool-cases (ltb port_size (length node))) [
    | inl l ↦ absurd (ground (arith, h, e, l))
    | inr l ↦
        let q = rw (e, l) at h in
        let in_range : port_in_range (atoi node) ≡ true = cc in
        let (port, r, g, u) = port_lem (atoi node) in_range in
        (cc, cc, λ t. (ground arith, port, r, g, u))
  ]
]

checked_args_lem :
    (kind node : List ℕ) → IsPort kind node → checked_args (kind, node) ≡ (true, (kind, node))
unfolding IsPort
checked_args_lem kind node h = elim (Bool-cases (str_eq kind (codes "tcp"))) [
  | inr e ↦ rw (e) refl
  | inl e ↦
      let (short, port, r, g, u) = h (str_eq→eq kind (codes "tcp") e) in
      let l : ltb port_size (length node) ≡ false = ground (arith, short) in
      let in_range : port_in_range (some port) ≡ true = ground (arith, g, u) in
      rw (e, l, r, in_range) refl
]

-- The two parts around the colon.
split_at_inv :
    (str : List ℕ) (old : Args) (o : Option ℕ) (kind node : List ℕ)
    → FoundAt str o
    → split_at str old o ≡ (true, (kind, node))
    → IsNode str kind node
unfolding FoundAt IsPort
split_at_inv str old none kind node f h = cc
split_at_inv str old (some i) kind node (l, e, p) h =
    elim (Bool-cases (i == 0 || i == length str - 1)) [
      | inl z ↦ absurd (ground (arith, h, z))
      | inr z ↦
          let q : checked_args (take i str, drop (suc i) str) ≡ (true, (kind, node)) =
            ground (arith, h, z) in
          let pos : 0 < i = ground (arith, z) in
          let (k, n, port) = checked_args_inv (take i str) (drop (suc i) str) kind node q in
          record {
            joined = ground (arith, e, k, n);
            plain = subst (All (λ c. c ≢ b':')) (sym k) p;
            some_kind = rw (k) (ground (arith, length-take i str, l, pos));
            some_node = rw (n) (ground (arith, length-drop (suc i) str, l, z));
            is_port = rw (k, n) port;
          }
    ]

drop_behind : (c : ℕ) (xs ys : List ℕ) → drop (suc (length xs)) (xs ++ c ∷ ys) ≡ ys
drop_behind c [] ys = refl
drop_behind c (x ∷ xs) ys = drop_behind c xs ys

split_at_lem :
    (str : List ℕ) (old : Args) (kind node : List ℕ)
    → IsNode str kind node
    → check_node_info str old ≡ (true, (kind, node))
unfolding check_node_info IsPort
split_at_lem str old kind node h =
    let size : length str ≡ length kind + suc (length node) =
      ap length h.joined ∙ length-append kind (b':' ∷ node) in
    let some_text : ltb (length str) 1 ≡ false = ground (arith, size) in
    let found : find_char b':' str ≡ some (length kind) =
      ap (find_char b':') h.joined ∙ find_char_lem kind node h.plain in
    let inside : (length kind == 0 || length kind == length str - 1) ≡ false =
      ground (arith, size, h.some_kind, h.some_node) in
    let front : take (length kind) str ≡ kind =
      ap (take (length kind)) h.joined ∙ take_prefix (length kind) kind (b':' ∷ node) refl in
    let back : drop (suc (length kind)) str ≡ node =
      ap (drop (suc (length kind))) h.joined ∙ drop_behind b':' kind node in
    rw (some_text, found, inside, front, back) (checked_args_lem kind node h.is_port)

-- `CheckNodeInfo` takes a text as a kind and a node exactly if it is these with a colon between them, the
-- first one of the text, neither of them is empty, and the node of "tcp" has at most 5 characters that
-- `atoi` reads as a port from 1 to 65535.
pub check_node_info_iff :
    (str kind node : List ℕ) (old : Args)
    → (check_node_info str old ≡ (true, (kind, node))) ↔ IsNode str kind node
unfolding check_node_info
check_node_info_iff str kind node old = (
  λ h. elim (Bool-cases (ltb (length str) 1)) [
    | inl e ↦ absurd (ground (arith, h, e))
    | inr e ↦
        split_at_inv str old (find_char b':' str) kind node (find_char-FoundAt str) (rw (e) at h)
  ],
  split_at_lem str old kind node,
)
