-- ===== src/Forward/Node.antt =====
-- forward.cpp: the two ends of a forwarding as text, `CheckNodeInfo` and `DetechForwardType`.
--
-- `nodeInfo` is the string up to its first 0. The output strings of `CheckNodeInfo` are the state that it
-- takes and gives back.
pub mod Shape
use supertools_public.Common.{
  ℕ, zero, suc, ◌+◌, ◌-◌, ◌*◌, ◌/◌, ◌%◌, ◌^◌, ◌≤◌, ◌<◌, min, ◌≡◌, refl, sym, ap, ap₂, ◌∙◌, subst,
  ◌≢◌, ◌↔◌, ◌⊎◌, inl, inr, Bool, true, false, not, ◌&&◌, ◌||◌, Option, none, some, List, [], ◌∷◌,
  ◌++◌, map, append-nil, append_assoc, arith, ltb, leb, ◌==◌, if◌then◌else◌, ==_iff, ==_self, ==_ne,
  Bool-cases, Option-cases, All, All-append, length, get_elem?, get_or, take, drop, replicate,
  length-append, take-append-drop, length-take, length-drop, length-replicate, take_prefix,
  drop_prefix, take_all, drop_all, take-append, drop-append, get_or-append, Map, find, has, put,
  erase, Above, Sorted, find-put_self, find-put_ne, find-erase_self, find-erase_ne, has-find,
  find-has, Above-put, Sorted-put, Above-erase, Sorted-erase, find-below, find-put, find-erase,
  codes, str_eq, str_eq→eq, str_eq_self,
}
use supertools_public.Base.Fields.{atoi}

abbrev pub max_ip_port : ℕ
max_ip_port = 65535

-- The length of `std::to_string(MAX_IP_PORT)`.
abbrev pub port_size : ℕ
port_size = 5

abbrev pub shifted : Option ℕ → Option ℕ
shifted none = none
shifted (some i) = some (suc i)

-- `find`.
abbrev pub find_char : ℕ → List ℕ → Option ℕ
find_char c [] = none
find_char c (x ∷ xs) = let rest = shifted (find_char c xs) in if x == c then some 0 else rest

abbrev pub Args : Type 0
Args = List ℕ × List ℕ

-- A port that `atoi` reads; none is a negative number.
abbrev pub port_in_range : Option ℕ → Bool
port_in_range none = false
port_in_range (some port) = not (port == 0) && leb port max_ip_port

abbrev pub checked_args : Args → Bool × Args
checked_args (kind, node) =
    if not (str_eq kind (codes "tcp"))
    then (true, (kind, node))
    else if ltb port_size (length node)
    then (false, (kind, node))
    else (port_in_range (atoi node), (kind, node))

abbrev pub split_at : List ℕ → Args → Option ℕ → Bool × Args
split_at str old none = (false, old)
split_at str old (some pos) =
    if pos == 0 || pos == length str - 1
    then (false, old)
    else checked_args (take pos str, drop (suc pos) str)

unfoldable pub check_node_info : List ℕ → Args → Bool × Args
check_node_info str old =
    if ltb (length str) 1 then (false, old) else split_at str old (find_char b':' str)

pub data ForwardType : Type 0 where
  tcp device jdwp ark abstract reserved filesystem : ForwardType

abbrev pub filesystem_socket_prefix : List ℕ
filesystem_socket_prefix = codes "/tmp/"

abbrev pub harmony_reserved_socket_prefix : List ℕ
harmony_reserved_socket_prefix = codes "/dev/socket/"

-- The type and what becomes of `localArgs`; none if it is no type.
unfoldable pub detech_forward_type : Args → Option (ForwardType × Args)
detech_forward_type (kind, node) =
    if str_eq kind (codes "tcp")
    then some (tcp, (kind, node))
    else if str_eq kind (codes "dev")
    then some (device, (kind, node))
    else if str_eq kind (codes "localabstract")
    then some (abstract, (kind, node))
    else if str_eq kind (codes "localreserved")
    then some (reserved, (kind, harmony_reserved_socket_prefix ++ node))
    else if str_eq kind (codes "localfilesystem")
    then some (filesystem, (kind, filesystem_socket_prefix ++ node))
    else if str_eq kind (codes "jdwp")
    then some (jdwp, (kind, node))
    else if str_eq kind (codes "ark")
    then some (ark, (kind, node))
    else none
