-- ===== src/Server/Forwards.antt =====
-- server.cpp in main/src/main/cpp/hdctools: `AdminForwardMap`, the table of forwarded ports, and
-- `CleanForwardMap`.
--
-- An entry of none is a null pointer. The texts for the console are left out.
pub mod Clean
use supertools_public.Common.{
  ℕ, zero, suc, ◌+◌, ◌-◌, ◌*◌, ◌/◌, ◌%◌, ◌^◌, ◌≤◌, ◌<◌, min, ◌≡◌, refl, sym, ap, ap₂, ◌∙◌, subst,
  ◌≢◌, ◌↔◌, ◌⊎◌, inl, inr, Bool, true, false, not, ◌&&◌, ◌||◌, Option, none, some, List, [], ◌∷◌,
  ◌++◌, map, append-nil, append_assoc, arith, ltb, leb, ◌==◌, if◌then◌else◌, ==_iff, ==_self, ==_ne,
  Bool-cases, Option-cases, All, All-append, length, get_elem?, get_or, take, drop, replicate,
  length-append, take-append-drop, length-take, length-drop, length-replicate, take_prefix,
  drop_prefix, take_all, drop_all, take-append, drop-append, get_or-append, Map, find, has, put,
  erase, Above, Sorted, find-put_self, find-put_ne, find-erase_self, find-erase_ne, has-find,
  find-has, Above-put, Sorted-put, Above-erase, Sorted-erase, find-below, find-put, find-erase,
  codes, str_eq, str_eq→eq, str_eq_self,
}
use supertools_public.Common.StringMap.{StringMap, entry_of, set_entry, erase_entry}

pub record HdcForwardInformation : Type 0 where
  pub task_string : List ℕ
  pub forward_direction : Bool
  pub session_id : ℕ
  pub channel_id : ℕ
  pub connect_key : List ℕ

abbrev pub ForwardMap : Type 0
ForwardMap = StringMap (Option HdcForwardInformation)

-- `c_str` as a string, up to the first 0.
abbrev pub c_string : List ℕ → List ℕ
c_string [] = []
c_string (c ∷ cs) = let rest = c_string cs in if c == 0 then [] else c ∷ rest

abbrev pub starts_with_1 : List ℕ → Bool
starts_with_1 [] = false
starts_with_1 (c ∷ cs) = c == b'1'

-- What `FetchCommand` makes of CMD_FORWARD_SUCCESS, whose payload holds a 0.
unfoldable pub forward_of : ℕ → ℕ → List ℕ → List ℕ → HdcForwardInformation
forward_of session_id channel_id connect_key payload = record {
  task_string = c_string payload;
  forward_direction = starts_with_1 payload;
  session_id = session_id;
  channel_id = channel_id;
  connect_key = connect_key;
}

abbrev pub joined : Option (Option HdcForwardInformation) → Option HdcForwardInformation
joined none = none
joined (some p) = p

abbrev pub add_forward :
    Bool → HdcForwardInformation → ForwardMap → Option HdcForwardInformation → ForwardMap
add_forward allocated f m none = if allocated then set_entry f.task_string (some f) m else m
add_forward allocated f m (some old) = m

-- `OP_ADD`.
unfoldable pub forward_add : Bool → HdcForwardInformation → ForwardMap → ForwardMap
forward_add allocated f m = add_forward allocated f m (joined (entry_of f.task_string m))

-- `OP_QUERY`, for a caller that hands in a null pointer.
unfoldable pub forward_query : List ℕ → ForwardMap → Option HdcForwardInformation
forward_query task m = joined (entry_of task m)

-- `OP_REMOVE`.
unfoldable pub forward_remove : List ℕ → ForwardMap → ForwardMap
forward_remove task m = erase_entry task m

abbrev pub kept : List ℕ × Option HdcForwardInformation → Option ForwardMap → Option ForwardMap
kept e none = none
kept e (some m) = some (e ∷ m)

-- `CleanForwardMap`. The loop stays at a null entry; none means that the fuel ran out.
unfoldable pub clean_forward_map : ℕ → ℕ → ForwardMap → Option ForwardMap
clean_forward_map zero session_id m = none
clean_forward_map (suc fuel) session_id [] = some []
clean_forward_map (suc fuel) session_id ((k, none) ∷ m) =
    clean_forward_map fuel session_id ((k, none) ∷ m)
clean_forward_map (suc fuel) session_id ((k, some f) ∷ m) =
    let rest = clean_forward_map fuel session_id m in
    if session_id == 0 || session_id == f.session_id then rest else kept (k, some f) rest
