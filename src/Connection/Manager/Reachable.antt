-- ===== src/Connection/Manager/Reachable.antt =====
-- The invariant of the manager, in every state that the locked sections reach in any order.
use mysql_mcp_server.Prelude.{
  ◌≡◌, ◌⊎◌, inl, inr, refl, sym, subst, Bool, true, false, List, some, arith, Bytes, ok,
}
use mysql_mcp_server.Prelude.Assoc.{has, count}
use mysql_mcp_server.Connection.Dial.{Resource, ConnectionConfig, Opened, is_session_conn_key}
use mysql_mcp_server.Connection.Manager.{
  Manager, new_manager, log, tear_down, session_conn_count, reserve_name, unreserve_name, register,
  set_active, remove_connection,
}
use mysql_mcp_server.Connection.Manager.Invariant.{
  SameKeys, IsShared, tear_down-SameKeys, register-SameKeys, tear_down-IsShared, register-IsShared,
  empty_no_session,
}
use mysql_mcp_server.Connection.Manager.Capacity.{
  IsOnce, IsWithin, reserve_name-IsOnce, reserve_name-IsWithin, unreserve_name-IsOnce,
  unreserve_name-IsWithin, tear_down-IsOnce, tear_down-le, register-IsOnce, register-IsWithin,
}
use mysql_mcp_server.Connection.Manager.Steps.{
  Step, reserves, gives_up, registers, unreserves, tears_down, replaces, activates, removes, Reach,
  start, next, SparesSessions, SparedSessions,
}
use native.Mathlib.Nat.{le_trans}

-- The maps hold the same names; the process-wide connection is registered, if there is one, and no
-- session's; a name is reserved once; the sessions' connections stay within the limit of 20.
pub record Inv (cm : Manager) : Type 0 where
  pub same : (k : Bytes) → SameKeys cm k
  pub shared : IsShared cm
  pub once : IsOnce cm
  pub within_limit : IsWithin cm

new_manager-Inv : Inv new_manager
unfolding new_manager has session_conn_count count
new_manager-Inv = record {
  same = λ k. record {
    in_configs = refl;
    in_server_types = refl;
    in_tool_packs = refl;
    in_clients = λ h. h;
    in_tunnels = λ h. h;
  };
  shared = record { registered = inl refl; no_session = empty_no_session };
  once = λ k. omega arith;
  within_limit = omega arith;
}

-- An update of the reservations or of the log leaves the maps and the choice alone.
record SameMaps (cm cm' : Manager) : Type 0 where
  connections : cm'.connections ≡ cm.connections
  clients : cm'.clients ≡ cm.clients
  configs : cm'.configs ≡ cm.configs
  server_types : cm'.server_types ≡ cm.server_types
  tool_packs : cm'.tool_packs ≡ cm.tool_packs
  tunnel_closers : cm'.tunnel_closers ≡ cm.tunnel_closers
  active : cm'.active_conn ≡ cm.active_conn

SameMaps-SameKeys :
    {cm cm' : Manager} (k : Bytes) → SameMaps cm cm' → SameKeys cm k → SameKeys cm' k
SameMaps-SameKeys k e v = ground arith

SameMaps-IsShared : {cm cm' : Manager} → SameMaps cm cm' → IsShared cm → IsShared cm'
SameMaps-IsShared e v = ground arith

reserve_name-SameMaps :
    (name : Bytes) (cm : Manager) {cm' : Manager} → reserve_name name cm ≡ ok cm' → SameMaps cm cm'
unfolding reserve_name
reserve_name-SameMaps name cm h = ground arith

set_active_parts :
    (name : Bytes) (cm : Manager) {cm' : Manager}
    → set_active name cm ≡ some cm'
    → (has name cm.connections ≡ true) × (cm' ≡ record cm { active_conn = name })
unfolding set_active
set_active_parts name cm h = ground arith

set_active-Inv :
    (name : Bytes) (cm : Manager)
    → is_session_conn_key name ≡ false
    → has name cm.connections ≡ true
    → Inv cm
    → Inv (record cm { active_conn = name })
unfolding session_conn_count
set_active-Inv name cm s h v = record {
  same = λ k.
      let w = v.same k in
      record {
        in_configs = w.in_configs;
        in_server_types = w.in_server_types;
        in_tool_packs = w.in_tool_packs;
        in_clients = w.in_clients;
        in_tunnels = w.in_tunnels;
      };
  shared = record { registered = inr h; no_session = s };
  once = v.once;
  within_limit = v.within_limit;
}

tear_down-Inv : (name : Bytes) (cm : Manager) → Inv cm → Inv (tear_down name cm)
tear_down-Inv name cm v = record {
  same = λ k. tear_down-SameKeys name cm k (v.same k);
  shared = tear_down-IsShared name cm v.shared;
  once = tear_down-IsOnce name cm v.once;
  within_limit = le_trans (tear_down-le name cm v.once) v.within_limit;
}

register-Inv :
    (replace : Bool) (cfg : ConnectionConfig) (o : Opened) (cm : Manager)
    → (is_session_conn_key cfg.name ≡ false) ⊎ (has cfg.name cm.pending_adds ≡ true)
    → Inv cm
    → Inv (register replace cfg o cm).0
register-Inv replace cfg o cm h v = record {
  same = λ k. register-SameKeys replace cfg o cm k (v.same k);
  shared = register-IsShared replace cfg o cm v.shared;
  once = register-IsOnce replace cfg o cm v.once;
  within_limit = register-IsWithin replace cfg o cm v.once h v.within_limit;
}

log-Inv : (rs : List Resource) (cm : Manager) → Inv cm → Inv (log rs cm)
unfolding session_conn_count
log-Inv rs cm v = record {
  same = λ k.
      let w = v.same k in
      record {
        in_configs = w.in_configs;
        in_server_types = w.in_server_types;
        in_tool_packs = w.in_tool_packs;
        in_clients = w.in_clients;
        in_tunnels = w.in_tunnels;
      };
  shared = record { registered = v.shared.registered; no_session = v.shared.no_session };
  once = v.once;
  within_limit = v.within_limit;
}

remove_connection_parts :
    (name : Bytes) (cm : Manager) {cm' : Manager}
    → remove_connection name cm ≡ some cm'
    → cm' ≡ tear_down name cm
unfolding remove_connection
remove_connection_parts name cm h = ground arith

reserve_name-Inv :
    (name : Bytes) (cm : Manager) {cm' : Manager} → reserve_name name cm ≡ ok cm' → Inv cm → Inv cm'
reserve_name-Inv name cm h v = record {
  same = λ k. SameMaps-SameKeys k (reserve_name-SameMaps name cm h) (v.same k);
  shared = SameMaps-IsShared (reserve_name-SameMaps name cm h) v.shared;
  once = reserve_name-IsOnce name cm h v.once;
  within_limit = reserve_name-IsWithin name cm h v.within_limit;
}

unreserve_name-SameMaps : (name : Bytes) (cm : Manager) → SameMaps cm (unreserve_name name cm)
unfolding unreserve_name
unreserve_name-SameMaps name cm = ground arith

unreserve_name-Inv : (name : Bytes) (cm : Manager) → Inv cm → Inv (unreserve_name name cm)
unreserve_name-Inv name cm v = record {
  same = λ k. SameMaps-SameKeys k (unreserve_name-SameMaps name cm) (v.same k);
  shared = SameMaps-IsShared (unreserve_name-SameMaps name cm) v.shared;
  once = unreserve_name-IsOnce name cm v.once;
  within_limit = unreserve_name-IsWithin name cm v.within_limit;
}

-- Every step that spares the sessions keeps the invariant.
pub Step-Inv : {cm cm' : Manager} (s : Step cm cm') → SparesSessions s → Inv cm → Inv cm'
Step-Inv (reserves name h) k v = reserve_name-Inv name _ h v
Step-Inv (gives_up rs e) k v = subst Inv (sym e) (log-Inv rs _ v)
Step-Inv (registers cfg o h e) k v = subst Inv (sym e) (register-Inv false cfg o _ (inr h) v)
Step-Inv (unreserves name e) k v = subst Inv (sym e) (unreserve_name-Inv name _ v)
Step-Inv (tears_down name e) k v = subst Inv (sym e) (tear_down-Inv name _ v)
Step-Inv (replaces cfg o e) k v = subst Inv (sym e) (register-Inv true cfg o _ (inl k) v)
Step-Inv (activates name h) k v =
    let (r, e) = set_active_parts name _ h in subst Inv (sym e) (set_active-Inv name _ k r v)
Step-Inv (removes name h) k v =
    subst Inv (sym (remove_connection_parts name _ h)) (tear_down-Inv name _ v)

-- However the locked sections of any calls interleave, if `SetActive` and the adds that replace are
-- called with no session's key, the maps of the manager hold the same names, the process-wide
-- connection is registered or unset and is no session's, a name is reserved at most once, and the
-- connections of MCP sessions, registered or being added, are at most 20.
pub Reach-Inv : {cm : Manager} (r : Reach cm) → SparedSessions r → Inv cm
Reach-Inv (start e) k = subst Inv (sym e) new_manager-Inv
Reach-Inv (next r s) (k, l) = Step-Inv s l (Reach-Inv r k)
