-- ===== src/Connection/Manager.antt =====
-- cmd/mysql-mcp-server/connection.go: `ConnectionManager`. A method takes the manager and returns it;
-- `closed` logs what was closed, newest first.
pub mod Steps
pub mod Invariant
pub mod Capacity
pub mod Reachable
pub mod Adding
use mysql_mcp_server.Prelude.{
  ℕ, ◌+◌, Bool, true, false, not, ◌&&◌, List, [], ◌∷◌, ◌++◌, Option, none, some, Bytes, equal, map,
  leb, if◌then◌else◌, Result, ok, err,
}
use mysql_mcp_server.Prelude.Assoc.{Map, lookup, has, insert, delete, count}
use mysql_mcp_server.Util.Identifiers.{mask_dsn}
use mysql_mcp_server.Connection.Dial.{
  ServerType, ConnectionConfig, Resource, pool, tunnels, AddError, already_exists,
  too_many_session_connections, World, Opened, dial, is_session_conn_key,
}

pub record Manager : Type 0 where
  pub connections : Map ℕ
  -- a client wraps the pool of its name
  pub clients : Map ℕ
  pub configs : Map ConnectionConfig
  pub server_types : Map ServerType
  pub tool_packs : Map Bytes
  pub active_conn : Bytes
  pub tunnel_closers : Map ℕ
  pub pending_adds : Map (Unit {0})
  pub closed : List Resource

-- `NewConnectionManager`
unfoldable pub new_manager : Manager
new_manager = record {
  connections = [];
  clients = [];
  configs = [];
  server_types = [];
  tool_packs = [];
  active_conn = [];
  tunnel_closers = [];
  pending_adds = [];
  closed = [];
}

abbrev pub log : List Resource → Manager → Manager
log rs cm = record cm { closed = rs ++ cm.closed }

-- `tearDownNamedConnection`, on the pool that is registered
unfoldable pub tear_down_pool : Bytes → ℕ → Manager → Manager
unfolding lookup delete equal
tear_down_pool name existing cm = record cm {
  connections = delete name cm.connections;
  clients = delete name cm.clients;
  configs = delete name cm.configs;
  server_types = delete name cm.server_types;
  tool_packs = delete name cm.tool_packs;
  active_conn = if equal cm.active_conn name then [] else cm.active_conn;
  tunnel_closers = delete name cm.tunnel_closers;
  closed = tunnels (lookup name cm.tunnel_closers) ++ (pool existing ∷ cm.closed);
}

unfoldable pub tear_down : Bytes → Manager → Manager
unfolding tear_down_pool
tear_down name cm = elim (lookup name cm.connections) [
  | none ↦ cm
  | some existing ↦ tear_down_pool name existing cm
]

abbrev pub max_total_session_connections : ℕ
max_total_session_connections = 20

-- `sessionConnCountLocked`
unfoldable pub session_conn_count : Manager → ℕ
unfolding count has is_session_conn_key
session_conn_count cm =
    count is_session_conn_key cm.connections
    + count (λ name. is_session_conn_key name && not (has name cm.connections)) cm.pending_adds

-- The first locked section of an add that does not replace: reserve the name.
unfoldable pub reserve_name : Bytes → Manager → Result AddError Manager
unfolding session_conn_count insert
reserve_name name cm =
    if has name cm.connections
    then err already_exists
    else if has name cm.pending_adds
    then err already_exists
    else if is_session_conn_key name && leb max_total_session_connections (session_conn_count cm)
    then err too_many_session_connections
    else ok (record cm { pending_adds = insert name tt cm.pending_adds })

-- the deferred function
unfoldable pub unreserve_name : Bytes → Manager → Manager
unfolding delete
unreserve_name name cm = record cm { pending_adds = delete name cm.pending_adds }

abbrev pub insert_some : Bytes → Option ℕ → Map ℕ → Map ℕ
insert_some name none m = m
insert_some name (some v) m = insert name v m

-- The registration at the end of the last locked section.
unfoldable pub publish : ConnectionConfig → Opened → Manager → Manager
unfolding insert equal is_session_conn_key
publish cfg o cm = record cm {
  connections = insert cfg.name o.pool cm.connections;
  clients = if o.client_made then insert cfg.name o.pool cm.clients else cm.clients;
  configs = insert cfg.name cfg cm.configs;
  server_types = insert cfg.name o.server_type cm.server_types;
  tool_packs = insert cfg.name o.pack_version cm.tool_packs;
  tunnel_closers = insert_some cfg.name o.tunnel cm.tunnel_closers;
  active_conn =
      if equal cm.active_conn [] && not (is_session_conn_key cfg.name)
      then cfg.name
      else cm.active_conn;
}

-- The last locked section.
unfoldable pub register :
    Bool → ConnectionConfig → Opened → Manager → Manager × Result AddError (Unit {0})
unfolding has publish tear_down
register replace cfg o cm =
    if has cfg.name cm.connections
    then (if not replace
        then (log (tunnels o.tunnel ++ (pool o.pool ∷ [])) cm, err already_exists)
        else (publish cfg o (tear_down cfg.name cm), ok tt))
    else (publish cfg o cm, ok tt)

-- From the attempt to the return, without the deferred function.
unfoldable pub attempt :
    Bool
    → ConnectionConfig
    → Result AddError Opened × List Resource
    → Manager
    → Manager × Result AddError (Unit {0})
unfolding register
attempt replace cfg (err e, closed) cm = (log closed cm, err e)
attempt replace cfg (ok o, closed) cm = register replace cfg o (log closed cm)

abbrev unreserved :
    Bytes → Manager × Result AddError (Unit {0}) → Manager × Result AddError (Unit {0})
unreserved name (cm, r) = (unreserve_name name cm, r)

-- `AddConnectionIfAbsentWithPoolConfig`, with nothing else running
unfoldable pub add_connection_if_absent :
    ConnectionConfig → World → Manager → Manager × Result AddError (Unit {0})
unfolding reserve_name attempt dial unreserve_name
add_connection_if_absent cfg w cm = elim (reserve_name cfg.name cm) [
  | err e ↦ (cm, err e)
  | ok reserved ↦ unreserved cfg.name (attempt false cfg (dial cfg w) reserved)
]

-- `AddConnectionWithPoolConfig`
unfoldable pub add_connection :
    ConnectionConfig → World → Manager → Manager × Result AddError (Unit {0})
unfolding tear_down attempt dial
add_connection cfg w cm = attempt true cfg (dial cfg w) (tear_down cfg.name cm)

-- `SetActive`; `none` is the error "not found"
unfoldable pub set_active : Bytes → Manager → Option Manager
unfolding has
set_active name cm =
    if not (has name cm.connections) then none else some (record cm { active_conn = name })

-- `RemoveConnection`
unfoldable pub remove_connection : Bytes → Manager → Option Manager
unfolding has tear_down
remove_connection name cm = if not (has name cm.connections) then none else some (tear_down name cm)

-- `GetActive` and `GetActiveDB`
unfoldable pub get_active : Manager → Option ℕ × Bytes
unfolding lookup
get_active cm = (lookup cm.active_conn cm.connections, cm.active_conn)

-- `List`: the configurations with masked DSNs
unfoldable pub list_connections : Manager → List ConnectionConfig
unfolding mask_dsn
list_connections cm =
    map (λ (e : Bytes × ConnectionConfig). record (e.1) { dsn = mask_dsn (e.1).dsn }) cm.configs
