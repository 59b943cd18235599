-- ===== src/Tools/Sessions.antt =====
-- cmd/mysql-mcp-server/tools.go: the tools on connections, `toolListConnections`, `toolUseConnection`
-- and `toolPing`, and `ownedNames` of connection.go. The manager is there; a nil one is an error.
pub mod Hidden
use mysql_mcp_server.Prelude.{
  ℕ, Bool, true, false, not, ◌&&◌, ◌||◌, List, [], ◌∷◌, ◌++◌, Option, none, some, Bytes, codes,
  equal, if◌then◌else◌, Result, ok, err,
}
use mysql_mcp_server.Prelude.Assoc.{Map, lookup, insert}
use mysql_mcp_server.Config.Types.{ConnectionConfig}
use mysql_mcp_server.Connection.Dial.{is_session_conn_key}
use mysql_mcp_server.Connection.Manager.{Manager, list_connections}
use mysql_mcp_server.Connection.Session.{Session, display_name}
use mysql_mcp_server.Connection.Call.{Call, active_for, set_active_for}
use mysql_mcp_server.Retry.{DbError, RetryConfig, Backoff, do_retry}

-- `ConnectionInfo`
pub record ConnectionInfo : Type 0 where
  pub name : Bytes
  pub dsn : Bytes
  pub description : Bytes
  pub active : Bool

-- `ListConnectionsOutput`
pub record ListConnectionsOutput : Type 0 where
  pub connections : List ConnectionInfo
  pub active_name : Bytes

-- the loop over `ownedNames`: the session's names by their keys
unfoldable pub names_by_key : Map Bytes → Map Bytes → Map Bytes
unfolding insert
names_by_key [] owned = owned
names_by_key ((name, key) ∷ names) owned = names_by_key names (insert key name owned)

abbrev pub owned_by : Option Session → Map Bytes
owned_by none = []
owned_by (some sc) = names_by_key (sc.owned) []

abbrev pub name_for : Option Session → Bytes → Bytes
name_for none key = key
name_for (some sc) key = display_name key sc

abbrev pub info_of : Bytes → Bytes → ConnectionConfig → ConnectionInfo
info_of name active_key cfg = record {
  name = name;
  dsn = cfg.dsn;
  description = cfg.description;
  active = equal (cfg.name) active_key;
}

-- what is shown of a configuration
unfoldable pub shown : Map Bytes → Bytes → ConnectionConfig → Option ConnectionInfo
unfolding is_session_conn_key lookup equal
shown owned active_key cfg =
    if is_session_conn_key (cfg.name)
    then elim (lookup (cfg.name) owned) [
      | none ↦ none
      | some name ↦ some (info_of name active_key cfg)
    ]
    else some (info_of (cfg.name) active_key cfg)

abbrev pub add_if : {A : Type 0} → Option A → List A → List A
add_if none rest = rest
add_if (some a) rest = a ∷ rest

-- the loop over the configurations
unfoldable pub connection_infos : Map Bytes → Bytes → List ConnectionConfig → List ConnectionInfo
unfolding shown
connection_infos owned active_key [] = []
connection_infos owned active_key (cfg ∷ cfgs) =
    add_if (shown owned active_key cfg) (connection_infos owned active_key cfgs)

-- `toolListConnections`
unfoldable pub tool_list_connections : Manager → Call → ListConnectionsOutput
unfolding connection_infos list_connections active_for display_name names_by_key
tool_list_connections cm c = record {
  connections = connection_infos (owned_by (c.session)) ((active_for cm c).1) (list_connections cm);
  active_name = name_for (c.session) ((active_for cm c).1);
}

-- `UseConnectionOutput`
pub data UseConnectionOutput : Type 0 where
  not_switched : UseConnectionOutput
  switched : Bytes → Bytes → Bytes → UseConnectionOutput

-- the message, and the current database, which may be unknown
unfoldable pub switched_to : Bytes → Result DbError (Option Bytes) → UseConnectionOutput
switched_to name (ok (some database)) =
    switched name (codes "Switched to connection '" ++ (name ++ codes "'")) database
switched_to name (ok none) =
    switched name (codes "Switched to connection '" ++ (name ++ codes "'")) []
switched_to name (err e) =
    switched name
      (codes "Switched to connection '"
        ++ (name ++ codes "' (note: could not determine current database)"))
      []

-- `toolUseConnection`: `none` is the error that a name is required; `asked` is what the database of
-- the call answers to `SELECT DATABASE()`
unfoldable pub tool_use_connection :
    (Manager → Call → Result DbError (Option Bytes))
    → Bytes
    → Manager
    → Call
    → Option (UseConnectionOutput × Manager × Call)
unfolding equal set_active_for switched_to
tool_use_connection asked name cm c =
    if equal name [] then none else elim (set_active_for name c cm) [
      | none ↦ some (not_switched, cm, c)
      | some (cm', c') ↦ some (switched_to name (asked cm' c'), cm', c')
    ]

-- `toolPing`, by whether the database could be reached; `pinged` is what the n-th ping returns
unfoldable pub tool_ping :
    Backoff DbError → RetryConfig → (ℕ → Option DbError) → (ℕ → Option DbError) → Bool
unfolding do_retry
tool_ping b cfg context pinged = elim ((do_retry b cfg context pinged).0) [
  | none ↦ true
  | some e ↦ false
]
