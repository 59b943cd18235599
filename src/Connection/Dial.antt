-- ===== src/Connection/Dial.antt =====
-- cmd/mysql-mcp-server/connection.go: opening a pool, the part of `addConnectionWithPoolConfig` that
-- runs without the lock. What the driver, the SSH client and the server answer is an argument.
use mysql_mcp_server.Prelude.{
  ℕ, Bool, false, not, ◌&&◌, List, [], ◌∷◌, ◌++◌, Option, none, some, Bytes, equal, has_prefix,
  codes, min, ◌==◌, if◌then◌else◌, Result, ok, err,
}
pub use mysql_mcp_server.Config.Types.{SshConfig, ConnectionConfig}

pub data ServerType : Type 0 where
  mysql mariadb unknown : ServerType

-- What has to be closed again: a pool (`*sql.DB`) and the close function of a tunnel.
pub data Resource : Type 0 where
  pool : ℕ → Resource
  tunnel : ℕ → Resource

pub data AddError : Type 0 where
  already_exists too_many_session_connections : AddError
  bad_dsn tunnel_failed open_failed ping_failed : AddError

-- What the world answers to one attempt.
pub record World : Type 0 where
  -- `ApplySSLToDSN`, `applyDefaultIOTimeouts` and `applyStrictReadOnlyDSN` gave a DSN
  pub dsn_parses : Bool
  -- `mysql.ParseDSN` of that DSN, before a tunnel is opened
  pub tunnel_dsn_parses : Bool
  -- `sshtunnel.Tunnel`
  pub tunnel_opens : Option ℕ
  -- `openLabeledDB`
  pub pool_opens : Option ℕ
  pub pings : Bool
  pub server_type : ServerType
  pub pack_version : Bytes
  -- `mysqlclient.NewWithDB` gave a client
  pub client_made : Bool

-- A pool that was pinged, with what belongs to it.
pub record Opened : Type 0 where
  pub pool : ℕ
  pub tunnel : Option ℕ
  pub server_type : ServerType
  pub pack_version : Bytes
  pub client_made : Bool

abbrev pub tunnels : Option ℕ → List Resource
tunnels none = []
tunnels (some t) = tunnel t ∷ []

-- `connCfg.SSH != nil && Host != "" && User != "" && KeyPath != ""`
unfoldable pub uses_ssh : Option SshConfig → Bool
unfolding equal
uses_ssh none = false
uses_ssh (some s) = not (equal s.host []) && not (equal s.user []) && not (equal s.key_path [])

-- Behind the tunnel: open and ping. On a failure what was opened is closed (`cleanupLocal`).
unfoldable pub open_and_ping : World → Option ℕ → Result AddError Opened × List Resource
open_and_ping w tun = elim w.pool_opens [
  | none ↦ (err open_failed, tunnels tun)
  | some p ↦
      if w.pings
      then (
        ok (record {
          pool = p;
          tunnel = tun;
          server_type = w.server_type;
          pack_version = w.pack_version;
          client_made = w.client_made;
        }),
        [],
      )
      else (err ping_failed, tunnels tun ++ (pool p ∷ []))
]

-- The result, and what was closed on the way, newest first.
unfoldable pub dial : ConnectionConfig → World → Result AddError Opened × List Resource
unfolding open_and_ping uses_ssh
dial cfg w =
    if not w.dsn_parses
    then (err bad_dsn, [])
    else if not (uses_ssh cfg.ssh)
    then open_and_ping w none
    else if not w.tunnel_dsn_parses
    then (err bad_dsn, [])
    else elim w.tunnel_opens [ none ↦ (err tunnel_failed, []) | some t ↦ open_and_ping w (some t) ]

-- "mcp-session/": `config.ReservedConnectionPrefix`
abbrev pub session_conn_prefix : Bytes
session_conn_prefix = codes "mcp-session/"

unfoldable pub is_session_conn_key : Bytes → Bool
unfolding has_prefix
is_session_conn_key name = has_prefix name session_conn_prefix

-- The pool settings of `config.Config`, and the defaults for those that are not set. A setting
-- of 0 stands for every one that is not positive.
pub record PoolSettings : Type 0 where
  pub max_open : ℕ
  pub max_idle : ℕ
  pub lifetime : ℕ
  pub idle_time : ℕ
  pub ping_timeout : ℕ

abbrev pub session_conn_max_open_conns : ℕ
session_conn_max_open_conns = 2

abbrev or_default : ℕ → ℕ → ℕ
or_default n d = if n == 0 then d else n

abbrev capped : Bool → ℕ → ℕ
capped session n = if session then min n session_conn_max_open_conns else n

unfoldable pub pool_settings : Bytes → PoolSettings → PoolSettings → PoolSettings
unfolding is_session_conn_key
pool_settings name defaults cfg = record {
  max_open = capped (is_session_conn_key name) (or_default cfg.max_open defaults.max_open);
  max_idle = capped (is_session_conn_key name) (or_default cfg.max_idle defaults.max_idle);
  lifetime = or_default cfg.lifetime defaults.lifetime;
  idle_time = or_default cfg.idle_time defaults.idle_time;
  ping_timeout = or_default cfg.ping_timeout defaults.ping_timeout;
}
