-- ===== src/Connection/Manager/Steps.antt =====
-- The locked sections of the manager as steps, in any order: what runs between two sections of one
-- call may be the sections of any other calls. `Close` is left out: the process ends with it.
use mysql_mcp_server.Prelude.{◌≡◌, true, false, some, Bytes, ok}
use mysql_mcp_server.Prelude.Assoc.{has}
use mysql_mcp_server.Connection.Dial.{Resource, ConnectionConfig, Opened, is_session_conn_key}
use mysql_mcp_server.Connection.Manager.{
  Manager, new_manager, log, tear_down, reserve_name, unreserve_name, register, set_active,
  remove_connection,
}
use mathlib.Core.List.{List}

pub data Step : Manager → Manager → Type 0 where
  -- an add that does not replace reserves its name
  reserves : {cm cm' : Manager} (name : Bytes) → reserve_name name cm ≡ ok cm' → Step cm cm'
  -- a failed attempt closes what it has opened
  gives_up : {cm cm' : Manager} (rs : List Resource) → cm' ≡ log rs cm → Step cm cm'
  -- an add whose name is reserved ends its attempt
  registers :
      {cm cm' : Manager} (cfg : ConnectionConfig) (o : Opened)
      → has cfg.name cm.pending_adds ≡ true
      → cm' ≡ (register false cfg o cm).0
      → Step cm cm'
  -- its deferred function runs
  unreserves : {cm cm' : Manager} (name : Bytes) → cm' ≡ unreserve_name name cm → Step cm cm'
  -- an add that replaces: `AddConnectionWithPoolConfig`
  tears_down : {cm cm' : Manager} (name : Bytes) → cm' ≡ tear_down name cm → Step cm cm'
  replaces :
      {cm cm' : Manager} (cfg : ConnectionConfig) (o : Opened)
      → cm' ≡ (register true cfg o cm).0
      → Step cm cm'
  -- `SetActive`
  activates : {cm cm' : Manager} (name : Bytes) → set_active name cm ≡ some cm' → Step cm cm'
  removes : {cm cm' : Manager} (name : Bytes) → remove_connection name cm ≡ some cm' → Step cm cm'

pub data Reach : Manager → Type 0 where
  start : {cm : Manager} → cm ≡ new_manager → Reach cm
  next : {cm cm' : Manager} → Reach cm → Step cm cm' → Reach cm'

-- `SetActive` and the adds that replace are called with names that are no session keys. Neither tests
-- that. Names of configured connections are none, since `validateConnectionNames` refuses the prefix,
-- and `SetActive` is only called without a session, by `SetActiveFor`.
abbrev pub SparesSessions : {cm cm' : Manager} → Step cm cm' → Type 0
SparesSessions (replaces cfg o e) = is_session_conn_key cfg.name ≡ false
SparesSessions (activates name h) = is_session_conn_key name ≡ false
SparesSessions _ = Unit

abbrev pub SparedSessions : {cm : Manager} → Reach cm → Type 0
SparedSessions (start e) = Unit
SparedSessions (next r s) = SparedSessions r × SparesSessions s
