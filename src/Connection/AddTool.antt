-- ===== src/Connection/AddTool.antt =====
-- cmd/mysql-mcp-server/tools.go: `toolAddConnection` and `checkRuntimeDSNOptions`, and `closeSessionConnections` of
-- mcp_http.go. The driver's reading of the DSN is an argument.
pub mod Atomic
use mysql_mcp_server.Prelude.{
  ℕ, Bool, true, false, not, ◌||◌, List, [], ◌∷◌, Option, none, some, Bytes, codes, equal, to_lower,
  trim_space, if◌then◌else◌, Result, ok, err,
}
use mysql_mcp_server.Prelude.Assoc.{has}
use mysql_mcp_server.Connection.Dial.{AddError, World, ConnectionConfig, is_session_conn_key}
use mysql_mcp_server.Connection.Manager.{Manager, add_connection_if_absent, remove_connection}
use mysql_mcp_server.Connection.Session.{Session, ReserveError, reserve, release, close}
use mysql_mcp_server.Connection.Call.{Call, set_active_in}

-- The fields of the driver's `mysql.Config` that are read.
pub record DsnConfig : Type 0 where
  pub user : Bytes
  pub allow_all_files : Bool
  pub multi_statements : Bool

pub data ToolError : Type 0 where
  name_and_dsn_required invalid_dsn root_not_allowed : ToolError
  all_files_not_allowed multi_statements_not_allowed reserved_name : ToolError
  not_when_stateless exists ended activation_failed : ToolError
  reserve_failed : ReserveError → ToolError
  add_failed : AddError → ToolError

-- `checkRuntimeDSNOptions`
unfoldable pub check_runtime_dsn_options : DsnConfig → Option ToolError
check_runtime_dsn_options c =
    if c.allow_all_files
    then some all_files_not_allowed
    else if c.multi_statements
    then some multi_statements_not_allowed
    else none

-- the checks in front of the reservation; `strings.EqualFold` over ASCII
unfoldable pub check_input : Bytes → Bytes → Option DsnConfig → Option ToolError
unfolding check_runtime_dsn_options equal to_lower trim_space is_session_conn_key
check_input name dsn parsed =
    if equal name [] || equal dsn [] then some name_and_dsn_required else elim parsed [
      | none ↦ some invalid_dsn
      | some c ↦
          if equal (to_lower (trim_space c.user)) (codes "root")
          then some root_not_allowed
          else elim (check_runtime_dsn_options c) [
            | some e ↦ some e
            | none ↦ if is_session_conn_key name then some reserved_name else none
          ]
    ]

-- The manager, the session and the pin of the call afterwards, and the error, if any.
pub record Outcome : Type 0 where
  pub manager : Manager
  pub session : Option Session
  pub pin : Option Bytes
  pub error : Option ToolError

abbrev after_removal : Manager → Option Manager → Manager
after_removal cm none = cm
after_removal cm (some cm') = cm'

abbrev released : Bytes → Option Session → Option Session
released name none = none
released name (some sc) = some (release name sc)

-- Step 3: switch to the new connection, or undo the add.
unfoldable pub activate : Bytes → Bytes → Option Session → Option Bytes → Manager → Outcome
unfolding set_active_in release remove_connection
activate name key sc pin cm = elim (set_active_in name sc pin cm) [
  | some (cm', c) ↦ record { manager = cm'; session = c.session; pin = c.pin; error = none }
  | none ↦ record {
    manager = after_removal cm (remove_connection key cm);
    session = released name sc;
    pin = pin;
    error = some activation_failed;
  }
]

abbrev ended_session : Option Session → Option Session
ended_session none = none
ended_session (some sc) = some (close sc).1

abbrev is_session : Option Session → Bool
is_session none = false
is_session (some sc) = true

-- Behind the add; `ends` tells whether the session ended while the connection was being opened.
unfoldable pub settle :
    Bytes
    → Bytes
    → Option Session
    → Option Bytes
    → Bool
    → Manager × Result AddError (Unit {0})
    → Outcome
unfolding activate release remove_connection close
settle name key sc pin ends (cm, err e) = record {
  manager = cm;
  session = released name sc;
  pin = pin;
  error = some (add_failed e);
}
settle name key sc pin ends (cm, ok _) = elim ends [
  | false ↦ activate name key sc pin cm
  | true ↦ elim sc [
    | none ↦ activate name key none pin cm
    | some s ↦ record {
      manager = after_removal cm (remove_connection key cm);
      session = some (close s).1;
      pin = pin;
      error = some ended;
    }
  ]
]

abbrev refused : Manager → Option Session → Option Bytes → ToolError → Outcome
refused cm sc pin e = record { manager = cm; session = sc; pin = pin; error = some e }

abbrev keyed : Bytes → ConnectionConfig → ConnectionConfig
keyed key cfg = record cfg { name = key }

-- Over the HTTP transport: reserve the name in the session first.
unfoldable pub add_in_session :
    Bytes → ConnectionConfig → World → Bool → Bool → Session → Option Bytes → Manager → Outcome
unfolding settle reserve has add_connection_if_absent
add_in_session name cfg w stateless ends sc pin cm =
    if stateless
    then refused cm (some sc) pin not_when_stateless
    else if has name cm.connections
    then refused cm (some sc) pin exists
    else elim (reserve name sc) [
      | err e ↦ refused cm (some sc) pin (reserve_failed e)
      | ok (key, sc') ↦
          settle name key (some sc') pin ends (add_connection_if_absent (keyed key cfg) w cm)
    ]

-- `toolAddConnection`, with the trimmed name and DSN
unfoldable pub tool_add_connection :
    Bytes
    → Bytes
    → Option DsnConfig
    → ConnectionConfig
    → World
    → Bool
    → Bool
    → Call
    → Manager
    → Outcome
unfolding check_input add_in_session settle add_connection_if_absent
tool_add_connection name dsn parsed cfg w stateless ends c cm = elim (check_input name dsn parsed) [
  | some e ↦ refused cm c.session c.pin e
  | none ↦ elim c.session [
    | none ↦ settle name name none c.pin ends (add_connection_if_absent (keyed name cfg) w cm)
    | some sc ↦ add_in_session name cfg w stateless ends sc c.pin cm
  ]
]

-- the loop of `closeSessionConnections`
unfoldable pub remove_all : List Bytes → Manager → Manager
unfolding remove_connection
remove_all [] cm = cm
remove_all (key ∷ keys) cm = remove_all keys (after_removal cm (remove_connection key cm))

unfoldable pub close_session_connections : Session → Manager → Manager × Session
unfolding remove_all close
close_session_connections sc cm = (remove_all (close sc).0 cm, (close sc).1)
