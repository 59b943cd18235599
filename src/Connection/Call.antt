-- ===== src/Connection/Call.antt =====
-- cmd/mysql-mcp-server/connection.go: which connection a tool call uses. A call's context carries the
-- session, over the HTTP transport, and the pin of the call, once `PinFor` has set it.
pub mod Visible
use mysql_mcp_server.Prelude.{
  ℕ, suc, ◌+◌, Bool, true, false, not, ◌&&◌, ◌||◌, List, [], ◌∷◌, Option, none, some, Bytes, equal,
  if◌then◌else◌,
}
use mysql_mcp_server.Prelude.Assoc.{Map, lookup, has, count}
use mysql_mcp_server.Connection.Dial.{ServerType, unknown, is_session_conn_key}
use mysql_mcp_server.Connection.Manager.{Manager, set_active}
use mysql_mcp_server.Connection.Session.{Session, get, set, resolve, values}

pub record Call : Type 0 where
  pub session : Option Session
  pub pin : Option Bytes

abbrev session_choice : Manager → Option Session → Bytes
session_choice cm none = cm.active_conn
session_choice cm (some sc) = if not (equal (get sc) []) then get sc else cm.active_conn

abbrev pinned_or : Option Bytes → Bytes → Bytes
pinned_or none d = d
pinned_or (some name) d = name

-- `activeNameLocked`
unfoldable pub active_name : Manager → Call → Bytes
unfolding equal
active_name cm c = pinned_or c.pin (session_choice cm c.session)

-- `ActiveFor`
unfoldable pub active_for : Manager → Call → Option ℕ × Bytes
unfolding active_name lookup
active_for cm c = (lookup (active_name cm c) cm.connections, active_name cm c)

-- The handle that `getDB` returns: a pool, or one that fails with the name of what is missing.
pub data Handle : Type 0 where
  db : ℕ → Handle
  missing : Bytes → Handle

unfoldable pub get_db : Manager → Call → Handle
unfolding active_for
get_db cm c = elim (lookup (active_name cm c) cm.connections) [
  | none ↦ missing (active_name cm c)
  | some p ↦ db p
]

-- `PinFor`
unfoldable pub pin_for : Manager → Call → Call
unfolding active_name
pin_for cm c = record c { pin = some (active_name cm c) }

-- The pin follows a switch by its own call.
abbrev pub move_pin : Bytes → Option Bytes → Option Bytes
move_pin key none = none
move_pin key (some old) = some key

-- `SetActiveFor`, with a session; `none` is the error "not found"
unfoldable pub choose : Bytes → Session → Option Bytes → Manager → Option (Manager × Call)
unfolding resolve has is_session_conn_key equal
choose name sc pin cm =
    let key = resolve name sc in
    if (is_session_conn_key name && equal key name) || not (has key cm.connections)
    then none
    else some (cm, record { session = some (set key sc); pin = move_pin key pin })

unfoldable pub set_active_in :
    Bytes → Option Session → Option Bytes → Manager → Option (Manager × Call)
unfolding choose set_active
set_active_in name (some sc) pin cm = choose name sc pin cm
set_active_in name none pin cm = elim (set_active name cm) [
  | none ↦ none
  | some cm' ↦ some (cm', record { session = none; pin = move_pin name pin })
]

-- `SetActiveFor`
unfoldable pub set_active_for : Bytes → Call → Manager → Option (Manager × Call)
unfolding set_active_in
set_active_for name c cm = set_active_in name c.session c.pin cm

abbrev or_unknown : Option ServerType → ServerType
or_unknown none = unknown
or_unknown (some t) = t

-- `ServerTypeFor`
unfoldable pub server_type_for : Manager → Call → ServerType
unfolding lookup active_name
server_type_for cm c = or_unknown (lookup (active_name cm c) cm.server_types)

count_registered : Map ℕ → List Bytes → ℕ
count_registered connections [] = 0
count_registered connections (k ∷ ks) =
    (if has k connections then 1 else 0) + count_registered connections ks

-- `visibleConnectionCount`
unfoldable pub visible_connection_count : Manager → Session → ℕ
unfolding count has is_session_conn_key count_registered
visible_connection_count cm sc =
    count (λ name. not (is_session_conn_key name)) cm.connections
    + count_registered cm.connections (values sc.owned)
