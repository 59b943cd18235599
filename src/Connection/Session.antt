-- ===== src/Connection/Session.antt =====
-- cmd/mysql-mcp-server/connection.go: `sessionConn`, the connections of one MCP session.
pub mod Keys
use mysql_mcp_server.Prelude.{
  ℕ, Bool, true, false, List, [], ◌∷◌, ◌++◌, Option, none, some, Bytes, codes, equal, leb,
  if◌then◌else◌, Result, ok, err,
}
use mysql_mcp_server.Prelude.Assoc.{Map, lookup, has, insert, delete, count}
use mysql_mcp_server.Connection.Dial.{session_conn_prefix}

pub record Session : Type 0 where
  pub id : Bytes
  -- the manager key of the session's choice, empty for the process-wide connection
  pub name : Bytes
  -- the names that the session registered, with their manager keys
  pub owned : Map Bytes
  pub closed : Bool

abbrev pub max_session_connections : ℕ
max_session_connections = 5

pub data ReserveError : Type 0 where
  session_ended name_taken too_many_connections : ReserveError

-- `newSessionConn`, for an id
unfoldable pub new_session : Bytes → Session
new_session id = record { id = id; name = []; owned = []; closed = false }

-- `len` of a map
unfoldable pub size : Map Bytes → ℕ
unfolding count
size m = count (λ k. true) m

abbrev pub session_key : Bytes → Bytes → Bytes
session_key id name = session_conn_prefix ++ (id ++ (codes "/" ++ name))

-- `get` and `set`
abbrev pub get : Session → Bytes
get sc = sc.name

abbrev pub set : Bytes → Session → Session
set key sc = record sc { name = key }

abbrev or_else : Option Bytes → Bytes → Bytes
or_else none d = d
or_else (some v) d = v

-- `resolve`
unfoldable pub resolve : Bytes → Session → Bytes
unfolding lookup
resolve name sc = or_else (lookup name sc.owned) name

-- the loop of `displayName`
unfoldable pub name_of_key : Bytes → Map Bytes → Bytes
unfolding equal
name_of_key key [] = key
name_of_key key ((name, k) ∷ m) = if equal k key then name else name_of_key key m

unfoldable pub display_name : Bytes → Session → Bytes
unfolding name_of_key
display_name key sc = name_of_key key sc.owned

-- `reserve`
unfoldable pub reserve : Bytes → Session → Result ReserveError (Bytes × Session)
unfolding has insert size
reserve name sc =
    if sc.closed
    then err session_ended
    else if has name sc.owned
    then err name_taken
    else if leb max_session_connections (size sc.owned)
    then err too_many_connections
    else ok (
      session_key sc.id name,
      record sc { owned = insert name (session_key sc.id name) sc.owned },
    )

-- `release`
unfoldable pub release : Bytes → Session → Session
unfolding delete
release name sc = record sc { owned = delete name sc.owned }

abbrev pub values : Map Bytes → List Bytes
values [] = []
values ((k, v) ∷ m) = v ∷ values m

-- `close`: the manager keys to remove, and the ended session
unfoldable pub close : Session → List Bytes × Session
close sc = (values sc.owned, record sc { owned = []; closed = true })
