-- ===== src/Connection/Tests.antt =====
-- The theorems on the connections at concrete inputs.
use mysql_mcp_server.Prelude.{
  ◌≡◌, refl, Bool, true, false, List, [], none, some, Bytes, codes, ok, err,
}
use mysql_mcp_server.Prelude.Assoc.{has}
use mysql_mcp_server.Connection.Dial.{
  ConnectionConfig, Opened, Resource, mysql, World, ping_failed, dial, is_session_conn_key,
}
use mysql_mcp_server.Connection.Manager.{
  Manager, new_manager, log, reserve_name, unreserve_name, register, set_active,
  add_connection_if_absent, add_connection,
}
use mysql_mcp_server.Connection.Manager.Steps.{
  Reach, reserves, registers, unreserves, activates, start, next,
}
use mysql_mcp_server.Connection.Manager.Reachable.{Inv, Reach-Inv}
use mysql_mcp_server.Connection.Manager.Adding.{
  Accounted, dial-Accounted, add_err, add_connection_failed,
}
use mysql_mcp_server.Connection.Session.{Session, new_session, reserve, session_key}
use mysql_mcp_server.Connection.Call.{Call, set_active_for, move_pin}
use mysql_mcp_server.Connection.Call.Visible.{IsVisible, set_active_for-IsVisible}
use mysql_mcp_server.Connection.AddTool.{add_in_session}
use mysql_mcp_server.Connection.AddTool.Atomic.{IsAtomic, add_in_session-IsAtomic}

abbrev shop : ConnectionConfig
shop = record {
  name = codes "shop";
  dsn = codes "app:pw@tcp(db:3306)/shop";
  description = [];
  read_only = false;
  ssl = [];
  ssh = some (record {
    host = codes "bastion";
    user = codes "ops";
    key_path = codes "/k";
    port = 0;
    strict_host_key_checking = none;
    known_hosts_path = [];
    host_key_fingerprint = [];
  });
}

-- A world in which all goes well, or all but the ping.
abbrev answering : Bool → World
answering pings = record {
  dsn_parses = true;
  tunnel_dsn_parses = true;
  tunnel_opens = some 7;
  pool_opens = some 8;
  pings = pings;
  server_type = mysql;
  pack_version = [];
  client_made = true;
}

-- A manager that serves one connection.
abbrev serving : Manager
serving = (add_connection_if_absent shop (answering true) new_manager).0

reserved : (cm : Manager) × (reserve_name (codes "shop") new_manager ≡ ok cm)
unfolding reserve_name new_manager
reserved = (_, refl)

abbrev opened : Opened
opened = record {
  pool = 8;
  tunnel = some 7;
  server_type = mysql;
  pack_version = [];
  client_made = true;
}

-- An add of a shared connection, up to its end, and a switch to it.
abbrev shared : Manager
shared = (register false shop opened reserved.0).0

held : has (codes "shop") reserved.0.pending_adds ≡ true
unfolding reserve_name new_manager has reserved
held = refl

switched :
    (cm : Manager) × (set_active (codes "shop") (unreserve_name (codes "shop") shared) ≡ some cm)
unfolding set_active unreserve_name register reserve_name new_manager reserved
switched = (_, refl)

abbrev steps : Reach switched.0
steps =
    next
      (next
        (next (next (start refl) (reserves (codes "shop") reserved.1))
          (registers shop opened held refl))
        (unreserves (codes "shop") refl))
      (activates (codes "shop") switched.1)

Reach-Inv_example : Inv switched.0
Reach-Inv_example = Reach-Inv steps ((((tt, tt), tt), tt), unfold is_session_conn_key in refl)

add_in_session-IsAtomic_example :
    IsAtomic (codes "mine") (new_session (codes "ab12")) none serving (
      add_in_session
        (codes "mine")
        shop
        (answering true)
        false
        false
        (new_session (codes "ab12"))
        none
        serving)
add_in_session-IsAtomic_example =
    add_in_session-IsAtomic (codes "mine") shop (answering true) false (new_session (codes "ab12"))
      none serving (unfold is_session_conn_key in refl)

dial-Accounted_example : Accounted shop (answering false) (dial shop (answering false))
dial-Accounted_example = dial-Accounted shop (answering false)

pings_not : (add_connection_if_absent shop (answering false) new_manager).1 ≡ err ping_failed
unfolding add_connection_if_absent new_manager
pings_not = refl

add_err_example :
    (rs : List Resource) × ((add_connection_if_absent shop (answering false) new_manager).0
      ≡ log rs new_manager)
add_err_example = add_err shop (answering false) new_manager ping_failed pings_not

added : (add_connection_if_absent shop (answering true) new_manager).1 ≡ ok tt
unfolding add_connection_if_absent new_manager
added = refl

unpinged : (dial shop (answering false)).0 ≡ err ping_failed
unfolding dial
unpinged = refl

add_connection_failed_example :
    ((add_connection shop (answering false) serving).1 ≡ err ping_failed)
    × (has (codes "shop") (add_connection shop (answering false) serving).0.connections ≡ false)
add_connection_failed_example =
    add_connection_failed shop (answering false) serving ping_failed unpinged

reserves_mine :
    (sc : Session) × (reserve (codes "mine") (new_session (codes "ab12"))
      ≡ ok (session_key (codes "ab12") (codes "mine"), sc))
unfolding reserve new_session
reserves_mine = (_, refl)

switches :
    (r : Manager × Call) × (set_active_for
        (codes "shop")
        (record { session = some (new_session (codes "ab12")); pin = some [] })
        serving
      ≡ some (r.0, r.1))
unfolding set_active_for new_session add_connection_if_absent new_manager
switches = ((_, _), refl)

set_active_for-IsVisible_example :
    (switches.0.0 ≡ serving)
    × ((key : Bytes) × (has key serving.connections ≡ true)
        × IsVisible (new_session (codes "ab12")) key
        × (switches.0.1.session ≡ some (record (new_session (codes "ab12")) { name = key }))
        × (switches.0.1.pin ≡ move_pin key (some [])))
set_active_for-IsVisible_example =
    set_active_for-IsVisible (codes "shop") (new_session (codes "ab12")) (some []) serving
      switches.0.0 switches.0.1 switches.1
