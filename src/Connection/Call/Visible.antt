-- ===== src/Connection/Call/Visible.antt =====
-- A call reaches the process-wide connections and its own session's.
use mysql_mcp_server.Prelude.{
  ◌≡◌, ◌⊎◌, inl, inr, refl, true, false, Option, some, arith, Bytes, equal, equal_iff, Option-cases,
}
use mysql_mcp_server.Prelude.Assoc.{lookup, has}
use mysql_mcp_server.Connection.Dial.{is_session_conn_key}
use mysql_mcp_server.Connection.Manager.{Manager}
use mysql_mcp_server.Connection.Session.{Session, resolve}
use mysql_mcp_server.Connection.Call.{Call, move_pin, choose, set_active_in, set_active_for}

-- A manager key that a session may use: no session's, or its own for some name.
abbrev pub IsVisible : Session → Bytes → Type 0
IsVisible sc key =
    (is_session_conn_key key ≡ false) ⊎ ((name : Bytes) × (lookup name sc.owned ≡ some key))

choose_parts :
    (name : Bytes) (sc : Session) (pin : Option Bytes) (cm cm' : Manager) (c' : Call)
    → choose name sc pin cm ≡ some (cm', c')
    → (cm' ≡ cm)
      × (has (resolve name sc) cm.connections ≡ true)
      × ((is_session_conn_key name ≡ false) ⊎ (equal (resolve name sc) name ≡ false))
      × (c'.session ≡ some (record sc { name = resolve name sc }))
      × (c'.pin ≡ move_pin (resolve name sc) pin)
unfolding choose
choose_parts name sc pin cm cm' c' h = ground arith

resolve-IsVisible :
    (name : Bytes) (sc : Session)
    → (is_session_conn_key name ≡ false) ⊎ (equal (resolve name sc) name ≡ false)
    → IsVisible sc (resolve name sc)
unfolding resolve
resolve-IsVisible name sc h = elim (Option-cases (lookup name sc.owned)) [
  | inr (key, e) ↦ inr (name, rw e refl)
  | inl e ↦ rw e (inl (open_name (rw e at h)))
]
  where
    open_name :
        (is_session_conn_key name ≡ false) ⊎ (equal name name ≡ false)
        → is_session_conn_key name ≡ false
    open_name k = ground (arith, equal_iff name name)

-- In a session, a switch that succeeds changes nothing process-wide; it ends on a registered
-- connection, which is the session's choice from then on, and a pinned call follows it. The key is no
-- session's, or one that the session registered.
pub set_active_for-IsVisible :
    (name : Bytes) (sc : Session) (pin : Option Bytes) (cm cm' : Manager) (c' : Call)
    → set_active_for name (record { session = some sc; pin = pin }) cm ≡ some (cm', c')
    → (cm' ≡ cm)
      × ((key : Bytes) × (has key cm.connections ≡ true)
          × IsVisible sc key
          × (c'.session ≡ some (record sc { name = key }))
          × (c'.pin ≡ move_pin key pin))
unfolding set_active_for set_active_in
set_active_for-IsVisible name sc pin cm cm' c' h =
    let (e, r, o, s, p) = choose_parts name sc pin cm cm' c' h in
    (e, (resolve name sc, r, resolve-IsVisible name sc o, s, p))
