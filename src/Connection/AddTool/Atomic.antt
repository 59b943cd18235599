-- ===== src/Connection/AddTool/Atomic.antt =====
-- `toolAddConnection` in a session adds and switches, or leaves everything as it was.
use mysql_mcp_server.Prelude.{
  ◌≡◌, ◌⊎◌, inl, inr, refl, sym, subst, ap, ◌∙◌, Bool, true, false, List, [], Option, none, some,
  arith, Bytes, equal_refl, Bool-cases, Result, ok, err, Result-cases, err-injective,
}
use mysql_mcp_server.Prelude.Assoc.{Map, has, insert, lookup-insert}
use mysql_mcp_server.Connection.Dial.{
  Resource, AddError, World, ConnectionConfig, is_session_conn_key,
}
use mysql_mcp_server.Connection.Manager.{Manager, log, add_connection_if_absent}
use mysql_mcp_server.Connection.Manager.Adding.{add_err, add_ok, delete-insert}
use mysql_mcp_server.Connection.Manager.Invariant.{lookup-has}
use mysql_mcp_server.Connection.Session.{Session, session_key, reserve, release, resolve}
use mysql_mcp_server.Connection.Session.Keys.{reserve_parts, session_key-is_session}
use mysql_mcp_server.Connection.Call.{choose, set_active_in, move_pin}
use mysql_mcp_server.Connection.AddTool.{
  ToolError, add_failed, not_when_stateless, exists, reserve_failed, Outcome, activate, settle,
  refused, keyed, add_in_session,
}

abbrev with_key : Bytes → Session → Session
with_key name sc = record sc { owned = insert name (session_key sc.id name) sc.owned }

release-with_key :
    (name : Bytes) (sc : Session) → has name sc.owned ≡ false → release name (with_key name sc) ≡ sc
unfolding release
release-with_key name sc h =
    ap (λ (m : Map Bytes). record sc { owned = m })
      (delete-insert name (session_key sc.id name) sc.owned h)

-- The name that was reserved resolves to its key, so the switch to it succeeds.
choose-with_key :
    (name : Bytes) (sc : Session) (pin : Option Bytes) (cm : Manager)
    → is_session_conn_key name ≡ false
    → has (session_key sc.id name) cm.connections ≡ true
    → choose name (with_key name sc) pin cm
      ≡ some (
        cm,
        record {
          session = some (record (with_key name sc) { name = session_key sc.id name });
          pin = move_pin (session_key sc.id name) pin;
        },
      )
unfolding choose resolve
choose-with_key name sc pin cm s h =
    rw (lookup-insert name name (session_key sc.id name) sc.owned)
      (rw (equal_refl name) (rw s (rw h refl)))

-- What the call left behind when it reports an error: nothing but the log of what it closed.
pub record Unchanged (sc : Session) (pin : Option Bytes) (cm : Manager) (r : Outcome) : Type 0 where
  pub session : r.session ≡ some sc
  pub pin_kept : r.pin ≡ pin
  pub closed : List Resource
  pub manager : r.manager ≡ log closed cm

-- What the call left behind when it succeeds: the connection stands under the session's key for the
-- name, and the session and the call have switched to it.
pub record Switched (name : Bytes) (sc : Session) (pin : Option Bytes) (cm : Manager) (r : Outcome)
    : Type 0 where
  pub session : r.session ≡ some (record (with_key name sc) { name = session_key sc.id name })
  pub pin_moved : r.pin ≡ move_pin (session_key sc.id name) pin
  pub was_free : has (session_key sc.id name) cm.connections ≡ false
  pub registered : has (session_key sc.id name) r.manager.connections ≡ true
  pub active : r.manager.active_conn ≡ cm.active_conn

-- The connection is added and chosen, or an error is reported and nothing has changed.
abbrev pub IsAtomic : Bytes → Session → Option Bytes → Manager → Outcome → Type 0
IsAtomic name sc pin cm r =
    ((r.error ≡ none) × Switched name sc pin cm r)
    ⊎ ((e : ToolError) × (r.error ≡ some e) × Unchanged sc pin cm r)

refused-IsAtomic :
    (name : Bytes) (sc : Session) (pin : Option Bytes) (cm : Manager) (e : ToolError)
    (rs : List Resource)
    → IsAtomic name sc pin cm (refused (log rs cm) (some sc) pin e)
refused-IsAtomic name sc pin cm e rs =
    inr (e, refl, record { session = refl; pin_kept = refl; closed = rs; manager = refl })

switched : Bytes → Session → Option Bytes → Manager → Outcome
switched name sc pin cm = record {
  manager = cm;
  session = some (record (with_key name sc) { name = session_key sc.id name });
  pin = move_pin (session_key sc.id name) pin;
  error = none;
}

settle-ok :
    (name : Bytes) (sc : Session) (pin : Option Bytes) (p : Manager × Result AddError (Unit {0}))
    → is_session_conn_key name ≡ false
    → has (session_key sc.id name) p.0.connections ≡ true
    → p.1 ≡ ok tt
    → settle name (session_key sc.id name) (some (with_key name sc)) pin false p
      ≡ switched name sc pin p.0
unfolding settle activate set_active_in switched
settle-ok name sc pin (cm, ok _) s h e = rw (choose-with_key name sc pin cm s h) refl
settle-ok name sc pin (cm, err d) s h e = absurd (cc)

settle-err :
    (name : Bytes) (sc : Session) (pin : Option Bytes) (p : Manager × Result AddError (Unit {0}))
    (e : AddError)
    → has name sc.owned ≡ false
    → p.1 ≡ err e
    → settle name (session_key sc.id name) (some (with_key name sc)) pin false p
      ≡ refused p.0 (some sc) pin (add_failed e)
unfolding settle
settle-err name sc pin (cm, ok _) e h k = absurd (cc)
settle-err name sc pin (cm, err d) e h k =
    let f : d ≡ e = err-injective k in rw (release-with_key name sc h) (rw f refl)

settle-IsAtomic :
    (name : Bytes) (cfg : ConnectionConfig) (w : World) (sc : Session) (pin : Option Bytes)
    (cm : Manager)
    → is_session_conn_key name ≡ false
    → has name sc.owned ≡ false
    → let r =
        settle name
          (session_key sc.id name)
          (some (with_key name sc))
          pin
          false
          (add_connection_if_absent (keyed (session_key sc.id name) cfg) w cm) in
      IsAtomic name sc pin cm r
unfolding switched
settle-IsAtomic name cfg w sc pin cm s h =
    let key = session_key sc.id name in
    let p = add_connection_if_absent (keyed key cfg) w cm in
    elim (Result-cases p.1) [
      | inr (e, f) ↦
          let (rs, g) = add_err (keyed key cfg) w cm e f in
          subst (IsAtomic name sc pin cm) (sym (settle-err name sc pin p e h f)) (
            subst (λ m. IsAtomic name sc pin cm (refused m (some sc) pin (add_failed e))) (sym g)
              (refused-IsAtomic name sc pin cm (add_failed e) rs))
      | inl (u, f) ↦
          let (o, d, a) = add_ok (keyed key cfg) w cm key f in
          let there : has key p.0.connections ≡ true =
            lookup-has key p.0.connections o.pool (a.pools ∙ rw (equal_refl key) refl) in
          subst (IsAtomic name sc pin cm) (sym (settle-ok name sc pin p s there f)) (
            inl (
              refl,
              record {
                session = refl;
                pin_moved = refl;
                was_free = a.was_free;
                registered = there;
                active = a.active ∙ rw (session_key-is_session sc.id name) (ground arith);
              },
            ))
    ]

-- While its session does not end, a call of `add_connection` over MCP HTTP for a name that is no
-- session key either reports no error, and then its connection is newly registered under the
-- session's key for the name, the session has switched to it and the process-wide choice is as
-- before; or it reports an error, and then session and pin are as before, and so is the manager,
-- but for the log of what was closed.
pub add_in_session-IsAtomic :
    (name : Bytes) (cfg : ConnectionConfig) (w : World) (stateless : Bool) (sc : Session)
    (pin : Option Bytes) (cm : Manager)
    → is_session_conn_key name ≡ false
    → let r = add_in_session name cfg w stateless false sc pin cm in IsAtomic name sc pin cm r
unfolding add_in_session
add_in_session-IsAtomic name cfg w true sc pin cm s =
    refused-IsAtomic name sc pin cm not_when_stateless []
add_in_session-IsAtomic name cfg w false sc pin cm s = elim (Bool-cases (has name cm.connections)) [
  | inl h ↦ rw h (refused-IsAtomic name sc pin cm exists [])
  | inr h ↦ elim (Result-cases (reserve name sc)) [
    | inr (e, f) ↦ rw h (rw f (refused-IsAtomic name sc pin cm (reserve_failed e) []))
    | inl ((key, sc'), f) ↦
        let (c, g, l, k, t) = reserve_parts name sc f in
        rw h (rw f (rw k (rw t (settle-IsAtomic name cfg w sc pin cm s g))))
  ]
]
