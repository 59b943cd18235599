-- ===== src/Connection/Manager/Capacity.antt =====
-- The connections of MCP sessions, registered or being added, stay within their limit.
use mysql_mcp_server.Prelude.{
  ℕ, ◌+◌, ◌≤◌, ◌≡◌, ◌⊎◌, inl, inr, Bool, true, false, not, ◌&&◌, arith, Bytes, equal, equal_iff,
  equal_refl, ok, Bool-cases, Option-cases,
}
use native.Mathlib.Nat.{le_trans}
use mysql_mcp_server.Prelude.Assoc.{
  Map, lookup, has, insert, delete, count, has-insert, has-delete, count-insert, count-delete,
  count-delete-has, count-le, count-lt, count-add, count-absent,
}
use mysql_mcp_server.Connection.Dial.{ConnectionConfig, Opened, is_session_conn_key}
use mysql_mcp_server.Connection.Manager.{
  Manager, tear_down_pool, tear_down, max_total_session_connections, session_conn_count,
  reserve_name, unreserve_name, publish, register,
}
use mysql_mcp_server.Connection.Manager.Invariant.{lookup-has, lookup-absent}

-- A name is reserved at most once.
abbrev pub IsOnce : Manager → Type 0
IsOnce cm = (k : Bytes) → count (λ j. equal j k) cm.pending_adds ≤ 1

abbrev pub IsWithin : Manager → Type 0
IsWithin cm = session_conn_count cm ≤ max_total_session_connections

-- A session key that is being added and not registered.
abbrev being_added : Map ℕ → Bytes → Bool
being_added connections name = is_session_conn_key name && not (has name connections)

pub reserve_name-IsOnce :
    (name : Bytes) (cm : Manager) {cm' : Manager}
    → reserve_name name cm ≡ ok cm'
    → IsOnce cm
    → IsOnce cm'
unfolding reserve_name
reserve_name-IsOnce name cm h once k = ground (
  arith,
  once k,
  count-insert (λ j. equal j k) name tt cm.pending_adds,
  count-absent k cm.pending_adds,
  equal_iff name k,
)

pub reserve_name-IsWithin :
    (name : Bytes) (cm : Manager) {cm' : Manager}
    → reserve_name name cm ≡ ok cm'
    → IsWithin cm
    → IsWithin cm'
unfolding reserve_name session_conn_count
reserve_name-IsWithin name cm h w =
    ground (arith, count-insert (being_added cm.connections) name tt cm.pending_adds)

pub unreserve_name-IsOnce :
    (name : Bytes) (cm : Manager) → IsOnce cm → IsOnce (unreserve_name name cm)
unfolding unreserve_name
unreserve_name-IsOnce name cm once k =
    omega (arith, once k, count-delete (λ j. equal j k) name cm.pending_adds)

pub unreserve_name-IsWithin :
    (name : Bytes) (cm : Manager) → IsWithin cm → IsWithin (unreserve_name name cm)
unfolding unreserve_name session_conn_count
unreserve_name-IsWithin name cm w =
    omega (arith, count-delete (being_added cm.connections) name cm.pending_adds)

tear_down_pool-le :
    (name : Bytes) (p : ℕ) (cm : Manager)
    → IsOnce cm
    → has name cm.connections ≡ true
    → session_conn_count (tear_down_pool name p cm) ≤ session_conn_count cm
unfolding tear_down_pool session_conn_count
tear_down_pool-le name p cm once h = elim (Bool-cases (is_session_conn_key name)) [
  | inl s ↦ omega (
    arith,
    once name,
    count-delete-has is_session_conn_key name cm.connections h s,
    count-add (being_added cm.connections) (being_added (delete name cm.connections)) name
        cm.pending_adds
        (λ j q.
          ground (arith, has-delete name j cm.connections, equal_iff j name, equal_iff name j)),
  )
  | inr s ↦ omega (
    arith,
    count-delete is_session_conn_key name cm.connections,
    count-le (being_added (delete name cm.connections)) (being_added cm.connections) cm.pending_adds
        (λ j q. ground (arith, has-delete name j cm.connections, equal_iff name j)),
  )
]

pub tear_down-le :
    (name : Bytes) (cm : Manager)
    → IsOnce cm
    → session_conn_count (tear_down name cm) ≤ session_conn_count cm
unfolding tear_down
tear_down-le name cm once = elim (Option-cases (lookup name cm.connections)) [
  | inl e ↦ rw (e, tear_down) (omega arith)
  | inr (p, e) ↦
      rw (e, tear_down) (tear_down_pool-le name p cm once (lookup-has name cm.connections p e))
]

-- Registering a name that is reserved, or no session's, makes no more of them.
publish-le :
    (cfg : ConnectionConfig) (o : Opened) (cm : Manager)
    → has cfg.name cm.connections ≡ false
    → (is_session_conn_key cfg.name ≡ false) ⊎ (has cfg.name cm.pending_adds ≡ true)
    → session_conn_count (publish cfg o cm) ≤ session_conn_count cm
unfolding publish session_conn_count
publish-le cfg o cm a h = elim (Bool-cases (is_session_conn_key cfg.name)) [
  | inl s ↦ omega (
    arith,
    registered s,
    count-lt (being_added (insert cfg.name o.pool cm.connections)) (being_added cm.connections)
        cfg.name cm.pending_adds fewer (reserved s)
        (ground (arith, has-insert cfg.name cfg.name o.pool cm.connections, equal_refl cfg.name))
        (ground arith),
  )
  | inr s ↦ omega (
    arith,
    unregistered s,
    count-le (being_added (insert cfg.name o.pool cm.connections)) (being_added cm.connections)
        cm.pending_adds fewer,
  )
]
  where
    fewer :
        (j : Bytes)
        → being_added (insert cfg.name o.pool cm.connections) j ≡ true
        → being_added cm.connections j ≡ true
    fewer j q = ground (arith, has-insert cfg.name j o.pool cm.connections)

    reserved : is_session_conn_key cfg.name ≡ true → has cfg.name cm.pending_adds ≡ true
    reserved s = ground arith

    registered :
        is_session_conn_key cfg.name ≡ true
        → count is_session_conn_key (insert cfg.name o.pool cm.connections)
          ≡ count is_session_conn_key cm.connections + 1
    registered s = ground (arith, count-insert is_session_conn_key cfg.name o.pool cm.connections)

    unregistered :
        is_session_conn_key cfg.name ≡ false
        → count is_session_conn_key (insert cfg.name o.pool cm.connections)
          ≡ count is_session_conn_key cm.connections
    unregistered s = ground (arith, count-insert is_session_conn_key cfg.name o.pool cm.connections)

tear_down-pending :
    (name : Bytes) (cm : Manager) → (tear_down name cm).pending_adds ≡ cm.pending_adds
unfolding tear_down tear_down_pool
tear_down-pending name cm = ground arith

pub tear_down-absent :
    (name : Bytes) (cm : Manager) → has name (tear_down name cm).connections ≡ false
unfolding tear_down tear_down_pool
tear_down-absent name cm = elim (Option-cases (lookup name cm.connections)) [
  | inl e ↦ rw (e, tear_down) (lookup-absent name cm.connections e)
  | inr (p, e) ↦
      rw (e, tear_down) (ground (arith, has-delete name name cm.connections, equal_refl name))
]

register_again :
    (replace : Bool) (cfg : ConnectionConfig) (o : Opened) (cm : Manager)
    → IsOnce cm
    → (is_session_conn_key cfg.name ≡ false) ⊎ (has cfg.name cm.pending_adds ≡ true)
    → has cfg.name cm.connections ≡ true
    → session_conn_count (register replace cfg o cm).0 ≤ session_conn_count cm
unfolding register
register_again true cfg o cm once h e =
    rw (e, register)
      (le_trans
        (publish-le cfg o (tear_down cfg.name cm) (tear_down-absent cfg.name cm)
          (rw (tear_down-pending cfg.name cm) h))
        (tear_down-le cfg.name cm once))
register_again false cfg o cm once h e = rw (e, register) (unfold session_conn_count in omega arith)

register_within :
    (replace : Bool) (cfg : ConnectionConfig) (o : Opened) (cm : Manager)
    → IsOnce cm
    → (is_session_conn_key cfg.name ≡ false) ⊎ (has cfg.name cm.pending_adds ≡ true)
    → session_conn_count (register replace cfg o cm).0 ≤ session_conn_count cm
unfolding register
register_within replace cfg o cm once h = elim (Bool-cases (has cfg.name cm.connections)) [
  | inr a ↦ rw (a, register) (publish-le cfg o cm a h)
  | inl e ↦ register_again replace cfg o cm once h e
]

pub register-IsWithin :
    (replace : Bool) (cfg : ConnectionConfig) (o : Opened) (cm : Manager)
    → IsOnce cm
    → (is_session_conn_key cfg.name ≡ false) ⊎ (has cfg.name cm.pending_adds ≡ true)
    → IsWithin cm
    → IsWithin (register replace cfg o cm).0
register-IsWithin replace cfg o cm once h w = le_trans (register_within replace cfg o cm once h) w

pub register-IsOnce :
    (replace : Bool) (cfg : ConnectionConfig) (o : Opened) (cm : Manager)
    → IsOnce cm
    → IsOnce (register replace cfg o cm).0
unfolding register publish
register-IsOnce replace cfg o cm once k = ground (arith, once k, tear_down-pending cfg.name cm)

pub tear_down-IsOnce : (name : Bytes) (cm : Manager) → IsOnce cm → IsOnce (tear_down name cm)
tear_down-IsOnce name cm once = rw (tear_down-pending name cm) once
