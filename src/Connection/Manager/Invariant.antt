-- ===== src/Connection/Manager/Invariant.antt =====
-- Each locked section keeps the manager's maps consistent.
use mysql_mcp_server.Prelude.{
  ℕ, ◌≡◌, ◌⊎◌, inl, inr, refl, Bool, true, false, ◌||◌, [], ◌∷◌, Option, none, some, arith, Bytes,
  equal, equal_iff, equal_refl, Bool-cases, Option-cases,
}
use mysql_mcp_server.Prelude.Assoc.{Map, lookup, has, has-insert, has-delete}
use mysql_mcp_server.Connection.Dial.{ConnectionConfig, Opened, is_session_conn_key}
use mysql_mcp_server.Connection.Manager.{
  Manager, tear_down_pool, tear_down, insert_some, publish, register,
}

-- The maps of a manager have the keys that belong to its connections.
pub record SameKeys (cm : Manager) (k : Bytes) : Type 0 where
  pub in_configs : has k cm.configs ≡ has k cm.connections
  pub in_server_types : has k cm.server_types ≡ has k cm.connections
  pub in_tool_packs : has k cm.tool_packs ≡ has k cm.connections
  pub in_clients : has k cm.clients ≡ true → has k cm.connections ≡ true
  pub in_tunnels : has k cm.tunnel_closers ≡ true → has k cm.connections ≡ true

-- The process-wide connection is registered, and no session's.
pub record IsShared (cm : Manager) : Type 0 where
  pub registered : (cm.active_conn ≡ []) ⊎ (has cm.active_conn cm.connections ≡ true)
  pub no_session : is_session_conn_key cm.active_conn ≡ false

tear_down_pool-SameKeys :
    (name : Bytes) (p : ℕ) (cm : Manager) (k : Bytes)
    → SameKeys cm k
    → SameKeys (tear_down_pool name p cm) k
unfolding tear_down_pool
tear_down_pool-SameKeys name p cm k v = ground (
  arith,
  has-delete name k cm.connections,
  has-delete name k cm.clients,
  has-delete name k cm.configs,
  has-delete name k cm.server_types,
  has-delete name k cm.tool_packs,
  has-delete name k cm.tunnel_closers,
)

pub tear_down-SameKeys :
    (name : Bytes) (cm : Manager) (k : Bytes) → SameKeys cm k → SameKeys (tear_down name cm) k
unfolding tear_down
tear_down-SameKeys name cm k v = elim (Option-cases (lookup name cm.connections)) [
  | inl e ↦ rw (e, tear_down) v
  | inr (p, e) ↦ rw (e, tear_down) (tear_down_pool-SameKeys name p cm k v)
]

has-insert_some :
    (name k : Bytes) (o : Option ℕ) (m : Map ℕ)
    → has k (insert_some name o m) ≡ true
    → (equal name k || has k m) ≡ true
has-insert_some name k none m h = ground arith
has-insert_some name k (some v) m h = ground (arith, has-insert name k v m)

pub publish-SameKeys :
    (cfg : ConnectionConfig) (o : Opened) (cm : Manager) (k : Bytes)
    → SameKeys cm k
    → SameKeys (publish cfg o cm) k
unfolding publish
publish-SameKeys cfg o cm k v = ground (
  arith,
  has-insert cfg.name k o.pool cm.connections,
  has-insert cfg.name k o.pool cm.clients,
  has-insert cfg.name k cfg cm.configs,
  has-insert cfg.name k o.server_type cm.server_types,
  has-insert cfg.name k o.pack_version cm.tool_packs,
  has-insert_some cfg.name k o.tunnel cm.tunnel_closers,
)

pub register-SameKeys :
    (replace : Bool) (cfg : ConnectionConfig) (o : Opened) (cm : Manager) (k : Bytes)
    → SameKeys cm k
    → SameKeys (register replace cfg o cm).0 k
unfolding register
register-SameKeys replace cfg o cm k v = ground (
  arith,
  publish-SameKeys cfg o cm k v,
  publish-SameKeys cfg o (tear_down cfg.name cm) k (tear_down-SameKeys cfg.name cm k v),
)

pub lookup-absent : (k : Bytes) {V : Type 0} (m : Map V) → lookup k m ≡ none → has k m ≡ false
unfolding lookup has
lookup-absent k [] h = refl
lookup-absent k ((i, w) ∷ m) h = elim (Bool-cases (equal i k)) [
  | inl e ↦ absurd (let f : some w ≡ none = rw e at h in cc)
  | inr e ↦ rw e (lookup-absent k m (rw e at h))
]

pub lookup-has : (k : Bytes) {V : Type 0} (m : Map V) (v : V) → lookup k m ≡ some v → has k m ≡ true
unfolding lookup has
lookup-has k [] v h = cc
lookup-has k ((i, w) ∷ m) v h = elim (Bool-cases (equal i k)) [
  | inl e ↦ rw e refl
  | inr e ↦ rw e (lookup-has k m v (rw e at h))
]

pub empty_no_session : is_session_conn_key [] ≡ false
unfolding is_session_conn_key
empty_no_session = refl

tear_down_pool-IsShared :
    (name : Bytes) (p : ℕ) (cm : Manager) → IsShared cm → IsShared (tear_down_pool name p cm)
unfolding tear_down_pool
tear_down_pool-IsShared name p cm v = ground (
  arith,
  has-delete name cm.active_conn cm.connections,
  equal_iff name cm.active_conn,
  equal_iff cm.active_conn name,
  empty_no_session,
)

pub tear_down-IsShared : (name : Bytes) (cm : Manager) → IsShared cm → IsShared (tear_down name cm)
unfolding tear_down
tear_down-IsShared name cm v = elim (Option-cases (lookup name cm.connections)) [
  | inl e ↦ rw (e, tear_down) v
  | inr (p, e) ↦ rw (e, tear_down) (tear_down_pool-IsShared name p cm v)
]

pub publish-IsShared :
    (cfg : ConnectionConfig) (o : Opened) (cm : Manager) → IsShared cm → IsShared (publish cfg o cm)
unfolding publish
publish-IsShared cfg o cm v = ground (
  arith,
  has-insert cfg.name cm.active_conn o.pool cm.connections,
  has-insert cfg.name cfg.name o.pool cm.connections,
  equal_refl cfg.name,
  equal_iff cm.active_conn [],
)

pub register-IsShared :
    (replace : Bool) (cfg : ConnectionConfig) (o : Opened) (cm : Manager)
    → IsShared cm
    → IsShared (register replace cfg o cm).0
unfolding register
register-IsShared replace cfg o cm v = ground (
  arith,
  publish-IsShared cfg o cm v,
  publish-IsShared cfg o (tear_down cfg.name cm) (tear_down-IsShared cfg.name cm v),
)
