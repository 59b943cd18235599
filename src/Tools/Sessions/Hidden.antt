-- ===== src/Tools/Sessions/Hidden.antt =====
-- What `toolListConnections` of cmd/mysql-mcp-server/tools.go keeps from a session.
use mysql_mcp_server.Prelude.{
  ◌≡◌, ◌∙◌, refl, sym, ap, inl, inr, Bool, true, false, not, ◌||◌, List, [], ◌∷◌, any, Option, none,
  some, Bytes, equal, arith, if◌then◌else◌, Bool-cases,
}
use mysql_mcp_server.Prelude.Assoc.{Map, lookup, has, insert, has-insert, has-lookup}
use mysql_mcp_server.Config.Types.{ConnectionConfig}
use mysql_mcp_server.Connection.Dial.{is_session_conn_key}
use mysql_mcp_server.Connection.Manager.{Manager, list_connections}
use mysql_mcp_server.Connection.Session.{Session, values}
use mysql_mcp_server.Connection.Call.{Call, active_for}
use mysql_mcp_server.Tools.Sessions.{
  ConnectionInfo, names_by_key, owned_by, shown, info_of, add_if, connection_infos,
  tool_list_connections,
}

-- The keys of the connections that a call's session has registered.
abbrev pub own_keys : Option Session → List Bytes
own_keys none = []
own_keys (some sc) = values (sc.owned)

-- A configuration that the call may see: a shared one, or one of its session.
abbrev pub is_visible_to : Option Session → ConnectionConfig → Bool
is_visible_to session cfg =
    not (is_session_conn_key (cfg.name)) || any (λ k. equal k (cfg.name)) (own_keys session)

-- The configurations without those that the call may not see.
abbrev pub visible_configs : Option Session → List ConnectionConfig → List ConnectionConfig
visible_configs session [] = []
visible_configs session (cfg ∷ cfgs) =
    let rest = visible_configs session cfgs in
    if is_visible_to session cfg then cfg ∷ rest else rest

has-names_by_key :
    (k : Bytes) (names owned : Map Bytes)
    → has k (names_by_key names owned) ≡ (any (λ j. equal j k) (values names) || has k owned)
unfolding names_by_key
has-names_by_key k [] owned = refl
has-names_by_key k ((name, key) ∷ names) owned =
    ground (arith, has-names_by_key k names (insert key name owned), has-insert key k name owned)

has-owned_by :
    (k : Bytes) (session : Option Session)
    → has k (owned_by session) ≡ any (λ j. equal j k) (own_keys session)
unfolding has
has-owned_by k none = refl
has-owned_by k (some sc) = ground (arith, has-names_by_key k (sc.owned) [])

lookup-absent : {V : Type 0} (k : Bytes) (m : Map V) → has k m ≡ false → lookup k m ≡ none
unfolding has lookup
lookup-absent k [] h = refl
lookup-absent k ((j, v) ∷ m) h = ground (arith, lookup-absent k m)

shown-hidden :
    (session : Option Session) (key : Bytes) (cfg : ConnectionConfig)
    → is_visible_to session cfg ≡ false
    → shown (owned_by session) key cfg ≡ none
unfolding shown
shown-hidden session key cfg h =
    let s : is_session_conn_key (cfg.name) ≡ true = ground arith in
    let a : has (cfg.name) (owned_by session) ≡ false =
      ground (arith, has-owned_by (cfg.name) session) in
    rw (s, lookup-absent (cfg.name) (owned_by session) a) refl

shown-visible :
    (session : Option Session) (key : Bytes) (cfg : ConnectionConfig)
    → is_visible_to session cfg ≡ true
    → (info : ConnectionInfo) × (shown (owned_by session) key cfg ≡ some info)
      × (info.dsn ≡ cfg.dsn)
unfolding shown
shown-visible session key cfg h = elim (Bool-cases (is_session_conn_key (cfg.name))) [
  | inr s ↦ (info_of (cfg.name) key cfg, rw s refl, refl)
  | inl s ↦
      let p : has (cfg.name) (owned_by session) ≡ true =
        ground (arith, has-owned_by (cfg.name) session) in
      let (name, l) = has-lookup (cfg.name) (owned_by session) p in
      (info_of name key cfg, rw (s, l) refl, refl)
]

abbrev pub dsns : List ConnectionInfo → List Bytes
dsns [] = []
dsns (i ∷ is) = i.dsn ∷ dsns is

abbrev pub dsns_of : List ConnectionConfig → List Bytes
dsns_of [] = []
dsns_of (c ∷ cs) = c.dsn ∷ dsns_of cs

dsns-add_if :
    (o : Option ConnectionInfo) (info : ConnectionInfo) (rest : List ConnectionInfo)
    → o ≡ some info
    → dsns (add_if o rest) ≡ info.dsn ∷ dsns rest
dsns-add_if o info rest e = ap (λ p. dsns (add_if p rest)) e

connection_infos-dsns :
    (session : Option Session) (key : Bytes) (cfgs : List ConnectionConfig)
    → dsns (connection_infos (owned_by session) key cfgs) ≡ dsns_of (visible_configs session cfgs)
unfolding connection_infos
connection_infos-dsns session key [] = refl
connection_infos-dsns session key (cfg ∷ cfgs) = elim (Bool-cases (is_visible_to session cfg)) [
  | inr h ↦
      ap (λ o. dsns (add_if o (connection_infos (owned_by session) key cfgs)))
        (shown-hidden session key cfg h)
      ∙ connection_infos-dsns session key cfgs
      ∙ ap
          (λ b.
            dsns_of
              (if b then cfg ∷ visible_configs session cfgs else visible_configs session cfgs))
          (sym h)
  | inl h ↦
      let (info, e, d) = shown-visible session key cfg h in
      dsns-add_if (shown (owned_by session) key cfg) info
        (connection_infos (owned_by session) key cfgs) e
      ∙ ap (λ x. x ∷ dsns (connection_infos (owned_by session) key cfgs)) d
      ∙ ap (λ t. cfg.dsn ∷ t) (connection_infos-dsns session key cfgs)
      ∙ ap
          (λ b.
            dsns_of
              (if b then cfg ∷ visible_configs session cfgs else visible_configs session cfgs))
          (sym h)
]

-- `toolListConnections` shows the shared connections and those that the call's session has
-- registered, each once and in order, and no other session's: their masked DSNs are what it shows.
pub tool_list_connections-dsns :
    (cm : Manager) (c : Call)
    → dsns ((tool_list_connections cm c).connections)
      ≡ dsns_of (visible_configs (c.session) (list_connections cm))
unfolding tool_list_connections
tool_list_connections-dsns cm c =
    connection_infos-dsns (c.session) ((active_for cm c).1) (list_connections cm)
