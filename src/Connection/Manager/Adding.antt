-- ===== src/Connection/Manager/Adding.antt =====
-- What an add leaves behind: nothing that it opened stays open unregistered.
use mysql_mcp_server.Prelude.{
  ℕ, ◌≡◌, inl, inr, refl, sym, ap, subst, ◌∙◌, Bool, true, false, not, ◌&&◌, ◌||◌, List, [], ◌∷◌,
  ◌++◌, Option, none, some, arith, Bytes, equal, equal_refl, if◌then◌else◌, Result, ok, err,
  Result-cases, err-injective,
}
use mysql_mcp_server.Prelude.Assoc.{Map, lookup, has, insert, delete, lookup-insert}
use mysql_mcp_server.Connection.Dial.{
  ConnectionConfig, Resource, pool, tunnels, AddError, World, Opened, uses_ssh, open_and_ping, dial,
  is_session_conn_key,
}
use mysql_mcp_server.Connection.Manager.{
  Manager, log, tear_down, reserve_name, unreserve_name, publish, register, attempt, unreserved,
  add_connection_if_absent, add_connection,
}
use mysql_mcp_server.Connection.Manager.Capacity.{tear_down-absent}

-- The tunnel and the pool that the world opens in an attempt.
abbrev pub opened_tunnel : ConnectionConfig → World → Option ℕ
opened_tunnel cfg w =
    if w.dsn_parses && (uses_ssh cfg.ssh && w.tunnel_dsn_parses) then w.tunnel_opens else none

abbrev is_some : Option ℕ → Bool
is_some none = false
is_some (some n) = true

abbrev pub opened_pool : ConnectionConfig → World → Option ℕ
opened_pool cfg w =
    if w.dsn_parses && (not (uses_ssh cfg.ssh) || (w.tunnel_dsn_parses && is_some w.tunnel_opens))
    then w.pool_opens
    else none

abbrev pools : Option ℕ → List Resource
pools none = []
pools (some p) = pool p ∷ []

-- A failed attempt has closed all that it opened; one that succeeds hands on all that it opened.
abbrev pub Accounted : ConnectionConfig → World → Result AddError Opened × List Resource → Type 0
Accounted cfg w (err e, closed) =
    closed ≡ tunnels (opened_tunnel cfg w) ++ pools (opened_pool cfg w)
Accounted cfg w (ok o, closed) =
    (closed ≡ []) × (some o.pool ≡ opened_pool cfg w) × (o.tunnel ≡ opened_tunnel cfg w)

-- However the world answers, an attempt that fails has closed exactly the tunnel and the pool that
-- were opened for it, the tunnel last; one that succeeds has closed nothing and holds both.
pub dial-Accounted : (cfg : ConnectionConfig) (w : World) → Accounted cfg w (dial cfg w)
unfolding dial open_and_ping
dial-Accounted cfg w = ground arith

module _ {V : Type 0} where
  delete-absent : (k : Bytes) (m : Map V) → has k m ≡ false → delete k m ≡ m
  unfolding delete has
  delete-absent k [] h = refl
  delete-absent k ((i, w) ∷ m) h = ground (arith, delete-absent k m)

  pub delete-insert :
      (k : Bytes) (v : V) (m : Map V) → has k m ≡ false → delete k (insert k v m) ≡ m
  unfolding delete insert has
  delete-insert k v [] h = ground (arith, equal_refl k)
  delete-insert k v ((i, w) ∷ m) h = ground (arith, delete-insert k v m)

reserve_name_parts :
    (name : Bytes) (cm : Manager) {cm' : Manager}
    → reserve_name name cm ≡ ok cm'
    → (has name cm.connections ≡ false)
      × (has name cm.pending_adds ≡ false)
      × (cm' ≡ record cm { pending_adds = insert name tt cm.pending_adds })
unfolding reserve_name
reserve_name_parts name cm h = ground arith

abbrev reserved_for : Bytes → Manager → Manager
reserved_for name cm = record cm { pending_adds = insert name tt cm.pending_adds }

unreserve_name-reserved :
    (name : Bytes) (rs : List Resource) (cm : Manager)
    → has name cm.pending_adds ≡ false
    → unreserve_name name (log rs (reserved_for name cm)) ≡ log rs cm
unfolding unreserve_name
unreserve_name-reserved name rs cm h =
    ap (λ (m : Map (Unit {0})). record cm { pending_adds = m; closed = rs ++ cm.closed })
      (delete-insert name tt cm.pending_adds h)

-- The end of an add whose name was free and is now reserved.
module _ (cfg : ConnectionConfig) (cm : Manager) (free : has cfg.name cm.connections ≡ false)
    (idle : has cfg.name cm.pending_adds ≡ false) where
  abbrev finish : Result AddError Opened × List Resource → Manager × Result AddError (Unit {0})
  finish r = unreserved cfg.name (attempt false cfg r (reserved_for cfg.name cm))

  finish_err :
      (r : Result AddError Opened × List Resource) (e : AddError)
      → (finish r).1 ≡ err e
      → ((finish r).0 ≡ log r.1 cm) × (r.0 ≡ err e)
  unfolding attempt register
  finish_err (err d, closed) e h =
      (unreserve_name-reserved cfg.name closed cm idle, ap err (err-injective h))
  finish_err (ok o, closed) e h =
      absurd (let k : ◌≡◌ {A = Result AddError (Unit {0})} (ok tt) (err e) = rw free at h in cc)

  finish_ok :
      (r : Result AddError Opened × List Resource)
      → (finish r).1 ≡ ok tt
      → (o : Opened) × (r.0 ≡ ok o)
        × ((finish r).0
            ≡ unreserve_name cfg.name (publish cfg o (log r.1 (reserved_for cfg.name cm))))
  unfolding attempt register
  finish_ok (err d, closed) h = cc
  finish_ok (ok o, closed) h = (o, refl, rw free refl)

-- An add-if-absent that returns an error leaves the manager as it was, but for the log of what was
-- closed: no registration, no choice and no reservation has changed.
pub add_err :
    (cfg : ConnectionConfig) (w : World) (cm : Manager) (e : AddError)
    → (add_connection_if_absent cfg w cm).1 ≡ err e
    → (rs : List Resource) × ((add_connection_if_absent cfg w cm).0 ≡ log rs cm)
unfolding add_connection_if_absent
add_err cfg w cm e h = elim (Result-cases (reserve_name cfg.name cm)) [
  | inr (d, f) ↦ ([], rw (f, add_connection_if_absent) refl)
  | inl (cm', f) ↦
      let (free, idle, g) = reserve_name_parts cfg.name cm f in
      let k : (finish cfg cm free idle (dial cfg w)).1 ≡ err e =
        rw (← g) (rw (f, add_connection_if_absent) at h) in
      (
        (dial cfg w).1,
        rw (f, add_connection_if_absent) (rw g (finish_err cfg cm free idle (dial cfg w) e k).0),
      )
]

publish_parts :
    (cfg : ConnectionConfig) (o : Opened) (cm : Manager) (k : Bytes)
    → (lookup k (publish cfg o cm).connections
        ≡ (if equal cfg.name k then some o.pool else lookup k cm.connections))
      × (lookup k (publish cfg o cm).configs
          ≡ (if equal cfg.name k then some cfg else lookup k cm.configs))
      × ((publish cfg o cm).pending_adds ≡ cm.pending_adds)
      × ((publish cfg o cm).active_conn ≡ (
          if equal cm.active_conn [] && not (is_session_conn_key cfg.name)
          then cfg.name
          else cm.active_conn))
unfolding publish
publish_parts cfg o cm k = (
  lookup-insert cfg.name k o.pool cm.connections,
  lookup-insert cfg.name k cfg cm.configs,
  refl,
  refl,
)

-- What a successful add-if-absent has done to the manager, for the name `k`.
pub record Added (cfg : ConnectionConfig) (o : Opened) (cm cm' : Manager) (k : Bytes) : Type 0 where
  pub was_free : has cfg.name cm.connections ≡ false
  pub was_idle : has cfg.name cm.pending_adds ≡ false
  pub pools :
      lookup k cm'.connections ≡ (if equal cfg.name k then some o.pool else lookup k cm.connections)
  pub config : lookup k cm'.configs ≡ (if equal cfg.name k then some cfg else lookup k cm.configs)
  pub pending : cm'.pending_adds ≡ cm.pending_adds
  pub active : cm'.active_conn ≡ (
      if equal cm.active_conn [] && not (is_session_conn_key cfg.name)
      then cfg.name
      else cm.active_conn)

finish_ok-Added :
    (cfg : ConnectionConfig) (o : Opened) (rs : List Resource) (cm : Manager) (k : Bytes)
    → has cfg.name cm.connections ≡ false
    → has cfg.name cm.pending_adds ≡ false
    → Added cfg o cm (unreserve_name cfg.name (publish cfg o (log rs (reserved_for cfg.name cm)))) k
unfolding unreserve_name
finish_ok-Added cfg o rs cm k free idle =
    let (c, d, p, a) = publish_parts cfg o (log rs (reserved_for cfg.name cm)) k in
    record {
      was_free = free;
      was_idle = idle;
      pools = c;
      config = d;
      pending = ap (delete cfg.name) p ∙ delete-insert cfg.name tt cm.pending_adds idle;
      active = a;
    }

-- An add-if-absent that succeeds found the name free and not being added; it registers the pool of
-- its attempt and its configuration under the name and no other, leaves no reservation, and
-- becomes the process-wide connection only if there was none and the name is no session key.
pub add_ok :
    (cfg : ConnectionConfig) (w : World) (cm : Manager) (k : Bytes)
    → (add_connection_if_absent cfg w cm).1 ≡ ok tt
    → (o : Opened) × ((dial cfg w).0 ≡ ok o)
      × Added cfg o cm (add_connection_if_absent cfg w cm).0 k
unfolding add_connection_if_absent
add_ok cfg w cm k h = elim (Result-cases (reserve_name cfg.name cm)) [
  | inr (d, f) ↦ absurd (
      let l : ◌≡◌ {A = Result AddError (Unit {0})} (err d) (ok tt) =
        rw (f, add_connection_if_absent) at h in
      cc)
  | inl (cm', f) ↦
      let (free, idle, g) = reserve_name_parts cfg.name cm f in
      let l : (finish cfg cm free idle (dial cfg w)).1 ≡ ok tt =
        rw (← g) (rw (f, add_connection_if_absent) at h) in
      let (o, d, e) = finish_ok cfg cm free idle (dial cfg w) l in
      (
        o,
        d,
        rw (f, add_connection_if_absent)
            (rw g (
              subst (λ m. Added cfg o cm m k) (sym e)
                (finish_ok-Added cfg o (dial cfg w).1 cm k free idle))),
      )
]

-- A replacing add whose attempt fails has already removed the connection of that name.
pub add_connection_failed :
    (cfg : ConnectionConfig) (w : World) (cm : Manager) (e : AddError)
    → (dial cfg w).0 ≡ err e
    → ((add_connection cfg w cm).1 ≡ err e)
      × (has cfg.name (add_connection cfg w cm).0.connections ≡ false)
unfolding add_connection
add_connection_failed cfg w cm e h = go (dial cfg w) h
  where
    go :
        (r : Result AddError Opened × List Resource)
        → r.0 ≡ err e
        → ((attempt true cfg r (tear_down cfg.name cm)).1 ≡ err e)
          × (has cfg.name (attempt true cfg r (tear_down cfg.name cm)).0.connections ≡ false)
    go (err d, closed) k =
        unfold attempt in (ap err (err-injective k), tear_down-absent cfg.name cm)
    go (ok o, closed) k = absurd (cc)
