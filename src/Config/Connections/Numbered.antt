-- ===== src/Config/Connections/Numbered.antt =====
-- The connections of MYSQL_DSN and MYSQL_DSN_1 to MYSQL_DSN_10.
use mysql_mcp_server.Prelude.{
  ℕ, ◌+◌, ◌≤◌, ◌≡◌, ◌≢◌, refl, List, [], ◌∷◌, ◌++◌, arith, Bytes, codes, equal, length,
  length-append, All, All-append, ok,
}
use mysql_mcp_server.Config.Types.{Host, ConnectionConfig}
use mysql_mcp_server.Config.Connections.{
  load_connections, dsn_connections, numbered_connections, numbered, numbers, default_connection,
  load_global_ssh,
}

-- A DSN that is not empty, a name that is not empty, and the process-wide tunnel.
pub record IsConnection (h : Host) (c : ConnectionConfig) : Type 0 where
  pub has_dsn : c.dsn ≢ []
  pub has_name : c.name ≢ []
  pub tunnel : c.ssh ≡ load_global_ssh h

-- so many connections, each of that kind
abbrev Few : Host → ℕ → List ConnectionConfig → Type 0
Few h n cs = All (IsConnection h) cs × (length cs ≤ n)

numbered-Few : (h : Host) (i ssl dsn : Bytes) → Few h 1 (numbered h ssl (load_global_ssh h) i dsn)
unfolding numbered
numbered-Few h i ssl [] = (tt, omega arith)
numbered-Few h i ssl (c ∷ dsn) =
    ((record { has_dsn = ground arith; has_name = ground arith; tunnel = refl }, tt), omega arith)

Few-append :
    (h : Host) (m n : ℕ) (cs ds : List ConnectionConfig)
    → Few h m cs
    → Few h n ds
    → Few h (m + n) (cs ++ ds)
Few-append h m n cs ds (p, l) (q, k) =
    (All-append (IsConnection h) cs ds p q, omega (arith, length-append cs ds, l, k))

numbered_connections-Few :
    (h : Host) (ssl : Bytes) (is : List Bytes)
    → Few h (length is) (numbered_connections h ssl (load_global_ssh h) is)
unfolding numbered_connections
numbered_connections-Few h ssl [] = (tt, omega arith)
numbered_connections-Few h ssl (i ∷ is) =
    let (p, l) =
      Few-append h 1 (length is) _ _ (numbered-Few h i ssl _) (numbered_connections-Few h ssl is) in
    (p, omega (arith, l))

default_connection-Few :
    (h : Host) (dsn ssl : Bytes) → Few h 1 (default_connection dsn ssl (load_global_ssh h))
unfolding default_connection
default_connection-Few h [] ssl = (tt, omega arith)
default_connection-Few h (c ∷ dsn) ssl =
    ((record { has_dsn = ground arith; has_name = ground arith; tunnel = refl }, tt), omega arith)

-- Without MYSQL_CONNECTIONS, `loadConnections` returns no error and at most eleven connections, each
-- with a DSN, a name and the process-wide tunnel.
pub load_connections-dsn :
    (h : Host)
    → h.getenv (codes "MYSQL_CONNECTIONS") ≡ []
    → (cs : List ConnectionConfig) × (load_connections h ≡ ok cs)
      × All (IsConnection h) cs
      × (length cs ≤ 11)
unfolding load_connections dsn_connections equal
load_connections-dsn h e =
    let ssl = h.getenv (codes "MYSQL_SSL") in
    let (p, l) =
      Few-append h 1 10 _ _ (default_connection-Few h _ ssl)
        (numbered_connections-Few h ssl numbers) in
    (dsn_connections h, rw e refl, p, l)
