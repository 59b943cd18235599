-- ===== src/Connection/Session/Keys.antt =====
-- The keys of a session's connections: its own, at most five, and no other session's.
use mysql_mcp_server.Prelude.{
  ◌+◌, ◌≤◌, ◌≡◌, refl, sym, subst, true, false, [], ◌∷◌, ◌++◌, some, arith, Bytes, codes, equal_iff,
  equal_refl, has_prefix, length, ok,
}
use mysql_mcp_server.Prelude.Assoc.{
  lookup, has, insert, count, lookup-insert, lookup-delete, count-insert, count-delete,
}
use mysql_mcp_server.Connection.Dial.{session_conn_prefix, is_session_conn_key}
use mysql_mcp_server.Connection.Session.{
  Session, new_session, max_session_connections, size, session_key, reserve, release, close,
}

-- Each name that the session registered stands for its own key; there are at most five.
pub record IsOwn (sc : Session) : Type 0 where
  pub keys : (name key : Bytes) → lookup name sc.owned ≡ some key → key ≡ session_key sc.id name
  pub few : size sc.owned ≤ max_session_connections

pub new_session-IsOwn : (id : Bytes) → IsOwn (new_session id)
unfolding new_session lookup size count
new_session-IsOwn id = record { keys = λ name key h. cc; few = omega arith }

pub reserve_parts :
    (name : Bytes) (sc : Session) {key : Bytes} {sc' : Session}
    → reserve name sc ≡ ok (key, sc')
    → (sc.closed ≡ false)
      × (has name sc.owned ≡ false)
      × (size sc.owned + 1 ≤ max_session_connections)
      × (key ≡ session_key sc.id name)
      × (sc' ≡ record sc { owned = insert name (session_key sc.id name) sc.owned })
unfolding reserve
reserve_parts name sc h = ground arith

reserved-IsOwn :
    (name : Bytes) (sc : Session)
    → has name sc.owned ≡ false
    → size sc.owned + 1 ≤ max_session_connections
    → IsOwn sc
    → IsOwn (record sc { owned = insert name (session_key sc.id name) sc.owned })
unfolding size
reserved-IsOwn name sc h l v = record {
  keys = λ j key e. ground (
    arith,
    lookup-insert name j (session_key sc.id name) sc.owned,
    v.keys j key,
    equal_iff name j,
  );
  few = ground (arith, count-insert (λ k. true) name (session_key sc.id name) sc.owned);
}

-- `reserve` succeeds only on a session that has not ended, for a name that it has not registered;
-- the key is the session's own for that name, and the session still has at most five.
pub reserve-IsOwn :
    (name : Bytes) (sc : Session) {key : Bytes} {sc' : Session}
    → IsOwn sc
    → reserve name sc ≡ ok (key, sc')
    → IsOwn sc'
      × (key ≡ session_key sc.id name)
      × (sc'.id ≡ sc.id)
      × (lookup name sc'.owned ≡ some key)
      × (sc.closed ≡ false)
reserve-IsOwn name sc v h =
    let (c, f, l, k, e) = reserve_parts name sc h in
    (
      subst IsOwn (sym e) (reserved-IsOwn name sc f l v),
      k,
      rw e refl,
      rw e (
          rw (lookup-insert name name (session_key sc.id name) sc.owned)
            (rw (equal_refl name) (rw k refl))),
      c,
    )

pub release-IsOwn : (name : Bytes) (sc : Session) → IsOwn sc → IsOwn (release name sc)
unfolding release size
release-IsOwn name sc v = record {
  keys = λ j key e. ground (arith, lookup-delete name j sc.owned, v.keys j key);
  few = omega (arith, v.few, count-delete (λ k. true) name sc.owned);
}

pub close-IsOwn : (sc : Session) → IsOwn (close sc).1
unfolding close lookup size count
close-IsOwn sc = record { keys = λ name key h. cc; few = omega arith }

has_prefix-append : (p s : Bytes) → has_prefix (p ++ s) p ≡ true
unfolding has_prefix
has_prefix-append [] s = ground arith
has_prefix-append (c ∷ p) s = ground (arith, has_prefix-append p s)

pub session_key-is_session : (id name : Bytes) → is_session_conn_key (session_key id name) ≡ true
unfolding is_session_conn_key
session_key-is_session id name = has_prefix-append session_conn_prefix (id ++ (codes "/" ++ name))

append-injective : (a b s t : Bytes) → length a ≡ length b → a ++ s ≡ b ++ t → (a ≡ b) × (s ≡ t)
append-injective [] [] s t l h = (refl, h)
append-injective [] (y ∷ b) s t l h = absurd (omega arith)
append-injective (x ∷ a) [] s t l h = absurd (omega arith)
append-injective (x ∷ a) (y ∷ b) s t l h =
    let (p, q) = append-injective a b s t (omega arith) (cc) in (cc, q)

-- Sessions whose ids have the same length, as all of `newSessionConn` have, have a key in common
-- only if they are the same session, and then it stands for the same name.
pub session_key-injective :
    (id id' name name' : Bytes)
    → length id ≡ length id'
    → session_key id name ≡ session_key id' name'
    → (id ≡ id') × (name ≡ name')
session_key-injective id id' name name' l h =
    let (p, q) =
      append-injective session_conn_prefix session_conn_prefix (id ++ (codes "/" ++ name))
        (id' ++ (codes "/" ++ name')) refl h in
    let (r, s) = append-injective id id' (codes "/" ++ name) (codes "/" ++ name') l q in
    (r, (append-injective (codes "/") (codes "/") name name' refl s).1)
