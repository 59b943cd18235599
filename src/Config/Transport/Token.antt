-- ===== src/Config/Transport/Token.antt =====
-- Reading the token file changes nothing but the token, which is not empty afterwards.
use mysql_mcp_server.Prelude.{◌≡◌, arith, Bytes, ok}
use mysql_mcp_server.Config.Types.{Host, Config}
use mysql_mcp_server.Config.Transport.{resolve_mcp_http_token, with_token}

-- The token is all that reading the token file changes.
pub record SameButToken (c c' : Config) : Type 0 where
  pub connections : c'.connections ≡ c.connections
  pub features : c'.features ≡ c.features
  pub transport : c'.transport ≡ c.transport
  pub limits : c'.limits ≡ c.limits
  pub pool : c'.pool ≡ c.pool
  pub http : c'.http ≡ c.http

with_token-ok : (t : Bytes) (c : Config) {c' : Config} → with_token t c ≡ ok c' → SameButToken c c'
unfolding with_token
with_token-ok t c e = record {
  connections = ground arith;
  features = ground arith;
  transport = ground arith;
  limits = ground arith;
  pool = ground arith;
  http = ground arith;
}

pub resolve-ok :
    (h : Host) (c : Config) {c' : Config} → resolve_mcp_http_token h c ≡ ok c' → SameButToken c c'
unfolding resolve_mcp_http_token with_token
resolve-ok h c e = record {
  connections = ground arith;
  features = ground arith;
  transport = ground arith;
  limits = ground arith;
  pool = ground arith;
  http = ground arith;
}
