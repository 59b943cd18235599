-- ===== src/Config/Load.antt =====
-- internal/config: `Load` of config.go and `ValidateConfigFile` of file.go, from the decoded file on.
pub mod Sound
pub mod Agreement
pub mod Positive
use mysql_mcp_server.Prelude.{
  ℕ, Bool, true, false, not, List, [], ◌∷◌, Option, none, some, Bytes, equal, any, if◌then◌else◌,
  Result, ok, err, ◌>>=◌,
}
use mysql_mcp_server.Config.Types.{Host, ConnectionConfig, Config}
use mysql_mcp_server.Config.Overrides.{apply_env_overrides}
use mysql_mcp_server.Config.Connections.{load_connections}
use mysql_mcp_server.Config.Transport.{
  ConfigError, file_unreadable, no_connections, reserved_name, empty_dsn, bad_tool_pack,
  apply_mcp_http_defaults, resolve_mcp_http_token, validate_tool_pack, validate_transport,
  validate_connection_names,
}
use mysql_mcp_server.Config.File.{FileConfig, default_config, to_config}

-- What the search for a file gave: none, one that cannot be read or decoded, or its contents.
pub data Found : Type 0 where
  no_file unreadable : Found
  decoded : FileConfig → Found

abbrev based : Host → Found → Result ConfigError Config
based h no_file = ok (default_config h)
based h unreadable = err file_unreadable
based h (decoded fc) = ok (to_config h fc)

-- The environment's connections replace the file's, if there are any.
abbrev pub with_connections : List ConnectionConfig → Config → Config
with_connections [] c = c
with_connections (e ∷ es) c = record c { connections = e ∷ es }

-- the overrides and defaults, in their order
abbrev pub overridden : Host → Config → Config
overridden h c = apply_mcp_http_defaults h (apply_env_overrides h c)

-- a check that returns an error, or goes on
abbrev pub require : {A : Type 0} → Bool → ConfigError → A → Result ConfigError A
require true e a = ok a
require false e a = err e

abbrev pub is_empty : {A : Type 0} → List A → Bool
is_empty [] = true
is_empty (x ∷ xs) = false

-- there is a connection, and none has a reserved name
abbrev pub checked_connections : Config → Result ConfigError Config
checked_connections c =
    if is_empty c.connections
    then err no_connections
    else require (validate_connection_names c.connections) reserved_name c

-- the checks of the tool pack and the transport
abbrev pub accepted : Host → Config → Result ConfigError Config
accepted h c =
    if validate_tool_pack c.features.tool_pack
    then elim (validate_transport h c) [ none ↦ ok c | some e ↦ err e ]
    else err bad_tool_pack

-- the last checks of `Load`
unfoldable pub finish : Host → Config → Result ConfigError Config
unfolding validate_connection_names resolve_mcp_http_token validate_tool_pack validate_transport
finish h c = checked_connections c >>= λ c1. resolve_mcp_http_token h c1 >>= accepted h

-- `Load`
unfoldable pub load : Host → Found → Result ConfigError Config
unfolding default_config to_config apply_env_overrides apply_mcp_http_defaults load_connections
    finish
load h f =
    based h f >>= λ c. load_connections h >>= λ cs. finish h (with_connections cs (overridden h c))

-- the checks of `ValidateConfigFile`
unfoldable pub finish_validation : Host → Config → Result ConfigError Config
unfolding validate_connection_names resolve_mcp_http_token validate_tool_pack validate_transport
    equal
finish_validation h c = checked_connections c >>= λ c1.
    require (not (any (λ x. equal x.dsn []) c1.connections)) empty_dsn c1 >>= λ c2.
    resolve_mcp_http_token h c2 >>= accepted h

-- `ValidateConfigFile`, for a file that is there; the configuration is the one that passed the checks
unfoldable pub validate_config_file : Host → FileConfig → Result ConfigError Config
unfolding to_config apply_env_overrides apply_mcp_http_defaults load_connections finish_validation
validate_config_file h fc = load_connections h >>= λ cs.
    finish_validation h (with_connections cs (overridden h (to_config h fc)))
