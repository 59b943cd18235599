-- ===== src/Config/Connections.antt =====
-- internal/config/config.go: the connections of the environment (`loadConnections`,
-- `loadGlobalSSHFromEnv`, `parseEnvStrictSSHHostKeyChecking`).
pub mod Numbered
use mysql_mcp_server.Prelude.{
  ℕ, Bool, true, false, not, ◌&&◌, ◌||◌, List, [], ◌∷◌, ◌++◌, map, Option, none, some, Bytes, codes,
  equal, to_lower, trim_space, any, if◌then◌else◌, Result, ok, err,
}
use mysql_mcp_server.Config.Types.{Host, SshConfig, ConnectionConfig}
use mysql_mcp_server.Config.Env.{positive, atoi}
use mysql_mcp_server.Config.Transport.{ConfigError, connections_unreadable}

abbrev pub false_words : List Bytes
false_words = codes "0" ∷ codes "false" ∷ codes "no" ∷ codes "off" ∷ []

-- `parseEnvStrictSSHHostKeyChecking`
unfoldable pub parse_env_strict : Host → Option Bool
unfolding equal trim_space to_lower
parse_env_strict h =
    let raw = trim_space (h.getenv (codes "MYSQL_SSH_STRICT_HOST_KEY_CHECKING")) in
    if equal raw [] then none else some (not (any (equal (to_lower raw)) false_words))

-- the port of the bastion; 0 where the variable is no number above 0
ssh_port : Bytes → ℕ
unfolding atoi trim_space
ssh_port [] = 0
ssh_port (c ∷ v) = elim (atoi (trim_space (c ∷ v))) [
  | none ↦ 0
  | some p ↦ if positive p then p else 0
]

-- `loadGlobalSSHFromEnv`
unfoldable pub load_global_ssh : Host → Option SshConfig
unfolding equal trim_space parse_env_strict ssh_port
load_global_ssh h =
    let host = trim_space (h.getenv (codes "MYSQL_SSH_HOST")) in
    let user = trim_space (h.getenv (codes "MYSQL_SSH_USER")) in
    let key_path = trim_space (h.getenv (codes "MYSQL_SSH_KEY_PATH")) in
    if equal host [] || equal user [] || equal key_path []
    then none
    else some (record {
      host = host;
      user = user;
      key_path = key_path;
      port = ssh_port (h.getenv (codes "MYSQL_SSH_PORT"));
      strict_host_key_checking = parse_env_strict h;
      known_hosts_path = trim_space (h.getenv (codes "MYSQL_SSH_KNOWN_HOSTS"));
      host_key_fingerprint = trim_space (h.getenv (codes "MYSQL_SSH_HOST_KEY_FINGERPRINT"));
    })

-- `EffectiveStrictSSHHostKeyChecking`
unfoldable pub effective_strict : Option SshConfig → Bool
effective_strict none = true
effective_strict (some s) = elim s.strict_host_key_checking [ none ↦ true | some b ↦ b ]

abbrev pub or_text : Bytes → Bytes → Bytes
or_text [] def = def
or_text (c ∷ s) def = c ∷ s

abbrev or_ssh : Option SshConfig → Option SshConfig → Option SshConfig
or_ssh none ssh = ssh
or_ssh (some s) ssh = some s

-- A connection of the JSON list takes the process-wide SSL mode and tunnel if it has none.
with_globals : Bytes → Option SshConfig → ConnectionConfig → ConnectionConfig
with_globals ssl ssh c = record c { ssl = or_text c.ssl ssl; ssh = or_ssh c.ssh ssh }

-- the numbers from 1 to 10, as `%d` prints them
abbrev pub numbers : List Bytes
numbers =
    codes "1"
    ∷ codes "2"
    ∷ codes "3"
    ∷ codes "4"
    ∷ codes "5"
    ∷ codes "6"
    ∷ codes "7"
    ∷ codes "8"
    ∷ codes "9"
    ∷ codes "10"
    ∷ []

-- the variable `MYSQL_DSN_<i>` with a suffix
abbrev pub dsn_key : Bytes → Bytes → Bytes
dsn_key i suffix = codes "MYSQL_DSN_" ++ (i ++ suffix)

-- `if dsn == "" { continue }`
numbered : Host → Bytes → Option SshConfig → Bytes → Bytes → List ConnectionConfig
numbered h ssl ssh i [] = []
numbered h ssl ssh i (c ∷ dsn) =
    record {
      name = or_text (h.getenv (dsn_key i (codes "_NAME"))) (codes "connection_" ++ i);
      dsn = c ∷ dsn;
      description = h.getenv (dsn_key i (codes "_DESC"));
      read_only = false;
      ssl = or_text (h.getenv (dsn_key i (codes "_SSL"))) ssl;
      ssh = ssh;
    }
    ∷ []

-- the loop over the numbered variables
unfoldable pub numbered_connections :
    Host → Bytes → Option SshConfig → List Bytes → List ConnectionConfig
unfolding numbered
numbered_connections h ssl ssh [] = []
numbered_connections h ssl ssh (i ∷ is) =
    numbered h ssl ssh i (h.getenv (dsn_key i [])) ++ numbered_connections h ssl ssh is

default_connection : Bytes → Bytes → Option SshConfig → List ConnectionConfig
default_connection [] ssl ssh = []
default_connection (c ∷ dsn) ssl ssh =
    record {
      name = codes "default";
      dsn = c ∷ dsn;
      description = codes "Default connection";
      read_only = false;
      ssl = ssl;
      ssh = ssh;
    }
    ∷ []

-- the DSN variables, where MYSQL_CONNECTIONS is not set
unfoldable pub dsn_connections : Host → List ConnectionConfig
unfolding default_connection numbered_connections load_global_ssh
dsn_connections h =
    let ssl = h.getenv (codes "MYSQL_SSL") in
    let ssh = load_global_ssh h in
    default_connection (h.getenv (codes "MYSQL_DSN")) ssl ssh
    ++ numbered_connections h ssl ssh numbers

json_connections :
    Host → Option (List ConnectionConfig) → Result ConfigError (List ConnectionConfig)
unfolding with_globals load_global_ssh
json_connections h none = err connections_unreadable
json_connections h (some cs) =
    ok (map (with_globals (h.getenv (codes "MYSQL_SSL")) (load_global_ssh h)) cs)

-- `loadConnections`
unfoldable pub load_connections : Host → Result ConfigError (List ConnectionConfig)
unfolding equal json_connections dsn_connections
load_connections h =
    let json = h.getenv (codes "MYSQL_CONNECTIONS") in
    if equal json []
    then ok (dsn_connections h)
    else json_connections h (h.unmarshal_connections json)
