-- ===== src/Access.antt =====
-- cmd/mysql-mcp-server/access.go, with `AllowedDatabaseSet` of internal/config/config.go: the allow list
-- of databases. The two readings of a query by the parser layer of internal/util/sql_parser.go are
-- arguments.
pub mod Listed
pub mod Tests
use mysql_mcp_server.Prelude.{
  Bool, true, false, not, ◌&&◌, List, [], ◌∷◌, Option, none, some, Bytes, equal, to_lower,
  trim_space, all, if◌then◌else◌,
}
use mysql_mcp_server.Prelude.Assoc.{Map, has, insert}

-- A set of names, as the map to empty structs.
abbrev pub Names : Type 0
Names = Map (Unit {0})

-- the loop of `AllowedDatabaseSet`
unfoldable pub add_entries : Names → List Bytes → Names
unfolding insert equal to_lower trim_space
add_entries m [] = m
add_entries m (s ∷ list) =
    add_entries (if equal (trim_space s) [] then m else insert (to_lower (trim_space s)) tt m) list

-- `AllowedDatabaseSet`
unfoldable pub allowed_database_set : List Bytes → Names
unfolding add_entries
allowed_database_set list = add_entries [] list

-- `accessControlEnabled`
abbrev pub access_control_enabled : Names → Bool
access_control_enabled [] = false
access_control_enabled (x ∷ m) = true

-- `databaseAllowed`, with the package variable `allowedDatabaseSet` as an argument
unfoldable pub database_allowed : Names → Bytes → Bool
unfolding equal to_lower trim_space has
database_allowed set name =
    if not (access_control_enabled set)
    then true
    else if equal (trim_space name) []
    then false
    else has (to_lower (trim_space name)) set

pub data AccessError : Type 0 where
  database_required : AccessError
  not_listed : Bytes → AccessError
  show_databases query_invalid : AccessError

-- `requireAllowedDatabase`
unfoldable pub require_allowed_database : Names → Bytes → Option AccessError
unfolding equal trim_space database_allowed
require_allowed_database set db =
    if not (access_control_enabled set)
    then none
    else if equal (trim_space db) []
    then some database_required
    else if not (database_allowed set db)
    then some (not_listed db)
    else none

-- the loop over the references
unfoldable pub first_refused : Names → List Bytes → Option AccessError
unfolding database_allowed
first_refused set [] = none
first_refused set (name ∷ refs) =
    if database_allowed set name then first_refused set refs else some (not_listed name)

-- `ShowEnumeratesAllSchemasInQuery` and `ReferencedSchemaQualifiers`, whose error is `none`
pub record Reading : Type 0 where
  pub enumerates_all : Bytes → Bool
  pub referenced : Bytes → Option (List Bytes)

-- `requireReferencedSchemasInQuery`
unfoldable pub require_referenced_schemas : Reading → Names → Bytes → Option AccessError
unfolding first_refused
require_referenced_schemas r set sql_text =
    if not (access_control_enabled set)
    then none
    else if r.enumerates_all sql_text
    then some show_databases
    else elim (r.referenced sql_text) [
      | none ↦ some query_invalid
      | some refs ↦ first_refused set refs
    ]
