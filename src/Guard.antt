-- ===== src/Guard.antt =====
-- cmd/mysql-mcp-server/guard.go: the refusals of the server's MCP guard that a tool call notes, and
-- their explanation in the call's result.
pub mod Noted
pub mod Tests
use mysql_mcp_server.Prelude.{
  ℕ, Bool, true, false, not, ◌&&◌, ◌||◌, List, [], ◌∷◌, ◌++◌, Option, none, some, Bytes, codes,
  equal, within, contains, has_prefix, take_until, drop, length, ◌==◌, if◌then◌else◌, and_then,
  or_else,
}
use mysql_mcp_server.Prelude.Assoc.{Map, lookup, has, insert}
use mysql_mcp_server.Access.{Names}

-- What stands behind a prefix.
unfoldable pub strip_prefix : Bytes → Bytes → Option Bytes
unfolding has_prefix
strip_prefix p s = if has_prefix s p then some (drop (length p) s) else none

-- `[a-z0-9_]`
unfoldable pub is_setting : ℕ → Bool
is_setting c = within b'a' b'z' c || within b'0' b'9' c || c == b'_'

abbrev pub refusal_end : Bytes
refusal_end = codes " option so it cannot execute this statement"

-- the setting, if the rest of the pattern stands behind it
unfoldable pub ends_refusal : Bytes → Bytes → Option Bytes
unfolding has_prefix
ends_refusal setting rest = if has_prefix rest refusal_end then some setting else none

-- `mcp\.[a-z0-9_]+`, behind `mcp`
unfoldable pub dotted_setting : Bytes → Option Bytes
unfolding strip_prefix take_until is_setting ends_refusal equal
dotted_setting rest = and_then (strip_prefix (codes ".") rest) (λ t.
    let name = take_until (λ c. not (is_setting c)) t in
    if equal name [] then none else ends_refusal (codes "mcp." ++ name) (drop (length name) t))

-- the group of `guardRefusalRe` and what stands behind it: its alternatives in turn
unfoldable pub setting_at : Bytes → Option Bytes
unfolding strip_prefix dotted_setting ends_refusal
setting_at s =
    or_else
      (and_then (strip_prefix (codes "mcp") s)
        (λ t. or_else (dotted_setting t) (ends_refusal (codes "mcp") t)))
      (and_then (strip_prefix (codes "mcp_guard") s) (λ t. ends_refusal (codes "mcp_guard") t))

-- `guardRefusalRe.FindStringSubmatch`, by its group
unfoldable pub find_refusal : Bytes → Option Bytes
unfolding strip_prefix setting_at
find_refusal [] = none
find_refusal (c ∷ s) =
    or_else (and_then (strip_prefix (codes "running with the ") (c ∷ s)) setting_at)
      (find_refusal s)

-- an error that a statement returned: nil, one of the server by number and message, or another
pub data DriverError : Type 0 where
  no_error other_error : DriverError
  server_error : ℕ → Bytes → DriverError

-- `note`, on the settings of the `guardHit`
unfoldable pub note : DriverError → Names → Names
unfolding find_refusal insert
note no_error settings = settings
note other_error settings = settings
note (server_error number message) settings =
    if not (number == 1290)
    then settings
    else elim (find_refusal message) [ none ↦ settings | some setting ↦ insert setting tt settings ]

-- `saw`
unfoldable pub saw : Bytes → Names → Bool
unfolding has
saw setting settings = has setting settings

-- `guardHints`
abbrev pub guard_hints : Map Bytes
guard_hints =
    (codes "mcp.read_only", codes "MCP sessions may only read on this server")
    ∷ (
      codes "mcp.deny_system_schemas",
      codes "MCP sessions may not read the mysql and sys schemas on this server",
    )
    ∷ (
      codes "mcp.allowed_schemas",
      codes "this schema is outside the ones MCP sessions may access on this server",
    )
    ∷ (codes "mcp.enabled", codes "MCP access is switched off on this server")
    ∷ (
      codes "mcp.max_execution_time_ms",
      codes "MCP sessions may not raise the statement time limit on this server",
    )
    ∷ (codes "mcp_guard", codes "the server could not track this MCP session")
    ∷ []

unfoldable pub hint : Bytes → Bytes
unfolding lookup
hint setting = elim (lookup setting guard_hints) [
  | some h ↦ h
  | none ↦ codes "the statement is not allowed for MCP sessions on this server"
]

-- the content of a result: a text, or another
pub data Content : Type 0 where
  text_content : Bytes → Content
  other_content : Content

unfoldable pub explained : Bytes → Bytes → Bytes
unfolding hint
explained setting text =
    codes "Refused by the server's MCP guard (component_mcp_guard, "
    ++ (setting
        ++ (codes "): "
            ++ (hint setting
                ++ (codes ". Ask the database administrator if this is needed. Server error: "
                    ++ text))))

abbrev pub keep : Content → List Content × Option Bytes → List Content × Option Bytes
keep c (rest, meta) = (c ∷ rest, meta)

-- the setting that a text is rewritten for
unfoldable pub refused_by : Names → Bytes → Option Bytes
unfolding contains find_refusal saw
refused_by settings text =
    if not (contains text (codes "1290")) then none else elim (find_refusal text) [
      | none ↦ none
      | some setting ↦ if saw setting settings then some setting else none
    ]

-- `explainGuardRefusal`: the content, and the setting that is named in the result's _meta
unfoldable pub explain_guard_refusal : Names → List Content → List Content × Option Bytes
unfolding refused_by explained
explain_guard_refusal settings [] = ([], none)
explain_guard_refusal settings (other_content ∷ rest) =
    keep other_content (explain_guard_refusal settings rest)
explain_guard_refusal settings (text_content text ∷ rest) =
    let later = explain_guard_refusal settings rest in
    elim (refused_by settings text) [
      | none ↦ keep (text_content text) later
      | some setting ↦ (text_content (explained setting text) ∷ rest, some setting)
    ]
