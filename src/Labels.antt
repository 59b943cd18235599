-- ===== src/Labels.antt =====
-- cmd/mysql-mcp-server/labels.go: the labels of statements and of connections, without the driver
-- wrapper that applies them. A byte from 128 on belongs to a rune that is dropped.
pub mod Comment
pub mod Tests
use mysql_mcp_server.Prelude.{
  ℕ, ◌+◌, ◌-◌, ◌/◌, ◌%◌, suc, Bool, true, false, not, ◌&&◌, ◌||◌, List, [], ◌∷◌, ◌++◌, any, Option,
  none, some, Bytes, codes, equal, within, index, take, split_on, trim_space, leb, ltb, ◌==◌,
  if◌then◌else◌,
}
use mysql_mcp_server.Prelude.Decimal.{decimal}
use mysql_mcp_server.Config.Env.{word}
use mysql_mcp_server.Config.Types.{Config}

-- `callLabel`, but for its record of guard refusals
pub record CallLabel : Type 0 where
  pub tool : Bytes
  pub req : Bytes

unfoldable pub hex_digit : ℕ → ℕ
hex_digit n = if ltb n 10 then b'0' + n else b'a' + (n - 10)

-- `hex.EncodeToString`
unfoldable pub hex_of : List ℕ → Bytes
unfolding hex_digit
hex_of [] = []
hex_of (x ∷ xs) = hex_digit (x / 16 % 16) ∷ hex_digit (x % 16) ∷ hex_of xs

-- `newReqPrefix`, from the random bytes or their error
unfoldable pub new_req_prefix : Option (List ℕ) → Bytes
unfolding hex_of
new_req_prefix none = codes "0"
new_req_prefix (some b) = hex_of b

-- the bytes of a label
unfoldable pub is_label : ℕ → Bool
is_label c =
    c == b'_'
    || c == b'-'
    || c == b'.'
    || within b'a' b'z' c
    || within b'A' b'Z' c
    || within b'0' b'9' c

-- the loop of `sanitizeLabel`, with the number of bytes written
unfoldable pub sanitize_on : ℕ → Bytes → Bytes
unfolding is_label
sanitize_on n [] = []
sanitize_on n (c ∷ s) = elim (is_label c) [
  | true ↦ c ∷ elim (leb 64 (suc n)) [ true ↦ [] | false ↦ sanitize_on (suc n) s ]
  | false ↦ elim (leb 64 n) [ true ↦ [] | false ↦ sanitize_on n s ]
]

-- `sanitizeLabel`
unfoldable pub sanitize_label : Bytes → Bytes
unfolding sanitize_on
sanitize_label s = sanitize_on 0 s

-- `withCallLabel`, with the counter of the requests
unfoldable pub with_call_label : Bytes → ℕ → Bytes → CallLabel × ℕ
unfolding sanitize_label decimal
with_call_label prefix seq tool = (
  record { tool = sanitize_label tool; req = prefix ++ (codes "-" ++ decimal ((seq + 1) % word)) },
  (seq + 1) % word,
)

-- `labelQuery`
unfoldable pub label_query : Bool → Option CallLabel → Bytes → Bytes
unfolding equal
label_query enabled none query = query
label_query enabled (some l) query =
    if not enabled || equal (l.tool) []
    then query
    else codes "/*"
      ++ ((codes " mcp:tool=" ++ (l.tool ++ (codes " req=" ++ (l.req ++ codes " "))))
          ++ (codes "*/" ++ (codes " " ++ query)))

-- the key of `k:v`
unfoldable pub attribute_key : Bytes → Option Bytes
unfolding index trim_space
attribute_key kv = elim (index kv (codes ":")) [
  | none ↦ none
  | some i ↦ some (trim_space (take i kv))
]

abbrev pub is_key : Bytes → Option Bytes → Bool
is_key k none = false
is_key k (some key) = equal key k

-- whether the attributes that are there have a key
unfoldable pub has_attribute : Bytes → Bytes → Bool
unfolding attribute_key split_on equal
has_attribute existing k = any (λ kv. is_key k (attribute_key kv)) (split_on b',' existing)

-- the closure `add` of `labelConnectionAttributes`
unfoldable pub add_attribute : Bytes → Bytes → Bytes → Bytes → Bytes
unfolding has_attribute sanitize_label equal
add_attribute existing k v attrs =
    if has_attribute existing k || equal v []
    then attrs
    else (if equal attrs [] then [] else attrs ++ codes ",")
      ++ (k ++ (codes ":" ++ sanitize_label v))

-- `labelConnectionAttributes`, with the version of the server
unfoldable pub label_connection_attributes : Bytes → Bytes → Bytes → Bytes
unfolding add_attribute
label_connection_attributes version existing transport =
    add_attribute existing (codes "mcp_version") version (
      add_attribute existing (codes "mcp_transport") transport
        (add_attribute existing (codes "program_name") (codes "mysql-mcp-server") existing))

-- `transportLabel`, where `none` is a nil configuration
unfoldable pub transport_label : Option Config → Bytes
unfolding equal
transport_label none = []
transport_label (some c) =
    if c.features.http_mode
    then codes "rest"
    else if equal (c.transport) (codes "http")
    then codes "http"
    else codes "stdio"
