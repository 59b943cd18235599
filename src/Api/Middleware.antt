-- ===== src/Api/Middleware.antt =====
-- internal/api: middleware.go and response.go. A handler answers by what it does to its response
-- writer, in order, and may change a state that the handlers share.
pub mod Guards
use mysql_mcp_server.Prelude.{
  ℕ, Bool, true, false, not, ◌&&◌, ◌||◌, List, [], ◌∷◌, ◌++◌, Option, none, some, Bytes, codes,
  equal, if◌then◌else◌,
}

-- `http.Request`: what is read of it; a query parameter that is missing is empty
pub record Request : Type 0 where
  pub method : Bytes
  pub query : Bytes → Bytes

-- what is encoded as JSON: nil, or a `Response`, whose data is a text here
pub data Body : Type 0 where
  nil : Body
  failure : Bytes → Body
  success : Bytes → Body

-- a call on an `http.ResponseWriter`
pub data Action : Type 0 where
  set_header : Bytes → Bytes → Action
  write_header : ℕ → Action
  encode : Body → Action

abbrev pub Handler : Type 0 → Type 0
Handler S = Request → S → List Action × S

abbrev pub Middleware : Type 0 → Type 0
Middleware S = Handler S → Handler S

abbrev pub cors_headers : List Action
cors_headers =
    set_header (codes "Access-Control-Allow-Origin") (codes "*")
    ∷ set_header (codes "Access-Control-Allow-Methods") (codes "GET, POST, OPTIONS")
    ∷ set_header (codes "Access-Control-Allow-Headers") (codes "Content-Type")
    ∷ []

-- `WriteJSONNoCORS` and `WriteJSON`
abbrev pub write_json_no_cors : ℕ → Body → List Action
write_json_no_cors status body =
    set_header (codes "Content-Type") (codes "application/json")
    ∷ write_header status
    ∷ encode body
    ∷ []

abbrev pub write_json : ℕ → Body → List Action
write_json status body = cors_headers ++ write_json_no_cors status body

-- `WriteError`
abbrev pub write_error : ℕ → Bytes → List Action
write_error status message = write_json status (failure message)

abbrev pub is_options : Request → Bool
is_options r = equal r.method (codes "OPTIONS")

abbrev pub missing_param : Bytes → Bytes
missing_param name = name ++ codes " parameter is required"

-- the loop of `RequireQueryParams`
unfoldable pub first_missing : List Bytes → Request → Option Bytes
unfolding equal
first_missing [] r = none
first_missing (name ∷ names) r =
    if equal (r.query name) [] then some name else first_missing names r

module _ {S : Type 0} where
  -- `WithCORS`
  unfoldable pub with_cors : Middleware S
  unfolding equal
  with_cors next r s =
      if is_options r
      then (cors_headers ++ write_json 200 nil, s)
      else (cors_headers ++ (next r s).0, (next r s).1)

  -- `RequireMethod`
  unfoldable pub require_method : Bytes → Middleware S
  unfolding equal
  require_method method next r s =
      if is_options r
      then (write_json 200 nil, s)
      else if not (equal r.method method)
      then (write_error 405 (method ++ codes " method required"), s)
      else next r s

  -- `RequireGET`
  unfoldable pub require_get : Middleware S
  unfolding equal
  require_get next r s =
      if is_options r
      then (write_json 200 nil, s)
      else if not (equal r.method (codes "GET")) && not (equal r.method (codes "HEAD"))
      then (write_error 405 (codes "GET method required"), s)
      else next r s

  -- `RequirePOST`
  unfoldable pub require_post : Middleware S
  unfolding require_method
  require_post next = require_method (codes "POST") next

  -- `RequireFeature`
  unfoldable pub require_feature : Bool → Bytes → Middleware S
  unfolding equal
  require_feature enabled feature_name next r s =
      if is_options r
      then (write_json 200 nil, s)
      else if not enabled
      then (write_error 404 (feature_name ++ codes " not enabled"), s)
      else next r s

  -- `RequireQueryParam`
  unfoldable pub require_query_param : Bytes → Middleware S
  unfolding equal
  require_query_param name next r s =
      if is_options r
      then (write_json 200 nil, s)
      else if equal (r.query name) []
      then (write_error 400 (missing_param name), s)
      else next r s

  -- `RequireQueryParams`
  unfoldable pub require_query_params : List Bytes → Middleware S
  unfolding equal first_missing
  require_query_params names next r s =
      if is_options r then (write_json 200 nil, s) else elim (first_missing names r) [
        | some name ↦ (write_error 400 (missing_param name), s)
        | none ↦ next r s
      ]

  -- `Chain`: the last middleware is put around the handler first
  unfoldable pub chain : Handler S → List (Middleware S) → Handler S
  chain handler [] = handler
  chain handler (m ∷ ms) = m (chain handler ms)
