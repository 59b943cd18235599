-- ===== src/Api/Middleware/Guards.antt =====
-- A chain of the guards against the list of what each refuses.
use mysql_mcp_server.Prelude.{
  ℕ, ◌≡◌, refl, ◌∙◌, Bool, false, ◌||◌, List, [], ◌∷◌, ◌++◌, map, arith, Option, none, some, Bytes,
  codes, equal, if◌then◌else◌,
}
use mysql_mcp_server.Api.Middleware.{
  Request, Action, Handler, Middleware, write_error, is_options, missing_param, require_method,
  require_get, require_post, require_feature, require_query_param, require_query_params,
  first_missing, chain,
}

-- The middlewares that let a request pass or answer it.
pub data Guard : Type 0 where
  get_only post_only : Guard
  feature : Bool → Bytes → Guard
  param : Bytes → Guard
  params : List Bytes → Guard

module _ {S : Type 0} where
  abbrev pub middleware : Guard → Middleware S
  middleware get_only = require_get
  middleware post_only = require_post
  middleware (feature enabled name) = require_feature enabled name
  middleware (param name) = require_query_param name
  middleware (params names) = require_query_params names

abbrev missing : Option Bytes → Option (ℕ × Bytes)
missing none = none
missing (some name) = some (400, missing_param name)

-- The status and the message with which a guard refuses a request, if it does.
abbrev pub refusal : Guard → Request → Option (ℕ × Bytes)
refusal get_only r =
    if equal r.method (codes "GET") || equal r.method (codes "HEAD")
    then none
    else some (405, codes "GET method required")
refusal post_only r =
    if equal r.method (codes "POST") then none else some (405, codes "POST method required")
refusal (feature enabled name) r =
    if enabled then none else some (404, name ++ codes " not enabled")
refusal (param name) r = missing (if equal (r.query name) [] then some name else none)
refusal (params names) r = missing (first_missing names r)

abbrev or_refusal : Option (ℕ × Bytes) → Option (ℕ × Bytes) → Option (ℕ × Bytes)
or_refusal (some e) rest = some e
or_refusal none rest = rest

-- The first refusal of a list of guards.
abbrev pub first_refusal : List Guard → Request → Option (ℕ × Bytes)
first_refusal [] r = none
first_refusal (g ∷ gs) r = or_refusal (refusal g r) (first_refusal gs r)

module _ {S : Type 0} (handler : Handler S) (r : Request) (s : S) where
  -- what the guards answer, or the handler
  abbrev pub answer : Option (ℕ × Bytes) → List Action × S
  answer none = handler r s
  answer (some e) = (write_error e.0 e.1, s)

  guard-passes :
      (g : Guard) (next : Handler S)
      → is_options r ≡ false
      → middleware g next r s
        ≡ elim (refusal g r) [ some e ↦ (write_error e.0 e.1, s) | none ↦ next r s ]
  unfolding require_get require_post require_method require_feature require_query_param
      require_query_params
  guard-passes get_only next o = ground arith
  guard-passes post_only next o = ground arith
  guard-passes (feature enabled name) next o = ground arith
  guard-passes (param name) next o = ground arith
  guard-passes (params names) next o = ground arith

  answer-or_refusal :
      (first rest : Option (ℕ × Bytes)) (after : List Action × S)
      → after ≡ answer rest
      → elim first [ some e ↦ (write_error e.0 e.1, s) | none ↦ after ]
        ≡ answer (or_refusal first rest)
  answer-or_refusal none rest after h = h
  answer-or_refusal (some e) rest after h = refl

  -- Of a request that is no OPTIONS request, a chain of guards around a handler answers with the
  -- first refusal in the order of the list, without calling the handler; if no guard refuses, the
  -- handler answers.
  pub chain-guards :
      (gs : List Guard)
      → is_options r ≡ false
      → chain handler (map middleware gs) r s ≡ answer (first_refusal gs r)
  unfolding chain
  chain-guards [] o = refl
  chain-guards (g ∷ gs) o =
      guard-passes g (chain handler (map middleware gs)) o
      ∙ answer-or_refusal (refusal g r) (first_refusal gs r) (chain handler (map middleware gs) r s)
          (chain-guards gs o)
