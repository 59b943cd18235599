-- ===== src/Retry.antt =====
-- internal/dbretry/retry.go: which errors are worth another attempt, and the attempts. `backoff.Retry`
-- of github.com/cenkalti/backoff is an argument, and an error is what `errors.Is` and `errors.As` say
-- of it.
pub mod Attempts
pub mod Eager
pub mod Tests
use mysql_mcp_server.Prelude.{
  ℕ, zero, suc, Bool, true, false, not, ◌&&◌, ◌||◌, Option, none, some, ltb, ◌==◌, if◌then◌else◌,
}

-- `mysql_number` is the number of a `mysql.MySQLError`.
pub record DbError : Type 0 where
  pub canceled : Bool
  pub deadline_exceeded : Bool
  pub net_error : Bool
  pub invalid_conn : Bool
  pub bad_conn : Bool
  pub mysql_number : Option ℕ

-- `Config`
pub record RetryConfig : Type 0 where
  pub max_retries : ℕ
  pub max_interval : ℕ

abbrev pub default_config : RetryConfig
default_config = record { max_retries = 3; max_interval = 10000000000 }

abbrev transient_number : Option ℕ → Bool
transient_number none = false
transient_number (some n) = n == 1040 || n == 1213 || n == 1205

-- `IsTransientError`, of an error that is not nil
unfoldable pub is_transient_error : DbError → Bool
is_transient_error e =
    if e.canceled || e.deadline_exceeded
    then false
    else if e.net_error
    then true
    else if e.invalid_conn || e.bad_conn
    then true
    else transient_number (e.mysql_number)

-- `ShouldWarmPool`
unfoldable pub should_warm_pool : DbError → Bool
should_warm_pool e = e.bad_conn || e.invalid_conn

-- What an operation returns to `backoff.Retry`: nil, an error, or a `backoff.Permanent` one.
pub data Attempt (E : Type 0) : Type 0 where
  succeeded : Attempt E
  failed permanent : E → Attempt E

-- `backoff.Retry` under `WithMaxRetries` and `WithContext`: from the limit of retries, the context's
-- error behind the n-th run and what the n-th run of the operation returns, to the error that it
-- returns and the index of the last run.
pub record Backoff (E : Type 0) : Type 0 where
  pub retry : ℕ → (ℕ → Option E) → (ℕ → Attempt E) → Option E × ℕ

-- the error of a run
abbrev pub outcome : {E : Type 0} → Attempt E → Option E
outcome succeeded = none
outcome (failed e) = some e
outcome (permanent e) = some e

-- the function that `Do` gives to `backoff.Retry`
unfoldable pub classify : Option DbError → Attempt DbError
unfolding is_transient_error
classify none = succeeded
classify (some e) = if not (is_transient_error e) then permanent e else failed e

-- whether it pings the pool, with a database at hand and `pingTimeout > 0`
unfoldable pub pings : Bool → Bool → Option DbError → Bool
unfolding is_transient_error should_warm_pool
pings has_db timeout_positive none = false
pings has_db timeout_positive (some e) =
    is_transient_error e && has_db && timeout_positive && should_warm_pool e

-- the retries that there may be: `MaxRetries` is an `int`
unfoldable pub retries : RetryConfig → ℕ
retries cfg =
    if ltb 0 (cfg.max_retries) && ltb (cfg.max_retries) 9223372036854775808
    then cfg.max_retries
    else 0

-- `Do`, for an operation by what its n-th run returns and the context's error behind it: the error,
-- and the index of the last run
unfoldable pub do_retry :
    Backoff DbError → RetryConfig → (ℕ → Option DbError) → (ℕ → Option DbError) → Option DbError × ℕ
unfolding classify retries
do_retry b cfg context op =
    if retries cfg == 0 then (op 0, 0) else b.retry (retries cfg) context (λ n. classify (op n))
