-- ===== src/Retry/Tests.antt =====
-- The theorem on the attempts at a concrete input.
use mysql_mcp_server.Prelude.{
  ◌≡◌, ◌⊎◌, refl, ℕ, zero, suc, ◌≤◌, ◌<◌, true, false, Option, none, some,
}
use mysql_mcp_server.Retry.{DbError, default_config, retries, do_retry}
use mysql_mcp_server.Retry.Attempts.{is_transient, do_retry_lem}
use mysql_mcp_server.Retry.Eager.{eager, eager-IsBackoff}

-- The connection is bad twice.
abbrev bad : DbError
bad = record {
  canceled = false;
  deadline_exceeded = false;
  net_error = false;
  invalid_conn = false;
  bad_conn = true;
  mysql_number = none;
}

abbrev flaky : ℕ → Option DbError
flaky zero = some bad
flaky (suc zero) = some bad
flaky (suc (suc n)) = none

-- No deadline.
abbrev no_deadline : ℕ → Option DbError
no_deadline n = none

do_retry_lem_example :
    ((do_retry eager default_config no_deadline flaky).1 ≤ retries default_config)
    × ((n : ℕ)
        → n < (do_retry eager default_config no_deadline flaky).1
        → is_transient (flaky n) ≡ true)
    × ((((do_retry eager default_config no_deadline flaky).0
            ≡ flaky ((do_retry eager default_config no_deadline flaky).1))
          × ((is_transient (flaky ((do_retry eager default_config no_deadline flaky).1)) ≡ false)
              ⊎ ((do_retry eager default_config no_deadline flaky).1 ≡ retries default_config)))
        ⊎ (((do_retry eager default_config no_deadline flaky).0
              ≡ no_deadline ((do_retry eager default_config no_deadline flaky).1))
            × (is_transient (flaky ((do_retry eager default_config no_deadline flaky).1)) ≡ true)))
do_retry_lem_example = do_retry_lem eager default_config no_deadline flaky eager-IsBackoff

-- The third attempt succeeds.
third : do_retry eager default_config no_deadline flaky ≡ (none, 2)
unfolding do_retry
third = refl
