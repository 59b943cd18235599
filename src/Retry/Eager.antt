-- ===== src/Retry/Eager.antt =====
-- A `backoff.Retry` that does what the package documents, for the examples.
use mysql_mcp_server.Prelude.{◌≡◌, refl, ℕ, zero, suc, false, Option, none, some, or_else}
use mysql_mcp_server.Retry.{Attempt, succeeded, failed, permanent, Backoff, outcome}
use mysql_mcp_server.Retry.Attempts.{is_failed, later, IsBackoff}

abbrev pub end_by : {E : Type 0} → Attempt E → Option E × ℕ → Option E × ℕ
end_by succeeded rest = (none, 0)
end_by (permanent e) rest = (some e, 0)
end_by (failed e) rest = rest

abbrev pub go_on : {E : Type 0} → Option E → Option E × ℕ → Option E × ℕ
go_on none rest = later rest
go_on (some c) rest = (some c, 0)

abbrev pub retry_all : {E : Type 0} → ℕ → (ℕ → Option E) → (ℕ → Attempt E) → Option E × ℕ
retry_all zero context run = end_by (run 0) (or_else (context 0) (outcome (run 0)), 0)
retry_all (suc limit) context run =
    end_by (run 0) (go_on (context 0) (retry_all limit (λ n. context (suc n)) (λ n. run (suc n))))

abbrev pub eager : {E : Type 0} → Backoff E
eager = record { retry = retry_all }

end_by-settled :
    {E : Type 0} (a : Attempt E) (rest : Option E × ℕ)
    → is_failed a ≡ false
    → end_by a rest ≡ (outcome a, 0)
end_by-settled succeeded rest h = refl
end_by-settled (permanent e) rest h = refl
end_by-settled (failed e) rest h = absurd (cc)

eager-settled :
    {E : Type 0} (limit : ℕ) (context : ℕ → Option E) (run : ℕ → Attempt E)
    → is_failed (run 0) ≡ false
    → retry_all limit context run ≡ (outcome (run 0), 0)
eager-settled zero context run h = end_by-settled (run 0) _ h
eager-settled (suc limit) context run h = end_by-settled (run 0) _ h

pub eager-IsBackoff : {E : Type 0} → IsBackoff (eager {E = E})
eager-IsBackoff = record {
  settled = eager-settled;
  exhausted = λ context run e f. rw f refl;
  canceled = λ limit context run e c f g. rw (f, g) refl;
  repeated = λ limit context run e f g. rw (f, g) refl;
}
