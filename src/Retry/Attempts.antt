-- ===== src/Retry/Attempts.antt =====
-- The attempts of `Do` in internal/dbretry/retry.go.
use mysql_mcp_server.Prelude.{
  ◌≡◌, ◌∙◌, refl, sym, ap, subst, ◌⊎◌, inl, inr, ℕ, zero, suc, ◌≤◌, ◌<◌, Bool, true, false, Option,
  none, some, arith, ◌==◌, Bool-cases, Option-cases, or_else,
}
use mysql_mcp_server.Retry.{
  DbError, RetryConfig, is_transient_error, Attempt, succeeded, failed, permanent, Backoff, outcome,
  classify, retries, do_retry,
}

abbrev pub is_failed : {E : Type 0} → Attempt E → Bool
is_failed (failed e) = true
is_failed _ = false

abbrev pub later : {E : Type 0} → Option E × ℕ → Option E × ℕ
later (o, k) = (o, suc k)

-- What the package documents, run by run: a run that succeeds or fails for good is the last; so is a
-- run that fails without a retry left or with the context at its end, whose error is then returned;
-- and behind another run that fails the retries go on, with one less.
pub record IsBackoff {E : Type 0} (b : Backoff E) : Type 0 where
  pub settled :
      (limit : ℕ) (context : ℕ → Option E) (run : ℕ → Attempt E)
      → is_failed (run 0) ≡ false
      → b.retry limit context run ≡ (outcome (run 0), 0)
  pub exhausted :
      (context : ℕ → Option E) (run : ℕ → Attempt E) (e : E)
      → run 0 ≡ failed e
      → b.retry 0 context run ≡ (or_else (context 0) (some e), 0)
  pub canceled :
      (limit : ℕ) (context : ℕ → Option E) (run : ℕ → Attempt E) (e c : E)
      → run 0 ≡ failed e
      → context 0 ≡ some c
      → b.retry (suc limit) context run ≡ (some c, 0)
  pub repeated :
      (limit : ℕ) (context : ℕ → Option E) (run : ℕ → Attempt E) (e : E)
      → run 0 ≡ failed e
      → context 0 ≡ none
      → b.retry (suc limit) context run
        ≡ later (b.retry limit (λ n. context (suc n)) (λ n. run (suc n)))

-- How a sequence of runs ends: what the last one returned, which was not to be repeated or had no
-- retry left, or the error of the context.
abbrev pub IsEnded : {E : Type 0} → ℕ → (ℕ → Option E) → (ℕ → Attempt E) → Option E × ℕ → Type 0
IsEnded limit context run (o, k) =
    (k ≤ limit)
    × ((n : ℕ) → n < k → is_failed (run n) ≡ true)
    × (((o ≡ outcome (run k)) × ((is_failed (run k) ≡ false) ⊎ (k ≡ limit)))
        ⊎ ((o ≡ context k) × (is_failed (run k) ≡ true)))

Attempt-cases : {E : Type 0} (a : Attempt E) → (is_failed a ≡ false) ⊎ ((e : E) × (a ≡ failed e))
Attempt-cases succeeded = inl refl
Attempt-cases (failed e) = inr (e, refl)
Attempt-cases (permanent e) = inl refl

n-cases : (n : ℕ) → (n ≡ 0) ⊎ ((m : ℕ) × (n ≡ suc m))
n-cases zero = inl refl
n-cases (suc m) = inr (m, refl)

later-IsEnded :
    {E : Type 0} (limit : ℕ) (context : ℕ → Option E) (run : ℕ → Attempt E) (r : Option E × ℕ)
    → is_failed (run 0) ≡ true
    → IsEnded limit (λ n. context (suc n)) (λ n. run (suc n)) r
    → IsEnded (suc limit) context run (later r)
later-IsEnded limit context run (o, k) f (le, before, ended) = (
  (omega arith),
  (λ n lt. elim (n-cases n) [
    | inl z ↦ subst (λ j. is_failed (run j) ≡ true) (sym z) f
    | inr (m, s) ↦ subst (λ j. is_failed (run j) ≡ true) (sym s) (before m (omega arith))
  ]),
  elim ended [
    | inr c ↦ inr c
    | inl (e, inl l) ↦ inl (e, inl l)
    | inl (e, inr l) ↦ inl (e, inr (ap suc l))
  ],
)

last-IsEnded :
    {E : Type 0} (context : ℕ → Option E) (run : ℕ → Attempt E) (e : E)
    → run 0 ≡ failed e
    → (o : Option E) → context 0 ≡ o
    → IsEnded 0 context run (or_else (context 0) (some e), 0)
last-IsEnded context run e f none c = (
  (omega arith),
  (λ n lt. absurd (omega arith)),
  inl (ap (λ p. or_else p (some e)) c ∙ sym (ap outcome f), inr refl),
)
last-IsEnded context run e f (some d) c = (
  (omega arith),
  (λ n lt. absurd (omega arith)),
  inr (ap (λ p. or_else p (some e)) c ∙ sym c, ap is_failed f),
)

retry-IsEnded :
    {E : Type 0} (b : Backoff E) (limit : ℕ) (context : ℕ → Option E) (run : ℕ → Attempt E)
    → IsBackoff b
    → IsEnded limit context run (b.retry limit context run)
retry-IsEnded b zero context run laws = elim (Attempt-cases (run 0)) [
  | inl f ↦
      subst (IsEnded 0 context run) (sym (laws.settled 0 context run f))
        ((omega arith), (λ n lt. absurd (omega arith)), inl (refl, inl f))
  | inr (e, f) ↦
      subst (IsEnded 0 context run) (sym (laws.exhausted context run e f))
        (last-IsEnded context run e f (context 0) refl)
]
retry-IsEnded b (suc limit) context run laws = elim (Attempt-cases (run 0)) [
  | inl f ↦
      subst (IsEnded (suc limit) context run) (sym (laws.settled (suc limit) context run f))
        ((omega arith), (λ n lt. absurd (omega arith)), inl (refl, inl f))
  | inr (e, f) ↦ elim (Option-cases (context 0)) [
    | inl c ↦
        subst (IsEnded (suc limit) context run) (sym (laws.repeated limit context run e f c)) (
          later-IsEnded limit context run (b.retry limit (λ n. context (suc n)) (λ n. run (suc n)))
            (ap is_failed f) (retry-IsEnded b limit (λ n. context (suc n)) (λ n. run (suc n)) laws))
    | inr (d, c) ↦
        subst (IsEnded (suc limit) context run) (sym (laws.canceled limit context run e d f c))
          ((omega arith), (λ n lt. absurd (omega arith)), inr (sym c, ap is_failed f))
  ]
]

-- An operation's error that is worth another attempt.
abbrev pub is_transient : Option DbError → Bool
is_transient none = false
is_transient (some e) = is_transient_error e

failed-transient : (o : Option DbError) → is_failed (classify o) ≡ is_transient o
unfolding classify
failed-transient none = refl
failed-transient (some e) = ground arith

outcome-classify : (o : Option DbError) → outcome (classify o) ≡ o
unfolding classify
outcome-classify none = refl
outcome-classify (some e) = ground arith

-- `Do` ends after at most the retries that are configured, and every run before the last failed with
-- a transient error. It returns what the last run returned, which was nil, not transient or behind
-- the last retry, or else the context's error, behind a run with a transient error. The package for
-- the backoff behaves as it documents.
pub do_retry_lem :
    (b : Backoff DbError) (cfg : RetryConfig) (context op : ℕ → Option DbError)
    → IsBackoff b
    → ((do_retry b cfg context op).1 ≤ retries cfg)
      × ((n : ℕ) → n < (do_retry b cfg context op).1 → is_transient (op n) ≡ true)
      × ((((do_retry b cfg context op).0 ≡ op ((do_retry b cfg context op).1))
            × ((is_transient (op ((do_retry b cfg context op).1)) ≡ false)
                ⊎ ((do_retry b cfg context op).1 ≡ retries cfg)))
          ⊎ (((do_retry b cfg context op).0 ≡ context ((do_retry b cfg context op).1))
              × (is_transient (op ((do_retry b cfg context op).1)) ≡ true)))
unfolding do_retry
do_retry_lem b cfg context op laws = elim (Bool-cases (retries cfg == 0)) [
  | inl e ↦ rw e ((omega arith), (λ n lt. absurd (omega arith)), inl (refl, inr (ground arith)))
  | inr e ↦
      let (le, before, ended) = retry-IsEnded b (retries cfg) context (λ n. classify (op n)) laws in
      rw e (
        le,
        (λ n lt. sym (failed-transient (op n)) ∙ before n lt),
        elim ended [
          | inl (o, inl f) ↦ inl (
            o ∙ outcome-classify (op ((b.retry (retries cfg) context (λ n. classify (op n))).1)),
            inl (
                sym
                  (failed-transient (op ((b.retry (retries cfg) context (λ n. classify (op n))).1)))
                ∙ f),
          )
          | inl (o, inr f) ↦ inl (
            o ∙ outcome-classify (op ((b.retry (retries cfg) context (λ n. classify (op n))).1)),
            inr f,
          )
          | inr (o, f) ↦ inr (
            o,
            sym (failed-transient (op ((b.retry (retries cfg) context (λ n. classify (op n))).1)))
                ∙ f,
          )
        ],
      )
]
