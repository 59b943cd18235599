-- ===== src/Metrics/History.antt =====
-- The token metrics of cmd/mysql-mcp-server/token_metrics.go against the history of all records, and
-- the buffer of the limited writer of token_estimator.go against all that was written.
use mysql_mcp_server.Prelude.{
  ◌≡◌, ◌∙◌, refl, sym, ap, subst, inl, inr, ℕ, ◌+◌, ◌-◌, ◌%◌, ◌≤◌, Bool, true, false, List, [], ◌∷◌,
  ◌++◌, append_assoc, append-nil, Bytes, arith, length, length-append, length-drop, take, drop,
  drop-nil, take-all, drop-drop, drop-append, take-append_within, take-append_beyond, ltb,
  Bool-cases,
}
use mysql_mcp_server.Config.Env.{word}
use mysql_mcp_server.Metrics.{
  QueryTokenRecord, TokenMetrics, new_token_metrics, keep_recent, record_query,
  TokenMetricsSnapshot, snapshot, write, write_all,
}

-- The records of a history, one after the other.
abbrev pub record_all : List QueryTokenRecord → TokenMetrics → TokenMetrics
record_all [] m = m
record_all (q ∷ qs) m = record_all qs (record_query q m)

abbrev pub sum : (QueryTokenRecord → ℕ) → List QueryTokenRecord → ℕ
sum f [] = 0
sum f (q ∷ qs) = f q + sum f qs

sum-append :
    (f : QueryTokenRecord → ℕ) (qs : List QueryTokenRecord) (q : QueryTokenRecord)
    → sum f (qs ++ (q ∷ [])) ≡ sum f qs + f q
sum-append f [] q = omega arith
sum-append f (x ∷ qs) q = omega (arith, sum-append f qs q)

keep_recent-drop : (n : ℕ) (qs : List QueryTokenRecord) → keep_recent n qs ≡ drop (length qs - n) qs
unfolding keep_recent
keep_recent-drop n qs = elim (Bool-cases (ltb n (length qs))) [
  | inl e ↦ rw e refl
  | inr e ↦ let f : length qs - n ≡ 0 = ground arith in rw (e, f) refl
]

keep_recent-append :
    (n : ℕ) (qs : List QueryTokenRecord) (q : QueryTokenRecord)
    → keep_recent n (drop (length qs - n) qs ++ (q ∷ []))
      ≡ drop (length (qs ++ (q ∷ [])) - n) (qs ++ (q ∷ []))
keep_recent-append n qs q =
    let k = length qs - n in
    let e = keep_recent-drop n (drop k qs ++ (q ∷ [])) in
    let s = sym (drop-append k qs (q ∷ []) (omega arith)) in
    let len : k + (length (drop k qs ++ (q ∷ [])) - n) ≡ length (qs ++ (q ∷ [])) - n =
      omega
        (arith, length-append (drop k qs) (q ∷ []), length-append qs (q ∷ []), length-drop k qs) in
    e
    ∙ ap (drop (length (drop k qs ++ (q ∷ [])) - n)) s
    ∙ drop-drop k (length (drop k qs ++ (q ∷ [])) - n) (qs ++ (q ∷ []))
    ∙ ap (λ j. drop j (qs ++ (q ∷ []))) len

-- The metrics hold the totals of a history and its last records.
abbrev IsHistory : ℕ → List QueryTokenRecord → TokenMetrics → Type 0
IsHistory n past m =
    (m.total_input_tokens ≡ sum (λ q. q.input_tokens) past % word)
    × (m.total_output_tokens ≡ sum (λ q. q.output_tokens) past % word)
    × (m.total_tokens ≡ sum (λ q. q.total_tokens) past % word)
    × (m.query_count ≡ length past % word)
    × (m.recent_queries ≡ drop (length past - n) past)
    × (m.max_recent ≡ n)

record_query-IsHistory :
    (n : ℕ) (past : List QueryTokenRecord) (m : TokenMetrics) (q : QueryTokenRecord)
    → IsHistory n past m
    → IsHistory n (past ++ (q ∷ [])) (record_query q m)
unfolding record_query
record_query-IsHistory n past m q (i, o, t, c, r, x) = (
  (omega (arith, i, sum-append (λ k. k.input_tokens) past q)),
  (omega (arith, o, sum-append (λ k. k.output_tokens) past q)),
  (omega (arith, t, sum-append (λ k. k.total_tokens) past q)),
  (omega (arith, c, length-append past (q ∷ []))),
  ap (λ k. keep_recent (m.max_recent) (k ++ (q ∷ []))) r
      ∙ ap (λ k. keep_recent k (drop (length past - n) past ++ (q ∷ []))) x
      ∙ keep_recent-append n past q,
  x,
)

record_all-IsHistory :
    (n : ℕ) (past qs : List QueryTokenRecord) (m : TokenMetrics)
    → IsHistory n past m
    → IsHistory n (past ++ qs) (record_all qs m)
record_all-IsHistory n past [] m h = subst (λ p. IsHistory n p m) (sym (append-nil past)) h
record_all-IsHistory n past (q ∷ qs) m h =
    subst (λ p. IsHistory n p (record_all qs (record_query q m))) (append_assoc past (q ∷ []) qs)
      (record_all-IsHistory n (past ++ (q ∷ [])) qs (record_query q m)
        (record_query-IsHistory n past m q h))

-- The snapshot of what a history says.
abbrev pub snapshot_of : Bool → ℕ → List QueryTokenRecord → TokenMetricsSnapshot
snapshot_of tracking n qs = record {
  total_input = sum (λ q. q.input_tokens) qs % word;
  total_output = sum (λ q. q.output_tokens) qs % word;
  total = sum (λ q. q.total_tokens) qs % word;
  count = length qs % word;
  recent = drop (length qs - n) qs;
  token_tracking_on = tracking;
}

-- A snapshot shows the history of all records: their totals and their number, as 64-bit integers, and
-- the last records, as many as the window holds.
pub snapshot-record_all :
    (tracking : Bool) (n : ℕ) (qs : List QueryTokenRecord)
    → snapshot tracking (record_all qs (new_token_metrics n)) ≡ snapshot_of tracking n qs
snapshot-record_all tracking n qs =
    let (i, o, t, c, r, x) = record_all-IsHistory n [] qs (new_token_metrics n) (
      (omega arith),
      (omega arith),
      (omega arith),
      (omega arith),
      (ap (λ k. k) (sym (drop-nil (0 - n)))),
      refl,
    ) in
    λ k. record {
      total_input = i k;
      total_output = o k;
      total = t k;
      count = c k;
      recent = r k;
      token_tracking_on = tracking;
    }

abbrev pub concat : List Bytes → Bytes
concat [] = []
concat (p ∷ ps) = p ++ concat ps

write-fits :
    (limit : ℕ) (buf p : Bytes)
    → ltb limit (length buf + length p) ≡ false
    → write limit buf p ≡ (buf ++ p, false)
unfolding write
write-fits limit buf p e = rw e refl

write-cut :
    (limit : ℕ) (buf p : Bytes)
    → ltb limit (length buf + length p) ≡ true
    → write limit buf p ≡ (buf ++ take (limit - length buf) p, true)
unfolding write
write-cut limit buf p e = elim (Bool-cases (ltb 0 (limit - length buf))) [
  | inl f ↦ rw (e, f) refl
  | inr f ↦
      let z : limit - length buf ≡ 0 = ground arith in
      rw (e, f) (ap (λ t. (t, true)) (sym (append-nil buf) ∙ ap (λ k. buf ++ take k p) (sym z)))
]

-- What is in the buffer, and whether the limit was exceeded, of all that is to be written.
abbrev IsCut : ℕ → Bytes → Bytes × Bool → Type 0
IsCut limit whole (buf, exceeded) = (buf ≡ take limit whole) × (exceeded ≡ ltb limit (length whole))

write_all-from :
    (limit : ℕ) (buf : Bytes) (ps : List Bytes)
    → length buf ≤ limit
    → IsCut limit (buf ++ concat ps) (write_all limit buf ps)
unfolding write_all
write_all-from limit buf [] h =
    subst (λ t. IsCut limit t (buf, false)) (sym (append-nil buf))
      (sym (take-all limit buf h), ground arith)
write_all-from limit buf (p ∷ ps) h = elim (Bool-cases (ltb limit (length buf + length p))) [
  | inr e ↦ rw (write-fits limit buf p e) (
      subst (λ t. IsCut limit t (write_all limit (buf ++ p) ps)) (append_assoc buf p (concat ps))
        (write_all-from limit (buf ++ p) ps (ground (arith, length-append buf p))))
  | inl e ↦
      let t =
        take-append_beyond limit buf (p ++ concat ps) h
        ∙ ap (λ t. buf ++ t)
            (take-append_within (limit - length buf) p (concat ps) (ground arith)) in
      rw (write-cut limit buf p e)
        (sym t, ground (arith, length-append buf (p ++ concat ps), length-append p (concat ps)))
]

-- The limited writer keeps the first bytes of all that is written, up to the limit, and reports that
-- the limit is exceeded exactly if there are more.
pub write_all_lem :
    (limit : ℕ) (ps : List Bytes)
    → ((write_all limit [] ps).0 ≡ take limit (concat ps))
      × ((write_all limit [] ps).1 ≡ ltb limit (length (concat ps)))
write_all_lem limit ps = write_all-from limit [] ps (omega arith)
