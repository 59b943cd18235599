-- ===== src/Metrics.antt =====
-- cmd/mysql-mcp-server: token_metrics.go, and the limited writer of token_estimator.go. Costs and
-- ratios, which are floating point numbers, and the times are left out.
pub mod History
pub mod Tests
use mysql_mcp_server.Prelude.{
  ℕ, ◌+◌, ◌-◌, ◌%◌, Bool, true, false, List, [], ◌∷◌, ◌++◌, Option, none, some, Bytes, length, take,
  drop, ltb, if◌then◌else◌,
}
use mysql_mcp_server.Config.Env.{word}

-- `QueryTokenRecord`
pub record QueryTokenRecord : Type 0 where
  pub tool : Bytes
  pub input_tokens : ℕ
  pub output_tokens : ℕ
  pub total_tokens : ℕ

-- `TokenMetrics`
pub record TokenMetrics : Type 0 where
  pub total_input_tokens : ℕ
  pub total_output_tokens : ℕ
  pub total_tokens : ℕ
  pub query_count : ℕ
  pub recent_queries : List QueryTokenRecord
  pub max_recent : ℕ

-- `newTokenMetrics`
abbrev pub new_token_metrics : ℕ → TokenMetrics
new_token_metrics max_recent = record {
  total_input_tokens = 0;
  total_output_tokens = 0;
  total_tokens = 0;
  query_count = 0;
  recent_queries = [];
  max_recent = max_recent;
}

abbrev pub record_of : Bytes → ℕ → ℕ → QueryTokenRecord
record_of tool input_tokens output_tokens = record {
  tool = tool;
  input_tokens = input_tokens;
  output_tokens = output_tokens;
  total_tokens = (input_tokens + output_tokens) % word;
}

-- the window: the records behind the first ones that are too many
unfoldable pub keep_recent : ℕ → List QueryTokenRecord → List QueryTokenRecord
keep_recent max_recent records =
    if ltb max_recent (length records) then drop (length records - max_recent) records else records

-- `Record`
unfoldable pub record_query : QueryTokenRecord → TokenMetrics → TokenMetrics
unfolding keep_recent
record_query q m = record {
  total_input_tokens = (m.total_input_tokens + q.input_tokens) % word;
  total_output_tokens = (m.total_output_tokens + q.output_tokens) % word;
  total_tokens = (m.total_tokens + q.total_tokens) % word;
  query_count = (m.query_count + 1) % word;
  recent_queries = keep_recent (m.max_recent) (m.recent_queries ++ (q ∷ []));
  max_recent = m.max_recent;
}

-- `TokenMetricsSnapshot`
pub record TokenMetricsSnapshot : Type 0 where
  pub total_input : ℕ
  pub total_output : ℕ
  pub total : ℕ
  pub count : ℕ
  pub recent : List QueryTokenRecord
  pub token_tracking_on : Bool

-- `Snapshot`
abbrev pub snapshot : Bool → TokenMetrics → TokenMetricsSnapshot
snapshot token_tracking m = record {
  total_input = m.total_input_tokens;
  total_output = m.total_output_tokens;
  total = m.total_tokens;
  count = m.query_count;
  recent = m.recent_queries;
  token_tracking_on = token_tracking;
}

-- `limitedWriter.Write`: what the buffer holds then, and whether the limit was exceeded
unfoldable pub write : ℕ → Bytes → Bytes → Bytes × Bool
write limit buf p =
    if ltb limit (length buf + length p)
    then (if ltb 0 (limit - length buf) then buf ++ take (limit - length buf) p else buf, true)
    else (buf ++ p, false)

abbrev pub max_token_estimation_bytes : ℕ
max_token_estimation_bytes = 1048576

-- what `json.Encoder` writes, until a write fails
unfoldable pub write_all : ℕ → Bytes → List Bytes → Bytes × Bool
unfolding write
write_all limit buf [] = (buf, false)
write_all limit buf (p ∷ ps) =
    let rest = write_all limit (write limit buf p).0 ps in
    if (write limit buf p).1 then write limit buf p else rest

-- `estimateTokensForValue`, from the pieces in which the encoder writes the value; `count` is the
-- estimator, and `none` stands for one that is disabled
unfoldable pub estimate_tokens_for_value : Option (Bytes → ℕ) → List Bytes → ℕ
unfolding write_all
estimate_tokens_for_value none pieces = 0
estimate_tokens_for_value (some count) pieces =
    if (write_all max_token_estimation_bytes [] pieces).1
    then 262144
    else count ((write_all max_token_estimation_bytes [] pieces).0)
