-- ===== src/Metrics/Tests.antt =====
-- The theorems on the token metrics at concrete inputs.
use mysql_mcp_server.Prelude.{◌≡◌, true, List, [], ◌∷◌, codes, length, take, ltb}
use mysql_mcp_server.Metrics.{QueryTokenRecord, record_of, new_token_metrics, snapshot, write_all}
use mysql_mcp_server.Metrics.History.{
  record_all, snapshot_of, snapshot-record_all, concat, write_all_lem,
}

abbrev records : List QueryTokenRecord
records =
    record_of (codes "run_query") 40 200
    ∷ record_of (codes "ping") 10 5
    ∷ record_of (codes "run_query") 7 9
    ∷ []

snapshot-record_all_example :
    snapshot true (record_all records (new_token_metrics 2)) ≡ snapshot_of true 2 records
snapshot-record_all_example = snapshot-record_all true 2 records

write_all_lem_example :
    ((write_all 4 [] (codes "{\"a\"" ∷ codes ":1}" ∷ [])).0
      ≡ take 4 (concat (codes "{\"a\"" ∷ codes ":1}" ∷ [])))
    × ((write_all 4 [] (codes "{\"a\"" ∷ codes ":1}" ∷ [])).1
        ≡ ltb 4 (length (concat (codes "{\"a\"" ∷ codes ":1}" ∷ []))))
write_all_lem_example = write_all_lem 4 (codes "{\"a\"" ∷ codes ":1}" ∷ [])
