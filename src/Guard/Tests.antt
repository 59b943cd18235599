-- ===== src/Guard/Tests.antt =====
-- The theorem on the guard's refusals at a concrete input.
use mysql_mcp_server.Prelude.{◌≡◌, refl, List, [], ◌∷◌, ◌++◌, any, some, Bytes, codes}
use mysql_mcp_server.Guard.{
  DriverError, no_error, server_error, note, Content, text_content, other_content,
  explain_guard_refusal,
}
use mysql_mcp_server.Guard.Noted.{note_all, is_refusal, IsExplained, explain_guard_refusal-noted}

abbrev message : Bytes
message =
    codes
      "The MySQL server is running with the mcp.read_only option so it cannot execute this statement"

abbrev errors : List DriverError
errors = no_error ∷ server_error 1290 message ∷ []

abbrev contents : List Content
contents = other_content ∷ text_content (codes "query failed: Error 1290: " ++ message) ∷ []

explain_guard_refusal-noted_example :
    IsExplained
      (λ setting. any (is_refusal setting) errors)
      contents
      (explain_guard_refusal (note_all errors []) contents)
explain_guard_refusal-noted_example = explain_guard_refusal-noted errors contents

-- The setting is named.
named : (explain_guard_refusal (note_all errors []) contents).1 ≡ some (codes "mcp.read_only")
unfolding explain_guard_refusal note
named = refl
