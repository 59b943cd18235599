-- ===== src/Labels/Tests.antt =====
-- The theorems on the labels and the guard's refusals at concrete inputs.
use mysql_mcp_server.Prelude.{◌≡◌, refl, true, false, [], ◌∷◌, some, Bytes, codes, equal}
use mysql_mcp_server.Labels.{sanitize_label, new_req_prefix, with_call_label, label_query}
use mysql_mcp_server.Labels.Comment.{without_comment, label_query-without_comment}

abbrev tool : Bytes
tool = codes "x*/ DROP"

named : equal (sanitize_label tool) [] ≡ false
unfolding sanitize_label equal
named = refl

label_query-without_comment_example :
    without_comment (
      label_query true
        (some ((with_call_label (new_req_prefix (some (63 ∷ 154 ∷ []))) 16 tool).0))
        (codes "SELECT 1"))
    ≡ some (codes " SELECT 1")
label_query-without_comment_example =
    label_query-without_comment (some (63 ∷ 154 ∷ [])) 16 tool (codes "SELECT 1") named
