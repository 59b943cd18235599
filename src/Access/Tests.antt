-- ===== src/Access/Tests.antt =====
-- The theorems on the allow list at concrete inputs.
use mysql_mcp_server.Prelude.{◌≡◌, not, ◌&&◌, ◌||◌, List, [], ◌∷◌, Bytes, codes, any}
use mysql_mcp_server.Access.{allowed_database_set, database_allowed}
use mysql_mcp_server.Access.Listed.{counts, names, database_allowed_lem}

abbrev list : List Bytes
list = codes " Shop" ∷ codes " " ∷ codes "crm" ∷ []

database_allowed_lem_example :
    database_allowed (allowed_database_set list) (codes "SHOP ")
    ≡ (not (any counts list) || (counts (codes "SHOP ") && any (names (codes "SHOP ")) list))
database_allowed_lem_example = database_allowed_lem list (codes "SHOP ")
