-- ===== src/Access/Listed.antt =====
-- What the allow list lets pass, in terms of its entries.
use mysql_mcp_server.Prelude.{
  ◌≡◌, ◌↔◌, ◌⊎◌, inl, inr, refl, ◌∙◌, Bool, true, false, not, ◌&&◌, ◌||◌, List, [], ◌∷◌, none, some,
  arith, Bytes, equal, to_lower, trim_space, any, All, Bool-cases, Option-cases,
}
use mysql_mcp_server.Prelude.Assoc.{has, insert, has-insert}
use mysql_mcp_server.Access.{
  Names, add_entries, allowed_database_set, access_control_enabled, database_allowed, Reading,
  require_referenced_schemas, first_refused,
}

-- An entry that is not blank.
abbrev pub counts : Bytes → Bool
counts s = not (equal (trim_space s) [])

-- The entry names the database: trimmed, and without regard to case.
abbrev pub names : Bytes → Bytes → Bool
names db s = counts s && equal (to_lower (trim_space s)) (to_lower (trim_space db))

has-add_entries :
    (k : Bytes) (m : Names) (list : List Bytes)
    → has k (add_entries m list)
      ≡ (has k m || any (λ s. counts s && equal (to_lower (trim_space s)) k) list)
unfolding add_entries
has-add_entries k m [] = ground arith
has-add_entries k m (s ∷ list) = elim (Bool-cases (equal (trim_space s) [])) [
  | inl e ↦ rw e (has-add_entries k m list)
  | inr e ↦ rw e (
      has-add_entries k (insert (to_lower (trim_space s)) tt m) list
      ∙ rw (has-insert (to_lower (trim_space s)) k tt m) (ground arith))
]

enabled-insert : (k : Bytes) (m : Names) → access_control_enabled (insert k tt m) ≡ true
unfolding insert
enabled-insert k [] = refl
enabled-insert k ((j, u) ∷ m) = ground arith

enabled-add_entries :
    (m : Names) (list : List Bytes)
    → access_control_enabled (add_entries m list) ≡ (access_control_enabled m || any counts list)
unfolding add_entries
enabled-add_entries m [] = ground arith
enabled-add_entries m (s ∷ list) = elim (Bool-cases (equal (trim_space s) [])) [
  | inl e ↦ rw e (enabled-add_entries m list)
  | inr e ↦ rw e (
      enabled-add_entries (insert (to_lower (trim_space s)) tt m) list
      ∙ rw (enabled-insert (to_lower (trim_space s)) m) (ground arith))
]

-- With the set of a list, a database is allowed exactly if all entries of the list are blank, or it
-- is not blank and an entry names it.
pub database_allowed_lem :
    (list : List Bytes) (db : Bytes)
    → database_allowed (allowed_database_set list) db
      ≡ (not (any counts list) || (counts db && any (names db) list))
unfolding database_allowed allowed_database_set has
database_allowed_lem list db =
    rw (enabled-add_entries [] list)
      (rw (has-add_entries (to_lower (trim_space db)) [] list) (ground arith))

first_refused-none :
    (set : Names) (refs : List Bytes)
    → (first_refused set refs ≡ none) ↔ All (λ name. database_allowed set name ≡ true) refs
unfolding first_refused
first_refused-none set [] = (λ e. tt, λ e. refl)
first_refused-none set (name ∷ refs) = ground (arith, first_refused-none set refs)

-- A query passes exactly if there is no allow list, or it does not enumerate all databases, its
-- references can be read, and each of them is an allowed database.
pub require_referenced_schemas-none_iff :
    (r : Reading) (set : Names) (sql_text : Bytes)
    → (require_referenced_schemas r set sql_text ≡ none) ↔ (
        (access_control_enabled set ≡ false)
        ⊎ ((r.enumerates_all sql_text ≡ false)
            × ((refs : List Bytes) × (r.referenced sql_text ≡ some refs)
                × All (λ name. database_allowed set name ≡ true) refs)))
unfolding require_referenced_schemas
require_referenced_schemas-none_iff r set sql_text = (
  (λ h. elim (Bool-cases (access_control_enabled set)) [
    | inr d ↦ inl d
    | inl d ↦ elim (Option-cases (r.referenced sql_text)) [
      | inl e ↦ absurd (ground arith)
      | inr (refs, e) ↦
          inr (ground arith, (refs, e, (first_refused-none set refs).0 (ground arith)))
    ]
  ]),
  (λ p. elim p [
    | inl d ↦ ground arith
    | inr (c, (refs, e, v)) ↦ ground (arith, e, (first_refused-none set refs).1 v)
  ]),
)
