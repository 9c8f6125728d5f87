-- ===== src/Store/Rows.antt =====
-- The SQL statements of app/control/account/backends/local.py, on the rows in the order of their insertion.
-- An UPDATE is a walk over the rows that its WHERE selects.
use grok2apinew.Prelude.{
  ℕ, suc, String, Bool, true, false, Option, none, some, List, [], ◌∷◌, if◌then◌else◌,
}
use text.Mathlib.Text.{◌==◌ as str_eq}
use grok2apinew.Store.{Row}

-- UPDATE accounts SET ... WHERE ...
unfoldable pub update_where : (Row → Bool) → (Row → Row) → List Row → List Row
update_where selects f [] = []
update_where selects f (row ∷ rows) =
    let rest = update_where selects f rows in if selects row then f row ∷ rest else row ∷ rest

-- The number of rows that an UPDATE changes, SELECT changes()
unfoldable pub count_where : (Row → Bool) → List Row → ℕ
count_where selects [] = 0
count_where selects (row ∷ rows) =
    let rest = count_where selects rows in if selects row then suc rest else rest

-- SELECT * FROM accounts WHERE token = ?
unfoldable pub find_row : String → List Row → Option Row
find_row token [] = none
find_row token (row ∷ rows) = if str_eq row.token token then some row else find_row token rows

unfoldable pub has_token : String → Row → Bool
has_token token row = str_eq row.token token

-- deleted_at IS NULL
unfoldable pub is_live : Row → Bool
is_live row = elim row.deleted_at [ none ↦ true | some at ↦ false ]
