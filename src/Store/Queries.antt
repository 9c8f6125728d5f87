-- ===== src/Store/Queries.antt =====
-- app/control/account/backends/local.py: the queries. Where one reads the revision and then the rows, no
-- transaction holds the two together: `revision` is what the first SELECT gave, and the store is that of the
-- second.
use grok2apinew.Prelude.{
  ℕ, zero, suc, String, Bool, List, [], ◌∷◌, ltb, leb, ◌==◌, length, if◌then◌else◌,
}
use grok2apinew.Prelude.Result.{Result, ok, ◌>>=◌}
use grok2apinew.Account.Models.{AccountRecord, is_deleted}
use grok2apinew.Account.Normalize.{has_text}
use grok2apinew.Runtime.Sync.{AccountChangeSet, RuntimeSnapshot}
use grok2apinew.Store.{Row, Store, row_to_record}
use grok2apinew.Store.Rows.{is_live}

-- SELECT ... WHERE
unfoldable pub select_where : (Row → Bool) → List Row → List Row
select_where selects [] = []
select_where selects (row ∷ rows) =
    let rest = select_where selects rows in if selects row then row ∷ rest else rest

-- ORDER BY revision: rows of one revision stay in the order of the index, which is that of the rows
unfoldable pub put_by_revision : Row → List Row → List Row
put_by_revision row [] = row ∷ []
put_by_revision row (other ∷ rows) =
    let rest = put_by_revision row rows in
    if leb row.revision other.revision then row ∷ other ∷ rows else other ∷ rest

unfoldable pub order_by_revision : List Row → List Row
unfolding put_by_revision
order_by_revision [] = []
order_by_revision (row ∷ rows) = put_by_revision row (order_by_revision rows)

-- LIMIT
unfoldable pub take : ℕ → List Row → List Row
take zero rows = []
take (suc n) [] = []
take (suc n) (row ∷ rows) = row ∷ take n rows

-- [self._row_to_record(r) for r in rows]
unfoldable pub records : List Row → Result (List AccountRecord)
records [] = ok []
records (row ∷ rows) = do r ← row_to_record row; rs ← records rows; ok (r ∷ rs)

unfoldable pub runtime_snapshot : ℕ → Store → Result RuntimeSnapshot
unfolding select_where is_live records
runtime_snapshot revision s = do
  items ← records (select_where is_live s.rows)
  ok (record { revision = revision; items = items })

unfoldable pub changed_since : ℕ → ℕ → Store → List Row
unfolding select_where order_by_revision take
changed_since since limit s =
    take limit (order_by_revision (select_where (λ row. ltb since row.revision) s.rows))

-- The loop of scan_changes: the records that are not deleted, and the tokens of those that are.
unfoldable pub split_changes : List Row → Result (List AccountRecord × List String)
unfolding is_deleted
split_changes [] = ok ([], [])
split_changes (row ∷ rows) = do
  r ← row_to_record row
  (items, deleted) ← split_changes rows
  ok (if is_deleted r then (items, r.token ∷ deleted) else (r ∷ items, deleted))

unfoldable pub scan_changes : ℕ → Store → ℕ → ℕ → Result AccountChangeSet
unfolding changed_since split_changes
scan_changes revision s since limit = do
  let rows = changed_since since limit s
  (items, deleted) ← split_changes rows
  ok (record {
    revision = revision;
    items = items;
    deleted_tokens = deleted;
    has_more = length rows == limit;
  })

abbrev selected : List String → Row → Bool
selected tokens row = has_text row.token tokens

unfoldable pub get_accounts : Store → List String → Result (List AccountRecord)
unfolding select_where records has_text
get_accounts s [] = ok []
get_accounts s (token ∷ tokens) = records (select_where (selected (token ∷ tokens)) s.rows)
