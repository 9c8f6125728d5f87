-- ===== src/Store/Mutations.antt =====
-- app/control/account/backends/local.py: the transactions that write.
use grok2apinew.Prelude.{
  ℕ, suc, String, Bool, ◌&&◌, ◌||◌, Option, none, some, List, [], ◌∷◌, ◌++◌, if◌then◌else◌,
}
use text.Mathlib.Text.{◌==◌ as str_eq}
use grok2apinew.Prelude.Int.{ℤ}
use grok2apinew.Prelude.Result.{Result, ok, ◌>>=◌}
use grok2apinew.Account.Models.{active, window_to_dict}
use grok2apinew.Account.Normalize.{normalize_token, normalize_pool}
use grok2apinew.Account.Quota.{default_quota_set}
use grok2apinew.Store.{Row, Store, dict_or_empty}
use grok2apinew.Store.Commands.{
  AccountUpsert, AccountPatch, AccountMutationResult, no_mutation, BulkReplacePoolCommand,
}
use grok2apinew.Store.Rows.{update_where, count_where, find_row, has_token, is_live}
use grok2apinew.Store.Patch.{patch_sync}

-- _bump_revision
unfoldable pub bump_revision : Store → Store
bump_revision s = record s { revision = suc s.revision }

-- The row that the INSERT of _upsert_sync makes.
unfoldable pub fresh_row : ℤ → ℕ → String → String → AccountUpsert → Row
fresh_row ts revision token pool item =
    let qs = default_quota_set pool in
    record {
      token = token;
      pool = pool;
      status = active;
      created_at = ts;
      updated_at = ts;
      tags = item.tags;
      quota_auto = window_to_dict qs.auto;
      quota_fast = window_to_dict qs.fast;
      quota_expert = window_to_dict qs.expert;
      quota_heavy = dict_or_empty qs.heavy;
      quota_grok_4_3 = dict_or_empty qs.grok_4_3;
      usage_use_count = 0;
      usage_fail_count = 0;
      usage_sync_count = 0;
      last_use_at = none;
      last_fail_at = none;
      last_fail_reason = none;
      last_sync_at = none;
      last_clear_at = none;
      state_reason = none;
      deleted_at = none;
      ext = item.ext;
      revision = revision;
    }

-- ON CONFLICT(token) DO UPDATE SET ...
unfoldable pub revived : Row → Row → Row
revived excluded row = record row {
  pool = excluded.pool;
  status = active;
  deleted_at = none;
  updated_at = excluded.updated_at;
  tags = excluded.tags;
  ext = excluded.ext;
  revision = excluded.revision;
}

unfoldable pub insert_row : Row → List Row → List Row
unfolding find_row update_where has_token revived
insert_row row rows = elim (find_row row.token rows) [
  | none ↦ rows ++ row ∷ []
  | some found ↦ update_where (has_token row.token) (revived row) rows
]

-- The token of a valid item: both its token and its pool must pass the validators.
unfoldable pub valid_token : AccountUpsert → Option String
valid_token item = elim (normalize_token item.token) [
  | none ↦ none
  | some token ↦ elim (normalize_pool item.pool) [ none ↦ none | some pool ↦ some token ]
]

unfoldable pub known_pool : String → String
known_pool pool =
    if str_eq pool "basic" || str_eq pool "super" || str_eq pool "heavy" then pool else "basic"

-- _upsert_sync, with the count
unfoldable pub upsert_sync : ℤ → ℕ → List AccountUpsert → List Row → ℕ → List Row × ℕ
unfolding valid_token known_pool insert_row fresh_row
upsert_sync ts revision [] rows count = (rows, count)
upsert_sync ts revision (item ∷ items) rows count = elim (valid_token item) [
  | none ↦ upsert_sync ts revision items rows count
  | some token ↦
      upsert_sync ts revision items
        (insert_row (fresh_row ts revision token (known_pool item.pool) item) rows) (suc count)
]

unfoldable pub upsert_accounts : ℤ → List AccountUpsert → Store → AccountMutationResult × Store
unfolding bump_revision upsert_sync
upsert_accounts ts [] s = (no_mutation, s)
upsert_accounts ts (item ∷ items) s =
    let s' = bump_revision s in
    let (rows, count) = upsert_sync ts s'.revision (item ∷ items) s'.rows 0 in
    (record no_mutation { upserted = count; revision = s'.revision }, record s' { rows = rows })

unfoldable pub patch_accounts :
    ℤ → List AccountPatch → Store → Result (AccountMutationResult × Store)
unfolding bump_revision patch_sync
patch_accounts ts [] s = ok (no_mutation, s)
patch_accounts ts (patch ∷ patches) s = do
  let s' = bump_revision s
  (rows, count) ← patch_sync ts s'.revision (patch ∷ patches) s'.rows 0
  ok (record no_mutation { patched = count; revision = s'.revision }, record s' { rows = rows })

-- SET deleted_at = ?, updated_at = ?, revision = ?
unfoldable pub marked_deleted : ℤ → ℕ → Row → Row
marked_deleted ts revision row = record row {
  deleted_at = some ts;
  updated_at = ts;
  revision = revision;
}

unfoldable pub is_live_token : String → Row → Bool
unfolding has_token is_live
is_live_token token row = has_token token row && is_live row

-- The executemany of delete_accounts. SELECT changes() then counts the rows of its last statement.
unfoldable pub delete_each : ℤ → ℕ → List String → List Row → ℕ → List Row × ℕ
unfolding update_where count_where is_live_token marked_deleted
delete_each ts revision [] rows changes = (rows, changes)
delete_each ts revision (token ∷ tokens) rows changes =
    delete_each ts revision tokens
      (update_where (is_live_token token) (marked_deleted ts revision) rows)
      (count_where (is_live_token token) rows)

unfoldable pub delete_accounts : ℤ → List String → Store → AccountMutationResult × Store
unfolding bump_revision delete_each
delete_accounts ts [] s = (no_mutation, s)
delete_accounts ts (token ∷ tokens) s =
    let s' = bump_revision s in
    let (rows, count) = delete_each ts s'.revision (token ∷ tokens) s'.rows 0 in
    (record no_mutation { deleted = count; revision = s'.revision }, record s' { rows = rows })

unfoldable pub is_live_of_pool : String → Row → Bool
unfolding is_live
is_live_of_pool pool row = str_eq row.pool pool && is_live row

unfoldable pub replace_pool : ℤ → BulkReplacePoolCommand → Store → AccountMutationResult × Store
unfolding bump_revision update_where count_where is_live_of_pool marked_deleted upsert_sync
replace_pool ts command s =
    let first = bump_revision s in
    let rows =
      update_where (is_live_of_pool command.pool) (marked_deleted ts first.revision) first.rows in
    let deleted = count_where (is_live_of_pool command.pool) first.rows in
    let second = bump_revision (record first { rows = rows }) in
    let (rows', upserted) = upsert_sync ts second.revision command.upserts second.rows 0 in
    (
      record no_mutation { upserted = upserted; deleted = deleted; revision = second.revision },
      record second { rows = rows' },
    )
