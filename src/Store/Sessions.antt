-- ===== src/Store/Sessions.antt =====
-- Any sequence of the repository's transactions (app/control/account/backends/local.py).
use grok2apinew.Prelude.{
  ℕ, suc, ◌≤◌, ◌≡◌, refl, String, Option, none, some, Bool, List, [], ◌∷◌, ◌++◌, arith,
  Option-cases, inl, inr,
}
use grok2apinew.Prelude.Int.{ℤ}
use grok2apinew.Prelude.Result.{ok, >>=-eq-ok}
use grok2apinew.Account.Models.{AccountRecord, quota_set}
use grok2apinew.Store.{Row, Store, init, row_to_record}
use grok2apinew.Store.Commands.{
  AccountUpsert, AccountPatch, AccountMutationResult, no_mutation, BulkReplacePoolCommand,
}
use grok2apinew.Store.Rows.{update_where, find_row, has_token}
use grok2apinew.Store.Patch.{patched, cleared, patch_row, patch_sync}
use grok2apinew.Store.Mutations.{
  bump_revision, fresh_row, revived, insert_row, valid_token, known_pool, upsert_sync,
  upsert_accounts, patch_accounts, marked_deleted, is_live_token, delete_each, delete_accounts,
  is_live_of_pool, replace_pool,
}
use grok2apinew.Store.Revisions.{
  all_up_to, distinct, IsWellFormed, IsWellFormedTable, all_up_to-le, all_up_to-append,
  update_where-IsWellFormedTable, find_row-is_stored, distinct-append,
}

bumped : (n : ℕ) (rows : List Row) → IsWellFormedTable n rows → IsWellFormedTable (suc n) rows
bumped n rows h = record {
  bounded = all_up_to-le n (suc n) rows (omega arith) h.bounded;
  primary_key = h.primary_key;
}

module _ (ts : ℤ) (n : ℕ) where
  inserted :
      (row : Row) (rows : List Row) (o : Option Row)
      → find_row row.token rows ≡ o
      → row.revision ≤ n
      → IsWellFormedTable n rows
      → IsWellFormedTable n (elim o [
        | none ↦ rows ++ row ∷ []
        | some found ↦ update_where (has_token row.token) (revived row) rows
      ])
  unfolding revived
  inserted row rows none e le h = record {
    bounded = all_up_to-append n rows row le h.bounded;
    primary_key = distinct-append rows row (find_row-is_stored row.token rows e) h.primary_key;
  }
  inserted row rows (some found) e le h =
      update_where-IsWellFormedTable n (has_token row.token) (revived row) rows (λ other. le)
        (λ other. refl) h

  insert_row-IsWellFormedTable :
      (row : Row) (rows : List Row)
      → row.revision ≤ n
      → IsWellFormedTable n rows
      → IsWellFormedTable n (insert_row row rows)
  unfolding insert_row
  insert_row-IsWellFormedTable row rows le h = inserted row rows (find_row row.token rows) refl le h

  fresh_row-revision :
      (token pool : String) (item : AccountUpsert) → (fresh_row ts n token pool item).revision ≤ n
  unfolding fresh_row
  fresh_row-revision token pool item = omega arith

  upsert_sync-IsWellFormedTable :
      (items : List AccountUpsert) (rows : List Row) (count : ℕ)
      → IsWellFormedTable n rows
      → IsWellFormedTable n (upsert_sync ts n items rows count).0
  unfolding upsert_sync
  upsert_sync-IsWellFormedTable [] rows count h = h
  upsert_sync-IsWellFormedTable (item ∷ items) rows count h =
      elim (Option-cases (valid_token item)) [
        | inl invalid ↦ rw (invalid, upsert_sync) (upsert_sync-IsWellFormedTable items rows count h)
        | inr (token, valid) ↦
            let row = fresh_row ts n token (known_pool item.pool) item in
            rw (valid, upsert_sync)
              (upsert_sync-IsWellFormedTable items (insert_row row rows) (suc count) (
                insert_row-IsWellFormedTable row rows
                  (fresh_row-revision token (known_pool item.pool) item) h))
      ]

  patch_row-revision :
      (patch : AccountPatch) (r : AccountRecord) (row : Row)
      → (patch_row patch r ts n row).revision ≤ n
  unfolding patch_row patched cleared
  patch_row-revision patch r row = ground arith

  patch_row-token :
      (patch : AccountPatch) (r : AccountRecord) (row : Row)
      → (patch_row patch r ts n row).token ≡ row.token
  unfolding patch_row patched cleared
  patch_row-token patch r row = ground arith

  patch_sync-IsWellFormedTable :
      (patches : List AccountPatch) (rows : List Row) (count : ℕ) (r : List Row × ℕ)
      → patch_sync ts n patches rows count ≡ ok r
      → IsWellFormedTable n rows
      → IsWellFormedTable n r.0
  unfolding patch_sync
  patch_sync-IsWellFormedTable [] rows count r e h =
      let same : (rows, count) ≡ r = cc in rw (← same) h
  patch_sync-IsWellFormedTable (patch ∷ patches) rows count r e h =
      elim (Option-cases (find_row patch.token rows)) [
        | inl unknown ↦
            patch_sync-IsWellFormedTable patches rows count r (rw (unknown, patch_sync) at e) h
        | inr (row, known) ↦
            let (old, _, e₁) = >>=-eq-ok (row_to_record row) _ (rw (known, patch_sync) at e) in
            let (_, _, last) = >>=-eq-ok (quota_set old) _ e₁ in
            patch_sync-IsWellFormedTable patches
              (update_where (has_token patch.token) (patch_row patch old ts n) rows) (suc count) r
              last
              (update_where-IsWellFormedTable n (has_token patch.token) (patch_row patch old ts n)
                rows (patch_row-revision patch old) (patch_row-token patch old) h)
      ]

  marked-IsWellFormedTable :
      (selects : Row → Bool) (rows : List Row)
      → IsWellFormedTable n rows
      → IsWellFormedTable n (update_where selects (marked_deleted ts n) rows)
  unfolding marked_deleted
  marked-IsWellFormedTable selects rows h =
      update_where-IsWellFormedTable n selects (marked_deleted ts n) rows (λ row. omega arith)
        (λ row. refl) h

  delete_each-IsWellFormedTable :
      (tokens : List String) (rows : List Row) (changes : ℕ)
      → IsWellFormedTable n rows
      → IsWellFormedTable n (delete_each ts n tokens rows changes).0
  unfolding delete_each
  delete_each-IsWellFormedTable [] rows changes h = h
  delete_each-IsWellFormedTable (token ∷ tokens) rows changes h =
      delete_each-IsWellFormedTable tokens _ _
        (marked-IsWellFormedTable (is_live_token token) rows h)

-- One transaction that was committed.
pub data Commit : Store → Store → Type 0 where
  upserts :
      {s : Store} (ts : ℤ) (items : List AccountUpsert) → Commit s (upsert_accounts ts items s).1
  patches :
      {s : Store} {r : AccountMutationResult × Store} (ts : ℤ) (ps : List AccountPatch)
      → patch_accounts ts ps s ≡ ok r
      → Commit s r.1
  deletes : {s : Store} (ts : ℤ) (tokens : List String) → Commit s (delete_accounts ts tokens s).1
  replaces :
      {s : Store} (ts : ℤ) (command : BulkReplacePoolCommand)
      → Commit s (replace_pool ts command s).1

-- What a new store becomes by transactions.
pub data Reachable : Store → Type 0 where
  starts : Reachable init
  commits : {s s' : Store} → Reachable s → Commit s s' → Reachable s'

upsert_accounts-IsWellFormed :
    (ts : ℤ) (items : List AccountUpsert) (s : Store)
    → IsWellFormed s
    → IsWellFormed (upsert_accounts ts items s).1
unfolding upsert_accounts bump_revision
upsert_accounts-IsWellFormed ts [] s h = h
upsert_accounts-IsWellFormed ts (item ∷ items) s h =
    upsert_sync-IsWellFormedTable ts (suc s.revision) (item ∷ items) s.rows 0
      (bumped s.revision s.rows h)

patch_accounts-IsWellFormed :
    (ts : ℤ) (ps : List AccountPatch) (s : Store) (r : AccountMutationResult × Store)
    → patch_accounts ts ps s ≡ ok r
    → IsWellFormed s
    → IsWellFormed r.1
unfolding patch_accounts bump_revision
patch_accounts-IsWellFormed ts [] s r e h = let same : (no_mutation, s) ≡ r = cc in rw (← same) h
patch_accounts-IsWellFormed ts (p ∷ ps) s r e h =
    let n = suc s.revision in
    let (o, first, last) = >>=-eq-ok (patch_sync ts n (p ∷ ps) s.rows 0) _ e in
    let good =
      patch_sync-IsWellFormedTable ts n (p ∷ ps) s.rows 0 o first (bumped s.revision s.rows h) in
    let same : (
      record no_mutation { patched = o.1; revision = n },
      record { rows = o.0; revision = n },
    )
        ≡ r =
      cc in
    rw (← same) good

delete_accounts-IsWellFormed :
    (ts : ℤ) (tokens : List String) (s : Store)
    → IsWellFormed s
    → IsWellFormed (delete_accounts ts tokens s).1
unfolding delete_accounts bump_revision
delete_accounts-IsWellFormed ts [] s h = h
delete_accounts-IsWellFormed ts (token ∷ tokens) s h =
    delete_each-IsWellFormedTable ts (suc s.revision) (token ∷ tokens) s.rows 0
      (bumped s.revision s.rows h)

replace_pool-IsWellFormed :
    (ts : ℤ) (command : BulkReplacePoolCommand) (s : Store)
    → IsWellFormed s
    → IsWellFormed (replace_pool ts command s).1
unfolding replace_pool bump_revision
replace_pool-IsWellFormed ts command s h =
    let first = bumped s.revision s.rows h in
    upsert_sync-IsWellFormedTable ts (suc (suc s.revision)) command.upserts _ 0 (
      bumped (suc s.revision) _
        (marked-IsWellFormedTable ts (suc s.revision) (is_live_of_pool command.pool) s.rows first))

Commit-IsWellFormed : {s s' : Store} → Commit s s' → IsWellFormed s → IsWellFormed s'
Commit-IsWellFormed {s} (upserts ts items) h = upsert_accounts-IsWellFormed ts items s h
Commit-IsWellFormed {s} (patches {r = r} ts ps e) h = patch_accounts-IsWellFormed ts ps s r e h
Commit-IsWellFormed {s} (deletes ts tokens) h = delete_accounts-IsWellFormed ts tokens s h
Commit-IsWellFormed {s} (replaces ts command) h = replace_pool-IsWellFormed ts command s h

-- Whatever transactions a new store has committed, in any order, no row is newer than the store's
-- revision and no two rows have the same token.
pub Reachable-IsWellFormed : (s : Store) → Reachable s → IsWellFormed s
unfolding all_up_to distinct
Reachable-IsWellFormed s starts = record { bounded = refl; primary_key = refl }
Reachable-IsWellFormed s (commits {s = before} r c) =
    Commit-IsWellFormed c (Reachable-IsWellFormed before r)
