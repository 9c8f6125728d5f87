-- ===== src/Store/Accounts.antt =====
-- What the transactions make of the account of a token (app/control/account/backends/local.py).
use mathlib.Core.Option.{map}
use mathlib.Core.List.{Memᴰ}
use grok2apinew.Prelude.{
  ℕ, suc, ◌≡◌, refl, sym, ◌∙◌, String, Bool, true, false, ◌&&◌, Option, none, some, List, [], ◌∷◌,
  ◌++◌, arith, if◌then◌else◌, Option-cases, inl, inr,
}
use text.Mathlib.Text.{◌==◌ as str_eq}
use text.Mathlib.TextEquality.{eq_iff}
use grok2apinew.Prelude.Int.{ℤ}
use grok2apinew.Account.Models.{active}
use grok2apinew.Account.Normalize.{has_text}
use grok2apinew.Store.{Row, Store}
use grok2apinew.Store.Commands.{AccountUpsert, no_mutation}
use grok2apinew.Store.Rows.{update_where, find_row, has_token, is_live}
use grok2apinew.Store.Mutations.{
  bump_revision, fresh_row, revived, insert_row, valid_token, known_pool, upsert_sync,
  upsert_accounts, marked_deleted, is_live_token, delete_each, delete_accounts,
}

-- The row, deleted if the tokens name it and it is not deleted yet.
abbrev pub after_delete : ℤ → ℕ → String → List String → Row → Row
after_delete ts n token tokens row =
    if has_text token tokens && is_live row then marked_deleted ts n row else row

abbrev after_one : ℤ → ℕ → String → String → Row → Row
after_one ts n token k row = if str_eq k token && is_live row then marked_deleted ts n row else row

module _ (ts : ℤ) (n : ℕ) (token : String) where
  find_row-mark :
      (k : String) (rows : List Row)
      → find_row token (update_where (is_live_token k) (marked_deleted ts n) rows)
        ≡ map (after_one ts n token k) (find_row token rows)
  unfolding find_row update_where is_live_token has_token marked_deleted is_live
  find_row-mark k [] = refl
  find_row-mark k (row ∷ rows) =
      ground
        (arith, find_row-mark k rows, eq_iff row.token token, eq_iff row.token k, eq_iff k token)

  after_one-after_delete :
      (k : String) (tokens : List String) (row : Row)
      → after_delete ts n token tokens (after_one ts n token k row)
        ≡ after_delete ts n token (k ∷ tokens) row
  unfolding has_text is_live marked_deleted
  after_one-after_delete k tokens row = ground arith

  map-after_delete :
      (k : String) (tokens : List String) (o : Option Row)
      → map (after_delete ts n token tokens) (map (after_one ts n token k) o)
        ≡ map (after_delete ts n token (k ∷ tokens)) o
  map-after_delete k tokens none = refl
  map-after_delete k tokens (some row) = rw (after_one-after_delete k tokens row) refl

  map-none : (o : Option Row) → map (after_delete ts n token []) o ≡ o
  unfolding has_text
  map-none none = refl
  map-none (some row) = refl

  find_row-delete_each :
      (tokens : List String) (rows : List Row) (changes : ℕ)
      → find_row token (delete_each ts n tokens rows changes).0
        ≡ map (after_delete ts n token tokens) (find_row token rows)
  unfolding delete_each
  find_row-delete_each [] rows changes = sym (map-none (find_row token rows))
  find_row-delete_each (k ∷ tokens) rows changes =
      find_row-delete_each tokens _ _
      ∙ rw (find_row-mark k rows) (map-after_delete k tokens (find_row token rows))

-- After a deletion the account of a token is the one that stood there before, deleted at the new revision
-- if the tokens name it and it was not deleted yet, and as it was if not.
pub find_row-delete_accounts :
    (ts : ℤ) (token : String) (tokens : List String) (s : Store)
    → find_row token (delete_accounts ts tokens s).1.rows
      ≡ map (after_delete ts (suc s.revision) token tokens) (find_row token s.rows)
unfolding delete_accounts bump_revision
find_row-delete_accounts ts token [] s =
    sym (map-none ts (suc s.revision) token (find_row token s.rows))
find_row-delete_accounts ts token (k ∷ tokens) s =
    find_row-delete_each ts (suc s.revision) token (k ∷ tokens) s.rows 0

-- A row that an upsert at the revision has made or revived.
pub record IsActivated (n : ℕ) (o : Option Row) : Type 0 where
  pub row : Row
  pub found : o ≡ some row
  pub status : row.status ≡ active
  pub live : row.deleted_at ≡ none
  pub revision : row.revision ≡ n

module _ (n : ℕ) (token : String) where
  find_row-revive :
      (k : String) (new : Row) (rows : List Row)
      → find_row token (update_where (has_token k) (revived new) rows)
        ≡ map (λ row. if str_eq k token then revived new row else row) (find_row token rows)
  unfolding find_row update_where has_token revived
  find_row-revive k new [] = refl
  find_row-revive k new (row ∷ rows) = ground (
    arith,
    find_row-revive k new rows,
    eq_iff row.token token,
    eq_iff row.token k,
    eq_iff k token,
  )

  find_row-append :
      (rows : List Row) (new : Row)
      → find_row token (rows ++ new ∷ []) ≡ elim (find_row token rows) [
        | none ↦ if str_eq new.token token then some new else none
        | some row ↦ some row
      ]
  unfolding find_row
  find_row-append [] new = refl
  find_row-append (row ∷ rows) new = ground (arith, find_row-append rows new)

  module _ (new : Row) (status : new.status ≡ active) (live : new.deleted_at ≡ none)
      (revision : new.revision ≡ n) where
    revived-IsActivated : (row : Row) → IsActivated n (some (revived new row))
    unfolding revived
    revived-IsActivated row = record {
      row = revived new row;
      found = refl;
      status = refl;
      live = refl;
      revision = revision;
    }

    kept_or_revived :
        (b : Bool) (o : Option Row)
        → IsActivated n o
        → IsActivated n (map (λ row. if b then revived new row else row) o)
    kept_or_revived b none h = let e = h.found in cc
    kept_or_revived true (some row) h = revived-IsActivated row
    kept_or_revived false (some row) h = h

    appended-IsActivated :
        (o : Option Row)
        → IsActivated n o
        → IsActivated n (elim o [
          | none ↦ if str_eq new.token token then some new else none
          | some row ↦ some row
        ])
    appended-IsActivated none h = let e = h.found in cc
    appended-IsActivated (some row) h = h

    inserted :
        (rows : List Row) (o : Option Row)
        → find_row new.token rows ≡ o
        → (elim o [
          | none ↦ rows ++ new ∷ []
          | some found ↦ update_where (has_token new.token) (revived new) rows
        ])
          ≡ insert_row new rows
    unfolding insert_row
    inserted rows none e = rw (e, insert_row) refl
    inserted rows (some found) e = rw (e, insert_row) refl

    -- An insertion keeps an account active, whichever it inserts, and makes its own active.
    insert_row-keeps :
        (rows : List Row)
        → IsActivated n (find_row token rows)
        → IsActivated n (find_row token (insert_row new rows))
    insert_row-keeps rows h = elim (Option-cases (find_row new.token rows)) [
      | inl absent ↦
          rw (← inserted rows none absent, find_row-append rows new)
            (appended-IsActivated (find_row token rows) h)
      | inr (found, there) ↦
          rw (← inserted rows (some found) there, find_row-revive new.token new rows)
            (kept_or_revived (str_eq new.token token) (find_row token rows) h)
    ]

    new_IsActivated : IsActivated n (some new)
    new_IsActivated = record {
      row = new;
      found = refl;
      status = status;
      live = live;
      revision = revision;
    }

    insert_row-own :
        (rows : List Row) → new.token ≡ token → IsActivated n (find_row token (insert_row new rows))
    insert_row-own rows own =
        let at : str_eq new.token token ≡ true = ground (arith, eq_iff new.token token, own) in
        elim (Option-cases (find_row new.token rows)) [
          | inl absent ↦
              let unknown : find_row token rows ≡ none = rw (← own) absent in
              rw (← inserted rows none absent, find_row-append rows new, unknown, at)
                new_IsActivated
          | inr (found, there) ↦
              let known : find_row token rows ≡ some found = rw (← own) there in
              rw (← inserted rows (some found) there, find_row-revive new.token new rows, known, at)
                (revived-IsActivated found)
        ]

  module _ (ts : ℤ) where
    fresh_row-keeps :
        (other : String) (item : AccountUpsert) (rows : List Row)
        → IsActivated n (find_row token rows)
        → IsActivated n
            (find_row token (insert_row (fresh_row ts n other (known_pool item.pool) item) rows))
    unfolding fresh_row
    fresh_row-keeps other item rows h =
        insert_row-keeps (fresh_row ts n other (known_pool item.pool) item) refl refl refl rows h

    fresh_row-own :
        (item : AccountUpsert) (rows : List Row)
        → IsActivated n
            (find_row token (insert_row (fresh_row ts n token (known_pool item.pool) item) rows))
    unfolding fresh_row
    fresh_row-own item rows =
        insert_row-own (fresh_row ts n token (known_pool item.pool) item) refl refl refl rows refl

    upsert_sync-keeps :
        (items : List AccountUpsert) (rows : List Row) (count : ℕ)
        → IsActivated n (find_row token rows)
        → IsActivated n (find_row token (upsert_sync ts n items rows count).0)
    unfolding upsert_sync
    upsert_sync-keeps [] rows count h = h
    upsert_sync-keeps (item ∷ items) rows count h = elim (Option-cases (valid_token item)) [
      | inl invalid ↦ rw (invalid, upsert_sync) (upsert_sync-keeps items rows count h)
      | inr (other, valid) ↦
          rw (valid, upsert_sync)
            (upsert_sync-keeps items _ (suc count) (fresh_row-keeps other item rows h))
    ]

    upsert_sync-own :
        (item : AccountUpsert) (items : List AccountUpsert) (rows : List Row) (count : ℕ)
        → Memᴰ item items
        → valid_token item ≡ some token
        → IsActivated n (find_row token (upsert_sync ts n items rows count).0)
    unfolding upsert_sync
    upsert_sync-own item [] rows count m valid = elim m [ ]
    upsert_sync-own item (first ∷ items) rows count (Memᴰ.head e) valid =
        let valid' : valid_token first ≡ some token = rw (← e) valid in
        rw (valid', upsert_sync) (upsert_sync-keeps items _ (suc count) (fresh_row-own first rows))
    upsert_sync-own item (first ∷ items) rows count (Memᴰ.tail m) valid =
        elim (Option-cases (valid_token first)) [
          | inl invalid ↦ rw (invalid, upsert_sync) (upsert_sync-own item items rows count m valid)
          | inr (other, valid') ↦
              rw (valid', upsert_sync) (upsert_sync-own item items _ (suc count) m valid)
        ]

-- After an upsert, the account of every item that the validators accept is active and not deleted, at the
-- new revision, whether it was there before, deleted or not, or is new.
pub upsert_accounts-IsActivated :
    (ts : ℤ) (items : List AccountUpsert) (s : Store) (item : AccountUpsert) (token : String)
    → Memᴰ item items
    → valid_token item ≡ some token
    → IsActivated (suc s.revision) (find_row token (upsert_accounts ts items s).1.rows)
unfolding upsert_accounts bump_revision
upsert_accounts-IsActivated ts [] s item token m valid = elim m [ ]
upsert_accounts-IsActivated ts (first ∷ items) s item token m valid =
    upsert_sync-own (suc s.revision) token ts item (first ∷ items) s.rows 0 m valid

upsert_sync_invalid :
    (ts : ℤ) (n : ℕ) (items : List AccountUpsert) (rows : List Row) (count : ℕ)
    → ((item : AccountUpsert) → Memᴰ item items → valid_token item ≡ none)
    → upsert_sync ts n items rows count ≡ (rows, count)
unfolding upsert_sync
upsert_sync_invalid ts n [] rows count invalid = refl
upsert_sync_invalid ts n (item ∷ items) rows count invalid =
    rw (invalid item (Memᴰ.head refl), upsert_sync)
      (upsert_sync_invalid ts n items rows count (λ other m. invalid other (Memᴰ.tail m)))

-- An upsert of items that the validators all refuse raises nothing: it counts none and leaves the rows,
-- and it takes a new revision all the same.
pub upsert_accounts_invalid :
    (ts : ℤ) (item : AccountUpsert) (items : List AccountUpsert) (s : Store)
    → ((other : AccountUpsert) → Memᴰ other (item ∷ items) → valid_token other ≡ none)
    → upsert_accounts ts (item ∷ items) s
      ≡ (record no_mutation { revision = suc s.revision }, record s { revision = suc s.revision })
unfolding upsert_accounts bump_revision
upsert_accounts_invalid ts item items s invalid =
    rw (upsert_sync_invalid ts (suc s.revision) (item ∷ items) s.rows 0 invalid) refl
