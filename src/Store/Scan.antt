-- ===== src/Store/Scan.antt =====
-- What a scan of the changes reports (app/control/account/backends/local.py, scan_changes).
use mathlib.Core.List.{Memᴰ}
use grok2apinew.Prelude.{
  ℕ, zero, suc, ◌<◌, ◌≡◌, refl, sym, ◌∙◌, ap, String, Bool, true, false, List, [], ◌∷◌, arith, ltb,
  leb, ◌==◌, length, if◌then◌else◌,
}
use grok2apinew.Prelude.Result.{ok, >>=-eq-ok}
use grok2apinew.Account.Models.{AccountRecord, is_deleted}
use grok2apinew.Runtime.Sync.{AccountChangeSet}
use grok2apinew.Store.{Row, Store, row_to_record}
use grok2apinew.Store.Queries.{
  select_where, put_by_revision, order_by_revision, take, changed_since, split_changes,
  scan_changes,
}

-- Where the record of an account stands, which depends on whether it is deleted.
abbrev pub IsPlaced : Bool → AccountRecord → List AccountRecord × List String → Type 0
IsPlaced true r (items, deleted) = Memᴰ r.token deleted
IsPlaced false r (items, deleted) = Memᴰ r items

-- The record of a row is in a change set: among the items, or its token among the deleted ones.
abbrev pub IsReported : List AccountRecord × List String → Row → Type 0
IsReported (items, deleted) row =
    (r : AccountRecord) × (row_to_record row ≡ ok r) × IsPlaced (is_deleted r) r (items, deleted)

module _ (row : Row) where
  either :
      (b : Bool) (xs ys : List Row) → Memᴰ row xs → Memᴰ row ys → Memᴰ row (if b then xs else ys)
  either true xs ys there other = there
  either false xs ys there other = other

  select_where-Memᴰ :
      (selects : Row → Bool) (rows : List Row)
      → Memᴰ row rows
      → selects row ≡ true
      → Memᴰ row (select_where selects rows)
  unfolding select_where
  select_where-Memᴰ selects [] m h = elim m [ ]
  select_where-Memᴰ selects (other ∷ rows) (Memᴰ.head e) h =
      let there : selects other ≡ true = sym (ap selects e) ∙ h in rw there (Memᴰ.head e)
  select_where-Memᴰ selects (other ∷ rows) (Memᴰ.tail m) h =
      let rest = select_where-Memᴰ selects rows m h in
      either (selects other) _ _ (Memᴰ.tail rest) rest

  put_by_revision-Memᴰ_head : (rows : List Row) → Memᴰ row (put_by_revision row rows)
  unfolding put_by_revision
  put_by_revision-Memᴰ_head [] = Memᴰ.head refl
  put_by_revision-Memᴰ_head (other ∷ rows) =
      either (leb row.revision other.revision) _ _ (Memᴰ.head refl)
        (Memᴰ.tail (put_by_revision-Memᴰ_head rows))

  put_by_revision-Memᴰ_tail :
      (new : Row) (rows : List Row) → Memᴰ row rows → Memᴰ row (put_by_revision new rows)
  unfolding put_by_revision
  put_by_revision-Memᴰ_tail new [] m = elim m [ ]
  put_by_revision-Memᴰ_tail new (other ∷ rows) (Memᴰ.head e) =
      either (leb new.revision other.revision) _ _ (Memᴰ.tail (Memᴰ.head e)) (Memᴰ.head e)
  put_by_revision-Memᴰ_tail new (other ∷ rows) (Memᴰ.tail m) =
      either (leb new.revision other.revision) _ _ (Memᴰ.tail (Memᴰ.tail m))
        (Memᴰ.tail (put_by_revision-Memᴰ_tail new rows m))

  order_by_revision-Memᴰ : (rows : List Row) → Memᴰ row rows → Memᴰ row (order_by_revision rows)
  unfolding order_by_revision
  order_by_revision-Memᴰ [] m = elim m [ ]
  order_by_revision-Memᴰ (other ∷ rows) (Memᴰ.head e) =
      rw (← e) (put_by_revision-Memᴰ_head (order_by_revision rows))
  order_by_revision-Memᴰ (other ∷ rows) (Memᴰ.tail m) =
      put_by_revision-Memᴰ_tail other (order_by_revision rows) (order_by_revision-Memᴰ rows m)

take-eq : (n : ℕ) (rows : List Row) → (length (take n rows) == n) ≡ false → take n rows ≡ rows
unfolding take
take-eq zero rows h = cc
take-eq (suc n) [] h = refl
take-eq (suc n) (row ∷ rows) h = ap (λ rest. row ∷ rest) (take-eq n rows (ground arith))

-- One record in front: it is reported, and what was reported is still.
add_record : AccountRecord → List AccountRecord × List String → List AccountRecord × List String
add_record r (items, deleted) =
    if is_deleted r then (items, r.token ∷ deleted) else (r ∷ items, deleted)

first-IsPlaced :
    (b : Bool) (r : AccountRecord) (p : List AccountRecord × List String)
    → IsPlaced b r (if b then (p.0, r.token ∷ p.1) else (r ∷ p.0, p.1))
first-IsPlaced true r p = Memᴰ.head refl
first-IsPlaced false r p = Memᴰ.head refl

add_record-IsReported_head :
    (r : AccountRecord) (row : Row) (p : List AccountRecord × List String)
    → row_to_record row ≡ ok r
    → IsReported (add_record r p) row
unfolding add_record
add_record-IsReported_head r row p e = (r, e, first-IsPlaced (is_deleted r) r p)

later-IsPlaced :
    (c b : Bool) (r found : AccountRecord) (p : List AccountRecord × List String)
    → IsPlaced b found p
    → IsPlaced b found (if c then (p.0, r.token ∷ p.1) else (r ∷ p.0, p.1))
later-IsPlaced true true r found p m = Memᴰ.tail m
later-IsPlaced true false r found p m = m
later-IsPlaced false true r found p m = m
later-IsPlaced false false r found p m = Memᴰ.tail m

add_record-IsReported_tail :
    (r : AccountRecord) (row : Row) (p : List AccountRecord × List String)
    → IsReported p row
    → IsReported (add_record r p) row
unfolding add_record
add_record-IsReported_tail r row p (found, e, m) =
    (found, e, later-IsPlaced (is_deleted r) (is_deleted found) r found p m)

split_changes-IsReported :
    (row : Row) (rows : List Row) (p : List AccountRecord × List String)
    → split_changes rows ≡ ok p
    → Memᴰ row rows
    → IsReported p row
unfolding split_changes add_record
split_changes-IsReported row [] p e m = elim m [ ]
split_changes-IsReported row (other ∷ rows) p e m =
    let (r, read, e₁) = >>=-eq-ok (row_to_record other) _ e in
    let (rest, split, e₂) = >>=-eq-ok (split_changes rows) _ e₁ in
    let same : add_record r rest ≡ p = cc in
    rw (← same) (elim m [
      | Memᴰ.head at ↦ add_record-IsReported_head r row rest (ap row_to_record at ∙ read)
      | Memᴰ.tail later ↦
          add_record-IsReported_tail r row rest (split_changes-IsReported row rows rest split later)
    ])

-- A scan that does not say there is more reports every row that is newer than the revision it was asked
-- for, deleted or not, whatever was written after it had read the revision.
pub scan_changes-IsReported :
    (revision : ℕ) (s : Store) (since limit : ℕ) (c : AccountChangeSet) (row : Row)
    → scan_changes revision s since limit ≡ ok c
    → c.has_more ≡ false
    → Memᴰ row s.rows
    → since < row.revision
    → IsReported (c.items, c.deleted_tokens) row
unfolding scan_changes changed_since
scan_changes-IsReported revision s since limit c row e more m newer =
    let chosen = order_by_revision (select_where (λ other. ltb since other.revision) s.rows) in
    let (p, split, last) = >>=-eq-ok (split_changes (take limit chosen)) _ e in
    let whole = take-eq limit chosen (ground (arith, last)) in
    let there =
      order_by_revision-Memᴰ row _
        (select_where-Memᴰ row (λ other. ltb since other.revision) s.rows m (ground arith)) in
    let reported = split_changes-IsReported row (take limit chosen) p split (rw whole there) in
    let same : p ≡ (c.items, c.deleted_tokens) = ground (arith, last) in rw (← same) reported
