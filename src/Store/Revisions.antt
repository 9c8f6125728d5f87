-- ===== src/Store/Revisions.antt =====
-- The revisions and tokens of the rows, over any transactions (app/control/account/backends/local.py).
use grok2apinew.Prelude.{
  ℕ, ◌≤◌, ◌≡◌, refl, ◌∙◌, String, Bool, true, false, ◌&&◌, ◌||◌, not, none, List, [], ◌∷◌, ◌++◌,
  arith, leb,
}
use text.Mathlib.Text.{◌==◌ as str_eq}
use text.Mathlib.TextEquality.{eq_iff}
use grok2apinew.Store.{Row, Store}
use grok2apinew.Store.Rows.{update_where, find_row}

-- Every row's revision is at most the number.
unfoldable pub all_up_to : ℕ → List Row → Bool
all_up_to n [] = true
all_up_to n (row ∷ rows) = leb row.revision n && all_up_to n rows

unfoldable pub is_stored : String → List Row → Bool
is_stored token [] = false
is_stored token (row ∷ rows) = str_eq row.token token || is_stored token rows

-- No two rows have the same token.
unfoldable pub distinct : List Row → Bool
unfolding is_stored
distinct [] = true
distinct (row ∷ rows) = not (is_stored row.token rows) && distinct rows

pub record IsWellFormedTable (n : ℕ) (rows : List Row) : Type 0 where
  pub bounded : all_up_to n rows ≡ true
  pub primary_key : distinct rows ≡ true

-- No row is newer than the store, and the tokens are a key.
abbrev pub IsWellFormed : Store → Type 0
IsWellFormed s = IsWellFormedTable s.revision s.rows

pub all_up_to-le :
    (m n : ℕ) (rows : List Row) → m ≤ n → all_up_to m rows ≡ true → all_up_to n rows ≡ true
unfolding all_up_to
all_up_to-le m n [] le h = refl
all_up_to-le m n (row ∷ rows) le h = ground (arith, all_up_to-le m n rows le)

pub all_up_to-update_where :
    (n : ℕ) (selects : Row → Bool) (f : Row → Row) (rows : List Row)
    → ((row : Row) → (f row).revision ≤ n)
    → all_up_to n rows ≡ true
    → all_up_to n (update_where selects f rows) ≡ true
unfolding all_up_to update_where
all_up_to-update_where n selects f [] le h = refl
all_up_to-update_where n selects f (row ∷ rows) le h =
    ground (arith, le row, all_up_to-update_where n selects f rows le)

is_stored-update_where :
    (token : String) (selects : Row → Bool) (f : Row → Row) (rows : List Row)
    → ((row : Row) → (f row).token ≡ row.token)
    → is_stored token (update_where selects f rows) ≡ is_stored token rows
unfolding is_stored update_where
is_stored-update_where token selects f [] same = refl
is_stored-update_where token selects f (row ∷ rows) same =
    ground (arith, same row, is_stored-update_where token selects f rows same)

distinct-update_where :
    (selects : Row → Bool) (f : Row → Row) (rows : List Row)
    → ((row : Row) → (f row).token ≡ row.token)
    → distinct (update_where selects f rows) ≡ distinct rows
unfolding distinct update_where
distinct-update_where selects f [] same = refl
distinct-update_where selects f (row ∷ rows) same = ground (
  arith,
  same row,
  is_stored-update_where row.token selects f rows same,
  distinct-update_where selects f rows same,
)

pub update_where-IsWellFormedTable :
    (n : ℕ) (selects : Row → Bool) (f : Row → Row) (rows : List Row)
    → ((row : Row) → (f row).revision ≤ n)
    → ((row : Row) → (f row).token ≡ row.token)
    → IsWellFormedTable n rows
    → IsWellFormedTable n (update_where selects f rows)
update_where-IsWellFormedTable n selects f rows le same h = record {
  bounded = all_up_to-update_where n selects f rows le h.bounded;
  primary_key = distinct-update_where selects f rows same ∙ h.primary_key;
}

pub find_row-is_stored :
    (token : String) (rows : List Row) → find_row token rows ≡ none → is_stored token rows ≡ false
unfolding find_row is_stored
find_row-is_stored token [] e = refl
find_row-is_stored token (row ∷ rows) e = ground (arith, find_row-is_stored token rows)

pub all_up_to-append :
    (n : ℕ) (rows : List Row) (row : Row)
    → row.revision ≤ n
    → all_up_to n rows ≡ true
    → all_up_to n (rows ++ row ∷ []) ≡ true
unfolding all_up_to
all_up_to-append n [] row le h = ground arith
all_up_to-append n (other ∷ rows) row le h = ground (arith, all_up_to-append n rows row le)

is_stored-append :
    (token : String) (rows : List Row) (row : Row)
    → is_stored token (rows ++ row ∷ []) ≡ (is_stored token rows || str_eq row.token token)
unfolding is_stored
is_stored-append token [] row = ground arith
is_stored-append token (other ∷ rows) row = ground (arith, is_stored-append token rows row)

pub distinct-append :
    (rows : List Row) (row : Row)
    → is_stored row.token rows ≡ false
    → distinct rows ≡ true
    → distinct (rows ++ row ∷ []) ≡ true
unfolding distinct is_stored
distinct-append [] row new h = refl
distinct-append (other ∷ rows) row new h = ground (
  arith,
  is_stored-append other.token rows row,
  distinct-append rows row,
  eq_iff other.token row.token,
  eq_iff row.token other.token,
)
