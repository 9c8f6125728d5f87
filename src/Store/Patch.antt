-- ===== src/Store/Patch.antt =====
-- app/control/account/backends/local.py, _patch_sync: what a patch makes of a row.
use grok2apinew.Prelude.{ℕ, suc, String, Option, none, some, List, [], ◌∷◌, ◌++◌, if◌then◌else◌}
use text.Mathlib.Text.{◌==◌ as str_eq, is_lt}
use Prim.Native.String.{compare}
use grok2apinew.Prelude.Int.{ℤ, pos, pos_part, ◌+ℤ◌}
use grok2apinew.Prelude.Result.{Result, ok, ◌>>=◌}
use grok2apinew.Prelude.Keyed.{Keyed, insert}
use grok2apinew.Account.Models.{active, AccountRecord, Value, quota_set}
use grok2apinew.Account.Normalize.{has_text}
use grok2apinew.Account.StateMachine.Events.{pop_all}
use grok2apinew.Store.{Row, row_to_record}
use grok2apinew.Store.Commands.{AccountPatch}
use grok2apinew.Store.Rows.{find_row, update_where, has_token}

-- value if value is not None else old
abbrev or_old {ℓ} : {A : Type ℓ} → Option A → A → A
or_old none old = old
or_old (some new) old = new

abbrev or_old_value {ℓ} : {A : Type ℓ} → Option A → Option A → Option A
or_old_value none old = old
or_old_value (some new) old = some new

-- max(0, count + delta)
unfoldable pub counted : Option ℤ → ℕ → ℕ → ℕ
unfolding ◌+ℤ◌
counted none recorded old = old
counted (some delta) recorded old = pos_part (pos recorded +ℤ delta)

-- sorted(...) of a set of texts, an element at its place and only once
abbrev put_sorted : String → List String → List String
put_sorted x [] = x ∷ []
put_sorted x (y ∷ ys) =
    let rest = put_sorted x ys in
    if str_eq x y then y ∷ ys else if is_lt (compare x y) then x ∷ y ∷ ys else y ∷ rest

unfoldable pub sorted_set : List String → List String
sorted_set [] = []
sorted_set (x ∷ xs) = put_sorted x (sorted_set xs)

unfoldable pub without_texts : List String → List String → List String
unfolding has_text
without_texts removed [] = []
without_texts removed (x ∷ xs) =
    let rest = without_texts removed xs in if has_text x removed then rest else x ∷ rest

abbrev texts : Option (List String) → List String
texts none = []
texts (some xs) = xs

unfoldable pub patched_tags : AccountPatch → List String → List String
unfolding sorted_set without_texts
patched_tags patch tags =
    sorted_set
      (without_texts (texts patch.remove_tags) (or_old patch.tags tags ++ texts patch.add_tags))

-- dict.update
unfoldable pub merged : Keyed Value → Keyed Value → Keyed Value
unfolding insert
merged ext [] = ext
merged ext ((k, v) ∷ items) = merged (insert k v ext) items

abbrev items_of : Option (Keyed Value) → Keyed Value
items_of none = []
items_of (some items) = items

-- The assignments of `sets`, without those of clear_failures; `r` is the record that was read.
unfoldable pub patched : AccountPatch → AccountRecord → ℤ → ℕ → Row → Row
unfolding counted patched_tags merged
patched patch r ts revision row = record {
  token = row.token;
  pool = or_old patch.pool row.pool;
  status = or_old patch.status row.status;
  created_at = row.created_at;
  updated_at = ts;
  tags = patched_tags patch r.tags;
  quota_auto = or_old patch.quota_auto row.quota_auto;
  quota_fast = or_old patch.quota_fast row.quota_fast;
  quota_expert = or_old patch.quota_expert row.quota_expert;
  quota_heavy = or_old patch.quota_heavy row.quota_heavy;
  quota_grok_4_3 = or_old patch.quota_grok_4_3 row.quota_grok_4_3;
  usage_use_count = counted patch.usage_use_delta r.usage_use_count row.usage_use_count;
  usage_fail_count = counted patch.usage_fail_delta r.usage_fail_count row.usage_fail_count;
  usage_sync_count = counted patch.usage_sync_delta r.usage_sync_count row.usage_sync_count;
  last_use_at = or_old_value patch.last_use_at row.last_use_at;
  last_fail_at = or_old_value patch.last_fail_at row.last_fail_at;
  last_fail_reason = or_old_value patch.last_fail_reason row.last_fail_reason;
  last_sync_at = or_old_value patch.last_sync_at row.last_sync_at;
  last_clear_at = or_old_value patch.last_clear_at row.last_clear_at;
  state_reason = or_old_value patch.state_reason row.state_reason;
  deleted_at = row.deleted_at;
  ext = merged r.ext (items_of patch.ext_merge);
  revision = revision;
}

-- The assignments under patch.clear_failures.
unfoldable pub cleared : Row → Row
unfolding pop_all
cleared row = record row {
  status = active;
  usage_fail_count = 0;
  last_fail_at = none;
  last_fail_reason = none;
  state_reason = none;
  ext = pop_all row.ext;
}

unfoldable pub patch_row : AccountPatch → AccountRecord → ℤ → ℕ → Row → Row
unfolding patched cleared
patch_row patch r ts revision row =
    let set = patched patch r ts revision row in if patch.clear_failures then cleared set else set

-- _patch_sync, with the count
unfoldable pub patch_sync : ℤ → ℕ → List AccountPatch → List Row → ℕ → Result (List Row × ℕ)
unfolding find_row update_where has_token patch_row
patch_sync ts revision [] rows count = ok (rows, count)
patch_sync ts revision (patch ∷ patches) rows count = elim (find_row patch.token rows) [
  | none ↦ patch_sync ts revision patches rows count
  | some row ↦ do
    r ← row_to_record row
    qs ← quota_set r
    patch_sync ts revision patches
        (update_where (has_token patch.token) (patch_row patch r ts revision) rows) (suc count)
]
