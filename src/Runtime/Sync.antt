-- ===== src/Runtime/Sync.antt =====
-- app/dataplane/account/sync.py: the table built from a snapshot of the repository, and kept up to date
-- from its change sets. The answers of the repository are arguments: a snapshot, and the change sets
-- that scan_changes returns in turn. The status of each record is derived at a time of its own: `clock`
-- gives it, by the number of change sets and of records that are still to come. A timestamp below zero
-- raises here, where the source raises as the unsigned column takes it.
pub mod Consistent
use grok2apinew.Prelude.{
  ℕ, ◌+◌, ◌-◌, ◌/◌, String, Bool, true, false, ◌||◌, Option, none, some, List, [], ◌∷◌, length, ltb,
  if◌then◌else◌,
}
use grok2apinew.Prelude.Int.{ℤ, pos, negsuc, max_ℤ}
use grok2apinew.Prelude.Result.{Result, ok, err, overflow_error, ◌>>=◌}
use grok2apinew.Prelude.IntSet.{mem}
use grok2apinew.Prelude.SetMap.{SetMap, String_eq, pair_eq}
use grok2apinew.Prelude.Float.{Float}
use grok2apinew.Account.Models
use grok2apinew.Account.Models.{
  AccountStatus, AccountRecord, QuotaWindow, AccountQuotaSet, is_deleted, quota_set,
}
use grok2apinew.Account.Quota.{normalize_quota_set}
use grok2apinew.Account.StateMachine.Status.{Conversions, derive_status}
use grok2apinew.Runtime.Slot.{
  StatusId, active, cooling, expired, disabled, deleted, pool_id_of, Modes, Slot, SlotArgs,
}
use grok2apinew.Runtime.Table.{
  Table, make_empty_table, slot_at, write, remove_from_indexes, append_slot, update_slot,
}

-- STATUS_STR_TO_ID
unfoldable pub status_id_of : AccountStatus → StatusId
status_id_of Models.active = active
status_id_of Models.cooling = cooling
status_id_of Models.expired = expired
status_id_of Models.disabled = disabled

-- A time in ms, as the seconds of an unsigned column.
unfoldable pub seconds : ℤ → Result ℕ
seconds (pos ms) = ok (ms / 1_000)
seconds (negsuc ms) = err overflow_error

-- ms_to_s(t) if t else 0
abbrev seconds_or_zero : Option ℤ → Result ℕ
seconds_or_zero none = ok 0
seconds_or_zero (some ms) = seconds ms

abbrev reset_s : QuotaWindow → Result ℕ
reset_s w = seconds_or_zero w.reset_at

abbrev optional_reset_s : Option QuotaWindow → Result ℕ
optional_reset_s none = ok 0
optional_reset_s (some w) = reset_s w

abbrev remaining_or_unknown : Option QuotaWindow → ℤ
remaining_or_unknown none = negsuc 0
remaining_or_unknown (some w) = max_ℤ (pos 0) w.remaining

abbrev total_of : Option QuotaWindow → ℤ
total_of none = pos 0
total_of (some w) = max_ℤ (pos 0) w.total

abbrev window_s : Option QuotaWindow → ℤ
window_s none = pos 0
window_s (some w) = max_ℤ (pos 0) w.window_seconds

-- The five values of one kind.
abbrev by_mode : (Option QuotaWindow → ℤ) → AccountQuotaSet → Modes ℤ
by_mode value qs = record {
  auto = value (some qs.auto);
  fast = value (some qs.fast);
  expert = value (some qs.expert);
  heavy = value qs.heavy;
  grok_4_3 = value qs.grok_4_3;
}

unfoldable pub resets : AccountQuotaSet → Result (Modes ℕ)
unfolding seconds
resets qs = do
  auto ← reset_s qs.auto
  fast ← reset_s qs.fast
  expert ← reset_s qs.expert
  heavy ← optional_reset_s qs.heavy
  grok_4_3 ← optional_reset_s qs.grok_4_3
  ok (record { auto = auto; fast = fast; expert = expert; heavy = heavy; grok_4_3 = grok_4_3 })

-- An answer of scan_changes.
pub record AccountChangeSet : Type 0 where
  pub revision : ℕ
  pub items : List AccountRecord
  pub deleted_tokens : List String
  pub has_more : Bool

pub record RuntimeSnapshot : Type 0 where
  pub revision : ℕ
  pub items : List AccountRecord

abbrev tags_in : List String → SetMap String → ℕ → List String
tags_in [] d idx = []
tags_in (tag ∷ tags) d idx =
    let others = tags_in tags d idx in if mem idx (d.bucket tag) then tag ∷ others else others

-- The tags under which a slot stands, found by a walk over tag_idx.
unfoldable pub old_tags_of : SetMap String → ℕ → List String
unfolding mem
old_tags_of d idx = tags_in d.keys d idx

module _ {N : Type 0} where
  -- The status is written, and the slot is no longer counted.
  unfoldable pub mark_deleted : Table N → ℕ → Slot N → Table N
  unfolding write
  mark_deleted t idx s = record (write t idx (record s { status_id = deleted })) {
    size = t.size - 1;
  }

  abbrev pub delete_at : Table N → Option ℕ → Result (Table N × Bool)
  delete_at t none = ok (t, false)
  delete_at t (some idx) = do
    removed ← remove_from_indexes t idx
    s ← slot_at removed idx
    ok (mark_deleted removed idx s, true)

  -- The slot of a deleted token leaves the indexes and stays in the columns, marked. The Boolean says
  -- whether anything changed.
  unfoldable pub delete_slot : Table N → String → Result (Table N × Bool)
  unfolding remove_from_indexes slot_at mark_deleted
  delete_slot t token = delete_at t (t.idx_by_token token)

  unfoldable pub delete_each : Table N → List String → Bool → Result (Table N × Bool)
  delete_each t [] changed = ok (t, changed)
  delete_each t (token ∷ tokens) changed = do
    (t', one) ← delete_slot t token
    delete_each t' tokens (changed || one)

module _ (f : Float) (conversions : Conversions) (now : ℤ) where
  unfoldable pub record_to_slot_args : AccountRecord → Result (SlotArgs f.Number)
  unfolding quota_set normalize_quota_set derive_status status_id_of pool_id_of resets seconds
  record_to_slot_args r = do
    stored ← quota_set r
    let qs = normalize_quota_set r.pool stored
    status ← derive_status conversions r now
    reset ← resets qs
    last_use_s ← seconds_or_zero r.last_use_at
    last_fail_s ← seconds_or_zero r.last_fail_at
    ok (record {
      pool_id = pool_id_of r.pool;
      status_id = status_id_of status;
      quota = by_mode remaining_or_unknown qs;
      total = by_mode total_of qs;
      window = by_mode window_s qs;
      reset = reset;
      health = f.decimal (pos 10) 1;
      last_use_s = last_use_s;
      last_fail_s = last_fail_s;
      fail_count = r.usage_fail_count;
      tags = r.tags;
    })

  abbrev pub place :
      Table f.Number → Option ℕ → String → SlotArgs f.Number → Result (Table f.Number)
  place t none token args = do (t', idx) ← append_slot t token args; ok t'
  place t (some idx) token args = update_slot t idx args (old_tags_of t.tag_idx idx)

  -- One record of a change set: deleted, updated or appended.
  unfoldable pub apply_item : Table f.Number → AccountRecord → Bool → Result (Table f.Number × Bool)
  unfolding old_tags_of
  apply_item t r changed =
      if is_deleted r then (do (t', one) ← delete_slot t r.token; ok (t', changed || one)) else do
        args ← record_to_slot_args r
        t' ← place t (t.idx_by_token r.token) r.token args
        ok (t', true)

module _ (f : Float) (conversions : Conversions) (clock : ℕ → ℤ) where
  -- The loop of bootstrap over the records of the snapshot.
  unfoldable pub load_each : Table f.Number → List AccountRecord → Result (Table f.Number)
  load_each t [] = ok t
  load_each t (r ∷ rs) =
      let skipped = load_each t rs in
      if is_deleted r then skipped else do
        args ← record_to_slot_args f conversions (clock (length rs)) r
        (t', idx) ← append_slot t r.token args
        load_each t' rs

  unfoldable pub bootstrap : RuntimeSnapshot → Result (Table f.Number)
  bootstrap snapshot = do
    t ← load_each make_empty_table snapshot.items
    ok (record t { revision = snapshot.revision })

  unfoldable pub apply_items :
      Table f.Number → List AccountRecord → Bool → Result (Table f.Number × Bool)
  apply_items t [] changed = ok (t, changed)
  apply_items t (r ∷ rs) changed = do
    (t', changed') ← apply_item f conversions (clock (length rs)) t r changed
    apply_items t' rs changed'

  -- One turn of the loop of apply_changes.
  unfoldable pub apply_changeset :
      Table f.Number → AccountChangeSet → Bool → Result (Table f.Number × Bool)
  apply_changeset t changes changed = do
    (t₁, changed₁) ← delete_each t changes.deleted_tokens changed
    (t₂, changed₂) ← apply_items t₁ changes.items changed₁
    ok (
      if ltb t₂.revision changes.revision then record t₂ { revision = changes.revision } else t₂,
      changed₂,
    )

module _ (f : Float) (conversions : Conversions) (clock : ℕ → ℕ → ℤ) where
  -- apply_changes, on the change sets that the repository returns in turn.
  unfoldable pub apply_changes :
      Table f.Number → List AccountChangeSet → Bool → Result (Table f.Number × Bool)
  apply_changes t [] changed = ok (t, changed)
  apply_changes t (changes ∷ later) changed = do
    (t', changed') ← apply_changeset f conversions (clock (length later)) t changes changed
    let rest = apply_changes t' later changed'
    if changes.has_more then rest else ok (t', changed')
