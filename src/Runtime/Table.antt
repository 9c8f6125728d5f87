-- ===== src/Runtime/Table.antt =====
-- app/dataplane/account/table.py: the runtime table, its selection indexes, and the two writers of
-- whole slots. A read or write past the end of a column raises IndexError.
pub mod Access
pub mod Indexes
pub mod Invariant
pub mod Writers
use grok2apinew.Prelude.{
  ℕ, suc, ◌+◌, ◌-◌, String, Bool, true, false, ◌&&◌, Option, none, some, List, [], ◌∷◌, ◌++◌, ◌==◌,
  ltb, leb, length, get_elem?, set, if◌then◌else◌,
}
use text.Mathlib.Text.{◌==◌ as str_eq}
use grok2apinew.Prelude.Int.{ℤ, pos, negsuc, pos_part, min_ℤ, max_ℤ}
use grok2apinew.Prelude.Result.{Result, ok, err, index_error, ◌>>=◌}
use grok2apinew.Prelude.SetMap.{SetMap, pair_eq, String_eq, add_at, discard_at}
use grok2apinew.Runtime.Slot.{
  StatusId, active, is_active, is_deleted_id, all_mode_ids, Modes, col, map_modes, Slot, SlotArgs,
}

pub record Table (N : Type 0) : Type 0 where
  pub slots : List (Slot N)
  pub idx_by_token : String → Option ℕ
  pub mode_available : SetMap (ℕ × ℕ)
  pub tag_idx : SetMap String
  pub revision : ℕ
  pub size : ℕ

-- The loop of _remove_from_indexes over the modes.
unfoldable pub remove_modes : List ℕ → ℕ → ℕ → SetMap (ℕ × ℕ) → SetMap (ℕ × ℕ)
unfolding discard_at
remove_modes [] pool_id idx d = d
remove_modes (m ∷ ms) pool_id idx d = remove_modes ms pool_id idx (discard_at (pool_id, m) idx d)

unfoldable pub remove_tags : List String → ℕ → SetMap String → SetMap String
unfolding discard_at
remove_tags [] idx d = d
remove_tags (tag ∷ tags) idx d = remove_tags tags idx (discard_at tag idx d)

unfoldable pub add_tags : List String → ℕ → SetMap String → SetMap String
unfolding add_at
add_tags [] idx d = d
add_tags (tag ∷ tags) idx d = add_tags tags idx (add_at tag idx d)

module _ {N : Type 0} where
  unfoldable pub make_empty_table : Table N
  make_empty_table = record {
    slots = [];
    idx_by_token = λ t. none;
    mode_available = record { keys = []; bucket = λ k. [] };
    tag_idx = record { keys = []; bucket = λ k. [] };
    revision = 0;
    size = 0;
  }

  abbrev found : Option (Slot N) → Result (Slot N)
  found none = err index_error
  found (some s) = ok s

  -- column[idx]
  unfoldable pub slot_at : Table N → ℕ → Result (Slot N)
  slot_at t idx = found (get_elem? t.slots idx)

  -- column[idx] = value
  unfoldable pub write : Table N → ℕ → Slot N → Table N
  write t idx s = record t { slots = set t.slots idx s }

  -- The loop of _add_to_indexes over the modes.
  unfoldable pub add_modes : List ℕ → Slot N → ℕ → SetMap (ℕ × ℕ) → SetMap (ℕ × ℕ)
  unfolding add_at col
  add_modes [] s idx d = d
  add_modes (m ∷ ms) s idx d =
      add_modes ms s idx (if ltb 0 (col s.window m) then add_at (s.pool_id, m) idx d else d)

  unfoldable pub add_to_indexes : Table N → ℕ → Result (Table N)
  unfolding slot_at add_modes
  add_to_indexes t idx = do
    s ← slot_at t idx
    ok (
        if is_active s.status_id
        then record t { mode_available = add_modes all_mode_ids s idx t.mode_available }
        else t)

  unfoldable pub remove_from_indexes : Table N → ℕ → Result (Table N)
  unfolding slot_at remove_modes
  remove_from_indexes t idx = do
    s ← slot_at t idx
    ok (record t { mode_available = remove_modes all_mode_ids s.pool_id idx t.mode_available })

  unfoldable pub remove_from_tag_idx : Table N → ℕ → List String → Table N
  unfolding remove_tags
  remove_from_tag_idx t idx tags = record t { tag_idx = remove_tags tags idx t.tag_idx }

  unfoldable pub add_to_tag_idx : Table N → ℕ → List String → Table N
  unfolding add_tags
  add_to_tag_idx t idx tags = record t { tag_idx = add_tags tags idx t.tag_idx }

-- max(-1, min(quota, 32767)) and max(0, min(total, 32767))
abbrev pub clamp_quota : ℤ → ℤ
clamp_quota q = max_ℤ (negsuc 0) (min_ℤ q (pos 32_767))

abbrev pub clamp_total : ℤ → ℤ
clamp_total q = max_ℤ (pos 0) (min_ℤ q (pos 32_767))

-- min(count, 65535)
abbrev pub cap_16 : ℕ → ℕ
cap_16 n = if ltb 65_535 n then 65_535 else n

module _ {N : Type 0} where
  -- The row that _append_slot appends; `max(0, window)` is an unsigned number.
  unfoldable pub new_slot : String → SlotArgs N → Slot N
  new_slot token args = record {
    token = token;
    pool_id = args.pool_id;
    status_id = args.status_id;
    quota = map_modes clamp_quota args.quota;
    total = map_modes clamp_total args.total;
    window = map_modes pos_part args.window;
    reset = args.reset;
    inflight = 0;
    fail_count = cap_16 args.fail_count;
    health = args.health;
    last_use_at = args.last_use_s;
    last_fail_at = args.last_fail_s;
    cooling_until_s = 0;
  }

  unfoldable pub append_slot : Table N → String → SlotArgs N → Result (Table N × ℕ)
  unfolding new_slot add_to_indexes add_to_tag_idx
  append_slot t token args = do
    let idx = length t.slots
    let appended : Table N = record t {
      slots = t.slots ++ new_slot token args ∷ [];
      idx_by_token = λ other. if str_eq token other then some idx else t.idx_by_token other;
      size = t.size + 1;
    }
    indexed ← add_to_indexes appended idx
    ok (add_to_tag_idx indexed idx args.tags, idx)

  -- The row that _update_slot leaves: the identity, the requests in flight, the health and the
  -- cooldown stay.
  unfoldable pub overwritten : Slot N → SlotArgs N → Slot N
  overwritten s args = record s {
    pool_id = args.pool_id;
    status_id = args.status_id;
    quota = map_modes clamp_quota args.quota;
    total = map_modes clamp_total args.total;
    window = map_modes pos_part args.window;
    reset = args.reset;
    fail_count = cap_16 args.fail_count;
    last_use_at = args.last_use_s;
    last_fail_at = args.last_fail_s;
  }

  unfoldable pub update_slot : Table N → ℕ → SlotArgs N → List String → Result (Table N)
  unfolding slot_at remove_from_indexes remove_from_tag_idx write overwritten add_to_indexes
      add_to_tag_idx
  update_slot t idx args old_tags = do
    removed ← remove_from_indexes t idx
    let untagged = remove_from_tag_idx removed idx old_tags
    s ← slot_at untagged idx
    indexed ← add_to_indexes (write untagged idx (overwritten s args)) idx
    ok (add_to_tag_idx indexed idx args.tags)

  unfoldable pub get_token : Table N → ℕ → Result String
  unfolding slot_at
  get_token t idx = do s ← slot_at t idx; ok s.token

  unfoldable pub get_pool_id : Table N → ℕ → Result ℕ
  unfolding slot_at
  get_pool_id t idx = do s ← slot_at t idx; ok s.pool_id

  unfoldable pub quota_for : Table N → ℕ → ℕ → Result ℤ
  unfolding slot_at col
  quota_for t idx mode_id = do s ← slot_at t idx; ok (col s.quota mode_id)

  -- iter_live_indices, from the first index given
  unfoldable pub live_indices : ℕ → List (Slot N) → List ℕ
  live_indices idx [] = []
  live_indices idx (s ∷ rest) =
      let others = live_indices (suc idx) rest in
      if is_deleted_id s.status_id then others else idx ∷ others
