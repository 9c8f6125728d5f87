-- ===== src/Runtime/Feedback.antt =====
-- app/dataplane/account/feedback.py: feedback on a request, applied to the columns of its slot. The
-- caller holds the lock, so each operation is one step. The seconds that the source reads from the
-- clock are an argument `now`, and the floats of the health column are a parameter.
pub mod Consistent
use grok2apinew.Prelude.{ℕ, ◌+◌, ◌-◌, Bool, true, false, List, [], ◌∷◌, ltb, if◌then◌else◌}
use grok2apinew.Prelude.Int.{ℤ, pos, pos_part, ltb_ℤ, min_ℤ, max_ℤ, ◌-ℤ◌}
use grok2apinew.Prelude.Result.{Result, ok, ◌>>=◌}
use grok2apinew.Prelude.SetMap.{SetMap, pair_eq, add_at, touch}
use grok2apinew.Prelude.Float.{Float, smaller, larger}
use grok2apinew.Runtime.Slot.{
  StatusId, active, is_active, same_status, all_mode_ids, col, set_col, Slot,
}
use grok2apinew.Runtime.Table.{Table, slot_at, write, remove_modes, cap_16}

abbrev later : ℕ → ℕ → ℕ
later a b = if ltb a b then b else a

module _ {N : Type 0} where
  -- One slot is read, and written back changed.
  unfoldable pub modify : Table N → ℕ → (Slot N → Slot N) → Result (Table N)
  modify t idx change = do s ← slot_at t idx; ok (write t idx (change s))

  -- table.mode_available.setdefault((pool_id, mode_id), set()).add(idx), where the quota is positive
  unfoldable pub add_with_quota : List ℕ → Slot N → ℕ → SetMap (ℕ × ℕ) → SetMap (ℕ × ℕ)
  unfolding add_at col
  add_with_quota [] s idx d = d
  add_with_quota (m ∷ ms) s idx d =
      add_with_quota ms s idx
        (if ltb_ℤ (pos 0) (col s.quota m) then add_at (s.pool_id, m) idx d else d)

  -- The table after a status change of the slot `s` at `idx`.
  abbrev pub status_changed : Table N → ℕ → Slot N → StatusId → Table N
  status_changed t idx s new_status =
      let changed = write t idx (record s { status_id = new_status }) in
      if same_status s.status_id new_status
      then t
      else if is_active new_status
      then record changed { mode_available = add_with_quota all_mode_ids s idx t.mode_available }
      else record changed {
        mode_available = remove_modes all_mode_ids s.pool_id idx t.mode_available;
      }

  unfoldable pub apply_status_change : Table N → ℕ → StatusId → Result (Table N)
  apply_status_change t idx new_status = do
    s ← slot_at t idx
    ok (status_changed t idx s new_status)

  -- The slot that upstream's numbers make.
  unfoldable pub with_quota : Slot N → ℕ → ℤ → ℕ → Slot N
  unfolding set_col
  with_quota s mode_id remaining reset_s = record s {
    quota = set_col s.quota mode_id (max_ℤ (pos 0) (min_ℤ remaining (pos 32_767)));
    reset = set_col s.reset mode_id reset_s;
  }

  -- The table after upstream's numbers came for a mode of the slot `s` at `idx`.
  abbrev pub quota_updated : Table N → ℕ → Slot N → ℕ → ℤ → ℕ → Table N
  quota_updated t idx s mode_id remaining reset_s =
      let changed = write t idx (with_quota s mode_id remaining reset_s) in
      if is_active s.status_id
      then record changed {
        mode_available =
            if ltb 0 (col s.window mode_id)
            then add_at (s.pool_id, mode_id) idx t.mode_available
            else touch (s.pool_id, mode_id) t.mode_available;
      }
      else changed

  unfoldable pub apply_quota_update : Table N → ℕ → ℕ → ℤ → ℕ → Result (Table N)
  apply_quota_update t idx mode_id remaining reset_s = do
    s ← slot_at t idx
    ok (quota_updated t idx s mode_id remaining reset_s)

  abbrev pub one_more : Slot N → Slot N
  one_more s = record s { inflight = cap_16 (s.inflight + 1) }

  unfoldable pub increment_inflight : Table N → ℕ → Result (Table N)
  increment_inflight t idx = modify t idx one_more

  abbrev pub one_less : Slot N → Slot N
  one_less s = record s { inflight = s.inflight - 1 }

  -- max(0, n - 1) is the subtraction on ℕ
  unfoldable pub decrement_inflight : Table N → ℕ → Result (Table N)
  decrement_inflight t idx = modify t idx one_less

  abbrev pub used_at : ℕ → Slot N → Slot N
  used_at now s = record s { last_use_at = now }

  unfoldable pub update_last_use : Table N → ℕ → ℕ → Result (Table N)
  update_last_use t idx now = modify t idx (used_at now)

  abbrev pub failed_at : ℕ → Slot N → Slot N
  failed_at now s = record s { last_fail_at = now; fail_count = cap_16 (s.fail_count + 1) }

  unfoldable pub update_last_fail : Table N → ℕ → ℕ → Result (Table N)
  update_last_fail t idx now = modify t idx (failed_at now)

module _ (f : Float) where
  -- _bump_health and _adjust_health, as the change of the slot's health
  unfoldable pub bumped : f.Number → f.Number
  bumped health = smaller f (f.decimal (pos 10) 1) (f.plus health (f.decimal (pos 12) 2))

  unfoldable pub adjusted : f.Number → f.Number → f.Number
  adjusted factor health = larger f (f.decimal (pos 5) 2) (f.times health factor)

  abbrev pub spent : ℕ → Slot f.Number → Slot f.Number
  spent mode_id s = record s {
    quota = set_col s.quota mode_id (max_ℤ (pos 0) (col s.quota mode_id -ℤ pos 1));
    health = bumped s.health;
  }

  unfoldable pub apply_success_quota : Table f.Number → ℕ → ℕ → Result (Table f.Number)
  apply_success_quota t idx mode_id = modify t idx (spent mode_id)

  unfoldable pub apply_success_random : Table f.Number → ℕ → Result (Table f.Number)
  apply_success_random t idx = modify t idx (λ s. record s { health = bumped s.health })

  abbrev pub limited_quota : ℕ → ℤ → ℕ → Slot f.Number → Slot f.Number
  limited_quota mode_id cooling_sec now s = record s {
    quota = set_col s.quota mode_id (pos 0);
    cooling_until_s =
        if ltb_ℤ (pos 0) cooling_sec
        then later s.cooling_until_s (now + pos_part cooling_sec)
        else s.cooling_until_s;
    health = adjusted (f.decimal (pos 45) 2) s.health;
  }

  unfoldable pub apply_rate_limited_quota : Table f.Number → ℕ → ℕ → ℤ → ℕ → Result (Table f.Number)
  apply_rate_limited_quota t idx mode_id cooling_sec now =
      modify t idx (limited_quota mode_id cooling_sec now)

  abbrev pub limited_random : ℤ → ℕ → Slot f.Number → Slot f.Number
  limited_random cooling_sec now s = record s {
    cooling_until_s = later s.cooling_until_s (now + pos_part cooling_sec);
    health = adjusted (f.decimal (pos 45) 2) s.health;
  }

  unfoldable pub apply_rate_limited_random : Table f.Number → ℕ → ℤ → ℕ → Result (Table f.Number)
  apply_rate_limited_random t idx cooling_sec now = modify t idx (limited_random cooling_sec now)

  unfoldable pub adjust_health : Table f.Number → ℕ → f.Number → Result (Table f.Number)
  adjust_health t idx factor = modify t idx (λ s. record s { health = adjusted factor s.health })

  unfoldable pub apply_auth_failure : Table f.Number → ℕ → Result (Table f.Number)
  apply_auth_failure t idx = adjust_health t idx (f.decimal (pos 55) 2)

  unfoldable pub apply_forbidden : Table f.Number → ℕ → Result (Table f.Number)
  apply_forbidden t idx = adjust_health t idx (f.decimal (pos 25) 2)

  unfoldable pub apply_server_error : Table f.Number → ℕ → Result (Table f.Number)
  apply_server_error t idx = adjust_health t idx (f.decimal (pos 75) 2)
