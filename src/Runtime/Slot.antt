-- ===== src/Runtime/Slot.antt =====
-- One row of the columns of app/dataplane/account/table.py, and the integer enumerations of
-- app/dataplane/shared/enums.py. The source keeps one array for each column, all of one length; here
-- the columns stand side by side in a slot. `N` is the type of the health column's numbers.
use grok2apinew.Prelude.{ℕ, String, Bool, true, false, List, [], ◌∷◌, ◌==◌, if◌then◌else◌}
use text.Mathlib.Text.{◌==◌ as str_eq}
use grok2apinew.Prelude.Int.{ℤ}

pub data StatusId : Type 0 where
  active cooling expired disabled deleted : StatusId

abbrev pub is_active : StatusId → Bool
is_active active = true
is_active _ = false

abbrev pub is_deleted_id : StatusId → Bool
is_deleted_id deleted = true
is_deleted_id _ = false

abbrev pub same_status : StatusId → StatusId → Bool
same_status active active = true
same_status cooling cooling = true
same_status expired expired = true
same_status disabled disabled = true
same_status deleted deleted = true
same_status _ _ = false

-- POOL_STR_TO_ID.get(pool, 0)
unfoldable pub pool_id_of : String → ℕ
pool_id_of pool = if str_eq pool "super" then 1 else if str_eq pool "heavy" then 2 else 0

-- POOL_ID_TO_STR.get(pool_id, "basic")
unfoldable pub pool_name : ℕ → String
pool_name pool_id = if pool_id == 1 then "super" else if pool_id == 2 then "heavy" else "basic"

abbrev pub all_mode_ids : List ℕ
all_mode_ids = 0 ∷ 1 ∷ 2 ∷ 3 ∷ 4 ∷ []

-- The five columns of one kind, one for each mode.
pub record Modes (A : Type 0) : Type 0 where
  pub auto : A
  pub fast : A
  pub expert : A
  pub heavy : A
  pub grok_4_3 : A

module _ {A : Type 0} where
  -- _quota_col, _reset_col, _total_col, _window_col: any other mode reads the last column
  unfoldable pub col : Modes A → ℕ → A
  col ms mode_id =
      if mode_id == 0
      then ms.auto
      else if mode_id == 1
      then ms.fast
      else if mode_id == 2
      then ms.expert
      else if mode_id == 3
      then ms.heavy
      else ms.grok_4_3

  -- the same column, written
  unfoldable pub set_col : Modes A → ℕ → A → Modes A
  set_col ms mode_id a =
      if mode_id == 0
      then record ms { auto = a }
      else if mode_id == 1
      then record ms { fast = a }
      else if mode_id == 2
      then record ms { expert = a }
      else if mode_id == 3
      then record ms { heavy = a }
      else record ms { grok_4_3 = a }

pub record Slot (N : Type 0) : Type 0 where
  pub token : String
  pub pool_id : ℕ
  pub status_id : StatusId
  pub quota : Modes ℤ  -- int16
  pub total : Modes ℤ  -- int16
  pub window : Modes ℕ  -- uint32
  pub reset : Modes ℕ  -- uint32
  pub inflight : ℕ  -- uint16
  pub fail_count : ℕ  -- uint16
  pub health : N  -- float32
  pub last_use_at : ℕ  -- uint32
  pub last_fail_at : ℕ  -- uint32
  pub cooling_until_s : ℕ  -- uint32

-- The arguments of _append_slot and _update_slot, less the token and the old tags.
pub record SlotArgs (N : Type 0) : Type 0 where
  pub pool_id : ℕ
  pub status_id : StatusId
  pub quota : Modes ℤ
  pub total : Modes ℤ
  pub window : Modes ℤ
  pub reset : Modes ℕ
  pub health : N
  pub last_use_s : ℕ
  pub last_fail_s : ℕ
  pub fail_count : ℕ
  pub tags : List String

abbrev pub map_modes : {A B : Type 0} → (A → B) → Modes A → Modes B
map_modes f ms = record {
  auto = f ms.auto;
  fast = f ms.fast;
  expert = f ms.expert;
  heavy = f ms.heavy;
  grok_4_3 = f ms.grok_4_3;
}
