-- ===== src/Runtime/Selector.antt =====
-- app/dataplane/account/selector.py: the two selection strategies. The order in which Python walks a
-- set is the order of the list that stands for it. The configured `max_inflight` and the choice that
-- `random.choice` makes (an index below the number of candidates) are arguments.
pub mod Best
pub mod Eligible
pub mod Windows
pub mod Choice
pub mod Optimal
pub mod Random
pub mod Consistent
use grok2apinew.Prelude.{
  ℕ, ◌+◌, ◌*◌, Bool, true, false, ◌&&◌, ◌||◌, not, Option, none, some, List, [], ◌∷◌, ◌==◌, ltb,
  leb, length, get_elem?, if◌then◌else◌,
}
use grok2apinew.Prelude.Int.{ℤ, pos, negsuc, pos_part, ltb_ℤ, leb_ℤ, ◌-ℤ◌}
use grok2apinew.Prelude.Result.{Result, ok, ◌>>=◌}
use grok2apinew.Prelude.IntSet.{nonempty, difference, intersection, union}
use grok2apinew.Prelude.SetMap.{SetMap}
use grok2apinew.Prelude.Float.{Float}
use grok2apinew.Runtime.Slot.{Modes, col, set_col, Slot}
use grok2apinew.Runtime.Table.{Table, slot_at, write}

pub data Strategy : Type 0 where
  quota random : Strategy

abbrev union_keys : List (ℕ × ℕ) → SetMap (ℕ × ℕ) → ℕ → List ℕ → List ℕ
union_keys [] d pool_id out = out
union_keys ((pid, mid) ∷ keys) d pool_id out =
    union_keys keys d pool_id (if pid == pool_id then union out (d.bucket (pid, mid)) else out)

-- _pool_union: the loop over `mode_available.items()`
unfoldable pub pool_union : SetMap (ℕ × ℕ) → ℕ → List ℕ
unfolding union
pool_union d pool_id = union_keys d.keys d pool_id []

-- working -= exclude_idxs, where there are any
unfoldable pub without : Option (List ℕ) → List ℕ → List ℕ
unfolding difference nonempty
without none working = working
without (some excluded) working = if nonempty excluded then difference working excluded else working

-- The preferred slots, where there are any among those at hand.
unfoldable pub prefer : Option (List ℕ) → List ℕ → List ℕ
unfolding intersection nonempty
prefer none working = working
prefer (some preferred) working =
    if nonempty preferred && nonempty (intersection working preferred)
    then intersection working preferred
    else working

module _ {N : Type 0} where
  -- {idx for idx in working if test(idx)}, where the test reads the slot's columns
  unfoldable pub keep_slots : Table N → (Slot N → Bool) → List ℕ → Result (List ℕ)
  unfolding slot_at
  keep_slots t test [] = ok []
  keep_slots t test (idx ∷ working) = do
    s ← slot_at t idx
    rest ← keep_slots t test working
    ok (if test s then idx ∷ rest else rest)

  -- One turn of the loop of _maybe_reset_windows.
  unfoldable pub window_is_over : ℕ → ℕ → ℕ → Slot N → Bool
  unfolding col
  window_is_over pool_id mode_id now s =
      let r = col s.reset mode_id in
      not (r == 0 || ltb now r)
      && s.pool_id == pool_id
      && not (leb_ℤ (col s.total mode_id) (pos 0) || col s.window mode_id == 0)

  unfoldable pub renewed : ℕ → ℕ → Slot N → Slot N
  unfolding col set_col
  renewed mode_id now s = record s {
    quota = set_col s.quota mode_id (col s.total mode_id);
    reset = set_col s.reset mode_id (now + col s.window mode_id);
  }

  unfoldable pub reset_each : Table N → List ℕ → ℕ → ℕ → ℕ → Result (Table N)
  reset_each t [] mode_id pool_id now = ok t
  reset_each t (idx ∷ candidates) mode_id pool_id now = do
    s ← slot_at t idx
    reset_each
        (if window_is_over pool_id mode_id now s then write t idx (renewed mode_id now s) else t)
        candidates mode_id pool_id now

  -- _maybe_reset_windows; PoolId.BASIC is 0
  unfoldable pub maybe_reset_windows : Table N → List ℕ → ℕ → ℕ → ℕ → Result (Table N)
  maybe_reset_windows t candidates mode_id pool_id now =
      if not (pool_id == 0) then ok t else reset_each t candidates mode_id pool_id now

  abbrev pub has_some : ℕ → Slot N → Bool
  has_some mode_id s = ltb_ℤ (pos 0) (col s.quota mode_id)

module _ (f : Float) where
  -- score -= (1.0 - age_s / 15) * 15.0, where the last use is less than 15 seconds old
  unfoldable pub less_recent : ℕ → Slot f.Number → f.Number → f.Number
  less_recent now s score =
      let age = pos now -ℤ pos s.last_use_at in
      if ltb 0 s.last_use_at && ltb_ℤ age (pos 15)
      then f.minus score (
          f.times (f.minus (f.decimal (pos 10) 1) (f.over (f.of_int age) (f.of_int (pos 15))))
            (f.decimal (pos 150) 1))
      else score

  abbrev penalised : Slot f.Number → f.Number → f.Number
  penalised s score =
      f.minus (f.minus score (f.times (f.of_int (pos s.inflight)) (f.decimal (pos 200) 1))) (
        f.times (f.of_int (pos (if ltb 10 s.fail_count then 10 else s.fail_count)))
          (f.decimal (pos 40) 1))

  abbrev health_part : Slot f.Number → f.Number
  health_part s = f.times s.health (f.decimal (pos 1_000) 1)

  -- The score of _best.
  unfoldable pub quota_score : ℕ → ℕ → Slot f.Number → f.Number
  unfolding less_recent
  quota_score mode_id now s = less_recent now s (
      penalised s
        (f.plus (health_part s) (f.times (f.of_int (col s.quota mode_id)) (f.decimal (pos 250) 1))))

  -- The score of _best_no_quota.
  unfoldable pub health_score : ℕ → Slot f.Number → f.Number
  unfolding less_recent
  health_score now s = less_recent now s (penalised s (health_part s))

  -- The loop that both share: the best so far, and its score.
  unfoldable pub best_loop :
      (Slot f.Number → Bool)
      → (Slot f.Number → f.Number)
      → Table f.Number
      → List ℕ
      → Option ℕ × f.Number
      → Result (Option ℕ × f.Number)
  best_loop counts score t [] best = ok best
  best_loop counts score t (idx ∷ working) best = do
    s ← slot_at t idx
    best_loop counts score t working
        (if counts s && f.lt best.1 (score s) then (some idx, score s) else best)

  -- best_score = -1e18
  abbrev pub lowest : f.Number
  lowest = f.of_int (negsuc 999_999_999_999_999_999)

  unfoldable pub best : Table f.Number → List ℕ → ℕ → ℕ → Result (Option ℕ)
  best t working mode_id now = do
    found ← best_loop (has_some mode_id) (quota_score mode_id now) t working (none, lowest)
    ok (found.0)

  unfoldable pub best_no_quota : Table f.Number → List ℕ → ℕ → Result (Option ℕ)
  best_no_quota t working now = do
    found ← best_loop (λ s. true) (health_score now) t working (none, lowest)
    ok (found.0)

  -- The table comes back too, since _maybe_reset_windows writes to it.
  unfoldable pub quota_select :
      Table f.Number
      → ℕ
      → ℕ
      → Option (List ℕ)
      → Option (List ℕ)
      → ℕ
      → Result (Table f.Number × Option ℕ)
  quota_select t pool_id mode_id excluded preferred now =
      let candidates = t.mode_available.bucket (pool_id, mode_id) in
      if not (nonempty candidates) then ok (t, none) else do
        t' ← maybe_reset_windows t candidates mode_id pool_id now
        working ← keep_slots t' (has_some mode_id) (without excluded candidates)
        idx ← best t' (prefer preferred working) mode_id now
        ok (if nonempty working then (t', idx) else (t', none))

  unfoldable pub quota_select_any :
      Table f.Number
      → ℕ
      → Option (List ℕ)
      → Option (List ℕ)
      → ℕ
      → Result (Table f.Number × Option ℕ)
  quota_select_any t pool_id excluded preferred now =
      let candidates = pool_union t.mode_available pool_id in
      let working = without excluded candidates in
      if not (nonempty candidates) || not (nonempty working)
      then ok (t, none)
      else do idx ← best_no_quota t (prefer preferred working) now; ok (t, idx)

  abbrev pub is_free : ℕ → ℤ → Slot f.Number → Bool
  is_free now max_inflight s = leb s.cooling_until_s now && ltb_ℤ (pos s.inflight) max_inflight

  -- `choice n` is the index that random.choice takes of `n` candidates.
  unfoldable pub random_select :
      (ℕ → ℕ)
      → ℤ
      → Table f.Number
      → ℕ
      → Option (List ℕ)
      → Option (List ℕ)
      → ℕ
      → Result (Table f.Number × Option ℕ)
  random_select choice max_inflight t pool_id excluded preferred now =
      let candidates = pool_union t.mode_available pool_id in
      if not (nonempty candidates) then ok (t, none) else do
        working ← keep_slots t (is_free now max_inflight) (without excluded candidates)
        let among = prefer preferred working
        ok (t, if nonempty working then get_elem? among (choice (length among)) else none)
