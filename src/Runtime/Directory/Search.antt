-- ===== src/Runtime/Directory/Search.antt =====
-- The search for a slot through the pools (app/dataplane/account/__init__.py, the loop of reserve).

use grok2apinew.Prelude.{
  ℕ, ◌≡◌, true, false, Option, some, List, [], ◌∷◌, arith, Option-cases, inl, inr, get_elem?,
}
use grok2apinew.Prelude.Result.{Result, ok, >>=-eq-ok}
use grok2apinew.Prelude.IntSet.{mem}
use grok2apinew.Prelude.Float.{Float}
use grok2apinew.Runtime.Slot.{Slot, is_active}
use grok2apinew.Runtime.Table.{Table}
use grok2apinew.Runtime.Table.Writers.{IsConsistent}
use grok2apinew.Runtime.Selector.{Strategy, quota, random}
use grok2apinew.Runtime.Selector.Eligible.{is_excluded}
use grok2apinew.Runtime.Selector.Choice.{quota_select_eligible}
use grok2apinew.Runtime.Selector.Random.{random_select_eligible}
use grok2apinew.Runtime.Selector.Consistent.{quota_select-IsConsistent, random_select-IsConsistent}
use grok2apinew.Runtime.Directory.{Settings, select, select_by, try_pools}

-- A slot that may serve a request of one of the pools.
pub record MayServe {N : Type 0} (t : Table N) (pools : List ℕ) (excluded : Option (List ℕ)) (i : ℕ)
    : Type 0 where
  pub slot : Slot N
  pub here : get_elem? t.slots i ≡ some slot
  pub of_pool : mem slot.pool_id pools ≡ true
  pub on : is_active slot.status_id ≡ true
  pub free : is_excluded excluded i ≡ false

module _ (f : Float) (settings : Settings) where
  select_by-IsConsistent :
      (strategy : Strategy) (t t' : Table f.Number) (p m now : ℕ)
      (excluded preferred : Option (List ℕ)) (o : Option ℕ)
      → select_by f settings strategy t p m excluded preferred now ≡ ok (t', o)
      → IsConsistent t
      → IsConsistent t'
  select_by-IsConsistent quota t t' p m now excluded preferred o e h =
      quota_select-IsConsistent f t t' p m now excluded preferred o e h
  select_by-IsConsistent random t t' p m now excluded preferred o e h =
      random_select-IsConsistent f settings.choice settings.max_inflight t t' p now excluded
        preferred o e h

  select_by-MayServe :
      (strategy : Strategy) (t t' : Table f.Number) (p m now i : ℕ)
      (excluded preferred : Option (List ℕ))
      → select_by f settings strategy t p m excluded preferred now ≡ ok (t', some i)
      → IsConsistent t
      → MayServe t' (p ∷ []) excluded i
  unfolding mem
  select_by-MayServe quota t t' p m now i excluded preferred e h =
      let (_, free, (s, here, pool, on, _)) =
        quota_select_eligible f t t' p m i now excluded preferred h e in
      record { slot = s; here = here; of_pool = ground arith; on = on; free = free }
  select_by-MayServe random t t' p m now i excluded preferred e h =
      let (same, free, (s, here, pool, on, _, _)) =
        random_select_eligible f settings.choice settings.max_inflight t t' p i now excluded
          preferred h e in
      record { slot = s; here = rw (← same) here; of_pool = ground arith; on = on; free = free }

  widen :
      {t : Table f.Number} {pools : List ℕ} {excluded : Option (List ℕ)} {i : ℕ} (p : ℕ)
      → MayServe t pools excluded i
      → MayServe t (p ∷ pools) excluded i
  unfolding mem
  widen p a = record {
    slot = a.slot;
    here = a.here;
    of_pool = ground (arith, a.of_pool);
    on = a.on;
    free = a.free;
  }

  widen_one :
      {t : Table f.Number} {excluded : Option (List ℕ)} {i : ℕ} (p : ℕ) (pools : List ℕ)
      → MayServe t (p ∷ []) excluded i
      → MayServe t (p ∷ pools) excluded i
  unfolding mem
  widen_one p pools a = record {
    slot = a.slot;
    here = a.here;
    of_pool = ground (arith, a.of_pool);
    on = a.on;
    free = a.free;
  }

  module _ (m now : ℕ) (excluded preferred : Option (List ℕ)) where
    abbrev pub choose : Table f.Number → ℕ → Result (Table f.Number × Option ℕ)
    choose t p = select f settings t p m excluded preferred now

    pub choose-IsConsistent :
        (t t' : Table f.Number) (p : ℕ) (o : Option ℕ)
        → choose t p ≡ ok (t', o)
        → IsConsistent t
        → IsConsistent t'
    unfolding select
    choose-IsConsistent t t' p o e h =
        select_by-IsConsistent settings.strategy t t' p m now excluded preferred o e h

    choose-MayServe :
        (t t' : Table f.Number) (p i : ℕ)
        → choose t p ≡ ok (t', some i)
        → IsConsistent t
        → MayServe t' (p ∷ []) excluded i
    unfolding select
    choose-MayServe t t' p i e h =
        select_by-MayServe settings.strategy t t' p m now i excluded preferred e h

    -- The first pool that gives a slot gives a slot that may serve.
    pub try_pools-MayServe :
        (t t' : Table f.Number) (pools : List ℕ) (i : ℕ)
        → try_pools choose t pools ≡ ok (t', some i)
        → IsConsistent t
        → IsConsistent t' × MayServe t' pools excluded i
    unfolding try_pools
    try_pools-MayServe t t' [] i e h = absurd (ground arith)
    try_pools-MayServe t t' (p ∷ pools) i e h =
        let ((t₁, found), first, rest) = >>=-eq-ok (choose t p) _ e in
        let good = choose-IsConsistent t t₁ p found first h in
        elim (Option-cases found) [
          | inl missed ↦
              let (good', a) = try_pools-MayServe t₁ t' pools i (rw missed at rest) good in
              (good', widen p a)
          | inr (j, hit) ↦
              let final : ◌≡◌ {A = Result (Table f.Number × Option ℕ)} (ok (t₁, some j))
                  (ok (t', some i)) =
                rw hit at rest in
              let same : t₁ ≡ t' = ground (arith, final) in
              let one : found ≡ some i = ground (arith, final, hit) in
              (
                rw (← same) good,
                widen_one p pools (choose-MayServe t t' p i (cc (first, same, one)) h),
              )
        ]
