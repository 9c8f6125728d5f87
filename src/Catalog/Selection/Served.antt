-- ===== src/Catalog/Selection/Served.antt =====
-- What the reservation for a model grants (app/products/_account_selection.py, reserve_account).
use mathlib.Core.Path.{subst}
use grok2apinew.Prelude.{ℕ, ◌≡◌, refl, String, Bool, true, Option, none, some, List, [], ◌∷◌, arith}
use grok2apinew.Prelude.Int.{ℤ, pos}
use grok2apinew.Prelude.Result.{Result, ok, >>=-eq-ok}
use grok2apinew.Prelude.IntSet.{mem}
use grok2apinew.Prelude.Float.{Float}
use grok2apinew.Account.StateMachine.Status.{Conversions}
use grok2apinew.Runtime.Table.{Table, get_token, get_pool_id}
use grok2apinew.Runtime.Table.Writers.{IsConsistent}
use grok2apinew.Runtime.Feedback.{increment_inflight, update_last_use}
use grok2apinew.Runtime.Selector.{Strategy, quota, random}
use grok2apinew.Runtime.Directory.{
  Settings, AccountDirectory, AccountLease, reserve, reserve_in, grant, try_pools, exclude_idxs,
  prefer_tag_idxs,
}
use grok2apinew.Runtime.Directory.Search.{choose}
use grok2apinew.Runtime.Directory.Reserve.{IsGranted, reserve-IsGranted}
use grok2apinew.Runtime.Directory.Outcome.{IsSound}
use grok2apinew.Runtime.Directory.Tokens.{reserve_in-SameTokens}
use grok2apinew.Runtime.Directory.Sessions.{reserve_in-IsSound}
use grok2apinew.Catalog.Spec.{ModelSpec, mode_int, pool_candidates}
use grok2apinew.Catalog.Selection.{Outcome, mode_candidates, try_reserve, again, reserve_account}

-- The lease of an outcome is of one of the modes, and was granted in a consistent table, in which the slot
-- is none that the excluded tokens name.
pub record IsServed {N : Type 0} (pools modes : List ℕ) (exclude_tokens : List String) (ts : ℕ)
    (d : AccountDirectory N) (lease : AccountLease) (mode_id : ℕ) : Type 0 where
  pub after : Table N
  pub of_modes : mem mode_id modes ≡ true
  pub mode : lease.mode_id ≡ pos mode_id
  pub final : d.table ≡ some after
  pub consistent : IsConsistent after
  pub granted : IsGranted after pools (exclude_idxs after.idx_by_token exclude_tokens) lease ts

grant-mode_id :
    {N : Type 0} (d d' : AccountDirectory N) (mode_id : ℤ) (ts : ℕ) (found : Table N × Option ℕ)
    (lease : AccountLease)
    → grant d mode_id ts found ≡ ok (d', some lease)
    → lease.mode_id ≡ mode_id
unfolding grant
grant-mode_id d d' mode_id ts (t, none) lease e = ground (arith, e)
grant-mode_id d d' mode_id ts (t, some idx) lease e =
    let (busy, _, e₁) = >>=-eq-ok (increment_inflight t idx) _ e in
    let (used, _, e₂) = >>=-eq-ok (update_last_use busy idx ts) _ e₁ in
    let (token, _, e₃) = >>=-eq-ok (get_token used idx) _ e₂ in
    let (pool_id, _, last) = >>=-eq-ok (get_pool_id used idx) _ e₃ in ground (arith, last)

module _ (f : Float) (settings : Settings) (exclude_tokens : List String) (ts : ℕ) where
  -- The call that is made, where what the directory has for a table is known.
  called :
      (d : AccountDirectory f.Number) (pools : List ℕ) (m : ℕ)
      (r : AccountDirectory f.Number × Option AccountLease) (o : Option (Table f.Number))
      → d.table ≡ o
      → reserve f settings d pools m exclude_tokens [] ts ≡ ok r
      → reserve_in f settings o d pools m exclude_tokens [] ts ≡ ok r
  unfolding reserve
  called d pools m r o there e =
      subst (λ x. reserve_in f settings x d pools m exclude_tokens [] ts ≡ ok r) there e

  no_table :
      (d d' : AccountDirectory f.Number) (pools : List ℕ) (m : ℕ) (lease : AccountLease)
      → ¬ (reserve_in f settings none d pools m exclude_tokens [] ts ≡ ok (d', some lease))
  no_table d d' pools m lease e = ground (arith, e)

  lease_mode :
      (d d' : AccountDirectory f.Number) (pools : List ℕ) (m : ℕ) (t : Table f.Number)
      (lease : AccountLease)
      → reserve_in f settings (some t) d pools m exclude_tokens [] ts ≡ ok (d', some lease)
      → lease.mode_id ≡ pos m
  lease_mode d d' pools m t lease e =
      let excluded = exclude_idxs t.idx_by_token exclude_tokens in
      let preferred = prefer_tag_idxs t.tag_idx [] in
      let (found, _, rest) =
        >>=-eq-ok (try_pools (choose f settings m ts excluded preferred) t pools) _ e in
      grant-mode_id d d' (pos m) ts found lease rest

  module _ (pools : List ℕ) where
    reserved :
        (o : Option (Table f.Number)) (d d' : AccountDirectory f.Number) (modes : List ℕ) (m : ℕ)
        (lease : AccountLease)
        → d.table ≡ o
        → mem m modes ≡ true
        → reserve f settings d pools m exclude_tokens [] ts ≡ ok (d', some lease)
        → IsSound d
        → IsServed pools modes exclude_tokens ts d' lease m
    reserved none d d' modes m lease there at_m e h =
        absurd (no_table d d' pools m lease (called d pools m _ none there e))
    reserved (some t) d d' modes m lease there at_m e h =
        let (t', final, consistent, granted) =
          reserve-IsGranted f settings d d' t pools m exclude_tokens [] ts lease there
            (rw there at h) e in
        record {
          after = t';
          of_modes = at_m;
          mode = lease_mode d d' pools m t lease (called d pools m _ (some t) there e);
          final = final;
          consistent = consistent;
          granted =
              rw
                (reserve_in-SameTokens f settings d d' t t' pools m exclude_tokens [] ts
                  (some lease) (called d pools m _ (some t) there e) final)
                granted;
        }

    later_mode :
        (m n : ℕ) (modes : List ℕ) (d : AccountDirectory f.Number) (lease : AccountLease)
        → IsServed pools modes exclude_tokens ts d lease m
        → IsServed pools (n ∷ modes) exclude_tokens ts d lease m
    unfolding mem
    later_mode m n modes d lease s =
        let there = s.of_modes in
        record {
          after = s.after;
          of_modes = ground (arith, there);
          mode = s.mode;
          final = s.final;
          consistent = s.consistent;
          granted = s.granted;
        }

    first_mode : (m : ℕ) (modes : List ℕ) → mem m (m ∷ modes) ≡ true
    unfolding mem
    first_mode m modes = ground arith

    module _ (conversions : Conversions) (now : ℤ) where
      reserve-keeps :
          (d : AccountDirectory f.Number) (m : ℕ)
          (r : AccountDirectory f.Number × Option AccountLease)
          → reserve f settings d pools m exclude_tokens [] ts ≡ ok r
          → IsSound d
          → IsSound r.0
      unfolding reserve
      reserve-keeps d m r e h =
          reserve_in-IsSound f settings d.table d pools m exclude_tokens [] ts r refl e h

      -- The directory of an outcome is sound, and its lease, if it has one, is served.
      Kept : List ℕ → Outcome f.Number → Type 0
      Kept modes o =
          IsSound o.0
          × ((lease : AccountLease)
              → o.1 ≡ some lease
              → IsServed pools modes exclude_tokens ts o.0 lease o.2)

      without-Kept :
          (modes : List ℕ) (d : AccountDirectory f.Number) (m : ℕ) (o : Outcome f.Number)
          → ok (d, none, m) ≡ ok o
          → IsSound d
          → Kept modes o
      unfolding Kept
      without-Kept modes d m o e h =
          let same : (d, none, m) ≡ o = cc in rw (← same) (h, λ lease impossible. cc)

      first-Kept :
          (m : ℕ) (modes : List ℕ) (d d' : AccountDirectory f.Number) (lease : AccountLease)
          (o : Outcome f.Number)
          → ok (d', some lease, m) ≡ ok o
          → reserve f settings d pools m exclude_tokens [] ts ≡ ok (d', some lease)
          → IsSound d
          → Kept (m ∷ modes) o
      unfolding Kept
      first-Kept m modes d d' lease o e first h =
          let same : (d', some lease, m) ≡ o = cc in
          let served =
            reserved d.table d d' (m ∷ modes) m lease refl (first_mode m modes) first h in
          rw (← same) (
            reserve-keeps d m (d', some lease) first h,
            λ other known. let one : lease ≡ other = cc in rw (← one) served,
          )

      later-Kept :
          (m : ℕ) (modes : List ℕ) (o : Outcome f.Number) → Kept modes o → Kept (m ∷ modes) o
      unfolding Kept
      later-Kept m modes o (h, k) =
          (h, λ lease known. later_mode o.2 m modes o.0 lease (k lease known))

      after_reserve :
          (m : ℕ) (modes : List ℕ) (d d' : AccountDirectory f.Number) (found : Option AccountLease)
          (rest : Result (Outcome f.Number)) (o : Outcome f.Number)
          → reserve f settings d pools m exclude_tokens [] ts ≡ ok (d', found)
          → (elim found [ none ↦ rest | some lease ↦ ok (d', some lease, m) ]) ≡ ok o
          → (rest ≡ ok o → IsSound d' → Kept modes o)
          → IsSound d
          → Kept (m ∷ modes) o
      after_reserve m modes d d' none rest o first e more h =
          later-Kept m modes o (more e (reserve-keeps d m (d', none) first h))
      after_reserve m modes d d' (some lease) rest o first e more h =
          first-Kept m modes d d' lease o e first h

      try_reserve-Kept :
          (modes : List ℕ) (d : AccountDirectory f.Number) (original : ℕ) (o : Outcome f.Number)
          → try_reserve f settings exclude_tokens ts d pools modes original ≡ ok o
          → IsSound d
          → Kept modes o
      unfolding try_reserve
      try_reserve-Kept [] d original o e h = without-Kept [] d original o e h
      try_reserve-Kept (m ∷ modes) d original o e h =
          let (r, first, rest) =
            >>=-eq-ok (reserve f settings d pools m exclude_tokens [] ts) _ e in
          after_reserve m modes d r.0 r.1
            (try_reserve f settings exclude_tokens ts r.0 pools modes original) o first rest
            (λ last good. try_reserve-Kept modes r.0 original o last good) h

      again-Kept :
          (strategy : Strategy)
          (refresh : Option (AccountDirectory f.Number → Result (AccountDirectory f.Number)))
          (modes : List ℕ) (original : ℕ) (first o : Outcome f.Number)
          → again f settings exclude_tokens ts strategy refresh pools modes original first ≡ ok o
          → ((refreshed : AccountDirectory f.Number → Result (AccountDirectory f.Number))
                (d d' : AccountDirectory f.Number)
              → refresh ≡ some refreshed
              → refreshed d ≡ ok d'
              → IsSound d
              → IsSound d')
          → Kept modes first
          → Kept modes o
      unfolding Kept
      again-Kept strategy refresh modes original (d, some lease, m) o e keeps k =
          let same : (d, some lease, m) ≡ o = cc in rw (← same) k
      again-Kept random refresh modes original (d, none, m) o e keeps k =
          without-Kept modes d original o e k.0
      again-Kept quota none modes original (d, none, m) o e keeps k =
          without-Kept modes d original o e k.0
      again-Kept quota (some refreshed) modes original (d, none, m) o e keeps k =
          let (d', first, last) = >>=-eq-ok (refreshed d) _ e in
          try_reserve-Kept modes d' original o last (keeps refreshed d d' refl first k.0)

module _ (f : Float) (settings : Settings) (exclude_tokens : List String) (ts : ℕ)
    (conversions : Conversions) (now : ℤ) (fallback : Bool)
    (refresh : Option (AccountDirectory f.Number → Result (AccountDirectory f.Number)))
    (d d' : AccountDirectory f.Number) (spec : ModelSpec) (lease : AccountLease) (m : ℕ) where
  -- The lease that is reserved for a model, from a sound directory and with a refresh that keeps
  -- directories sound, has one of the modes to try for the model; its slot in the directory that comes
  -- back is active, of one of the model's pools, and named there by no excluded token, and the table is
  -- consistent.
  pub reserve_account-IsServed :
      IsSound d
      → ((refreshed : AccountDirectory f.Number → Result (AccountDirectory f.Number))
            (before after : AccountDirectory f.Number)
          → refresh ≡ some refreshed
          → refreshed before ≡ ok after
          → IsSound before
          → IsSound after)
      → reserve_account f settings exclude_tokens ts fallback refresh d spec
        ≡ ok (d', some lease, m)
      → IsServed (pool_candidates spec) (mode_candidates fallback spec) exclude_tokens ts d' lease m
  unfolding reserve_account Kept
  reserve_account-IsServed h keeps e =
      let pools = pool_candidates spec in
      let modes = mode_candidates fallback spec in
      let (first, tried, rest) =
        >>=-eq-ok (try_reserve f settings exclude_tokens ts d pools modes (mode_int spec.mode_id)) _
          e in
      let k =
        try_reserve-Kept f settings exclude_tokens ts pools conversions now modes d
          (mode_int spec.mode_id) first tried h in
      (again-Kept f settings exclude_tokens ts pools conversions now settings.strategy refresh modes
          (mode_int spec.mode_id) first (d', some lease, m) rest keeps k).1
        lease refl
