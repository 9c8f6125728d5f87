-- ===== src/Runtime/Directory/Sessions.antt =====
-- Any sequence of calls of the directory's methods (app/dataplane/account/__init__.py).
use grok2apinew.Prelude.{
  ℕ, ◌≤◌, ◌≡◌, refl, String, Bool, Option, none, some, List, [], ◌∷◌, arith, inl, inr,
}
use grok2apinew.Prelude.Int.{ℤ, pos}
use grok2apinew.Prelude.Result.{Result, ok, ◌>>=◌, >>=-eq-ok}
use grok2apinew.Prelude.Float.{Float}
use grok2apinew.Account.Models.{FeedbackKind}
use grok2apinew.Account.StateMachine.Status.{Conversions}
use grok2apinew.Runtime.Table.{Table}
use grok2apinew.Runtime.Table.Writers.{IsConsistent}
use grok2apinew.Runtime.Feedback.{decrement_inflight, increment_inflight, update_last_use}
use grok2apinew.Prelude.{Bool-cases, suc, not, ◌||◌}
use grok2apinew.Prelude.Int.{negsuc}
use grok2apinew.Prelude.IntSet.{nonempty}
use grok2apinew.Runtime.Table.{get_token, get_pool_id}
use grok2apinew.Runtime.Selector.{
  Strategy, quota, random, quota_select_any, pool_union, without, prefer, best_no_quota,
}
use grok2apinew.Runtime.Selector.Consistent.{same_result, random_select-IsConsistent}
use grok2apinew.Runtime.Sync.{AccountChangeSet, RuntimeSnapshot}
use grok2apinew.Runtime.Directory.{
  select_any, select_any_by, reserve_any, reserve_any_in, Settings, AccountDirectory, AccountLease,
  try_pools, grant, release, release_in, reserve, reserve_in, exclude_idxs, prefer_tag_idxs,
}
use grok2apinew.Runtime.Directory.Feedback.{feedback}
use grok2apinew.Runtime.Directory.Search.{choose, choose-IsConsistent}
use grok2apinew.Runtime.Directory.Steps.{
  increment_inflight-IsConsistent, update_last_use-IsConsistent, decrement_inflight-IsConsistent,
}
use grok2apinew.Runtime.Directory.Outcome.{IsSound, feedback-IsSound}
use grok2apinew.Runtime.Directory.Load.{
  load, load-IsSound, kept_directory, sync_in-IsSound, sync_if_changed,
}

module _ (f : Float) where
  quota_select_any-IsConsistent :
      (t t' : Table f.Number) (p ts : ℕ) (excluded preferred : Option (List ℕ)) (o : Option ℕ)
      → quota_select_any f t p excluded preferred ts ≡ ok (t', o)
      → IsConsistent t
      → IsConsistent t'
  unfolding quota_select_any
  quota_select_any-IsConsistent t t' p ts excluded preferred o e h =
      let candidates = pool_union t.mode_available p in
      let working = without excluded candidates in
      elim (Bool-cases (not (nonempty candidates) || not (nonempty working))) [
        | inl empty ↦ same_result f t t' none o (rw empty at e) h
        | inr there ↦
            let (found, _, last) =
              >>=-eq-ok (best_no_quota f t (prefer preferred working) ts) _ (rw there at e) in
            same_result f t t' found o last h
      ]

  release_in-IsSound :
      (o : Option (Table f.Number)) (d d' : AccountDirectory f.Number) (idx : ℕ)
      → d.table ≡ o
      → release_in o d idx ≡ ok d'
      → IsSound d
      → IsSound d'
  release_in-IsSound none d d' idx there e h = let same : d ≡ d' = cc in rw (← same) h
  release_in-IsSound (some t) d d' idx there e h =
      let (t', first, last) = >>=-eq-ok (decrement_inflight t idx) _ e in
      let same : record d { table = some t' } ≡ d' = ground (arith, last) in
      rw (← same) (decrement_inflight-IsConsistent t t' idx first (rw there at h))

  module _ (settings : Settings) where
    select_any_by-IsConsistent :
        (strategy : Strategy) (t t' : Table f.Number) (p ts : ℕ)
        (excluded preferred : Option (List ℕ)) (o : Option ℕ)
        → select_any_by f settings strategy t p excluded preferred ts ≡ ok (t', o)
        → IsConsistent t
        → IsConsistent t'
    select_any_by-IsConsistent quota t t' p ts excluded preferred o e h =
        quota_select_any-IsConsistent t t' p ts excluded preferred o e h
    select_any_by-IsConsistent random t t' p ts excluded preferred o e h =
        random_select-IsConsistent f settings.choice settings.max_inflight t t' p ts excluded
          preferred o e h

    after_choice :
        (o : Option ℕ) (t : Table f.Number) (again : Result (Table f.Number × Option ℕ))
        (r : Table f.Number × Option ℕ)
        → (elim o [ none ↦ again | some idx ↦ ok (t, some idx) ]) ≡ ok r
        → IsConsistent t
        → (again ≡ ok r → IsConsistent r.0)
        → IsConsistent r.0
    after_choice none t again r e h more = more e
    after_choice (some idx) t again r e h more = let same : (t, some idx) ≡ r = cc in rw (← same) h

    try_pools-IsConsistent :
        (next : Table f.Number → ℕ → Result (Table f.Number × Option ℕ))
        → ((t t' : Table f.Number) (p : ℕ) (o : Option ℕ)
            → next t p ≡ ok (t', o)
            → IsConsistent t
            → IsConsistent t')
        → (pools : List ℕ) (t : Table f.Number) (r : Table f.Number × Option ℕ)
        → try_pools next t pools ≡ ok r
        → IsConsistent t
        → IsConsistent r.0
    unfolding try_pools
    try_pools-IsConsistent next keep [] t r e h = let same : (t, none) ≡ r = cc in rw (← same) h
    try_pools-IsConsistent next keep (p ∷ pools) t r e h =
        let (o, first, rest) = >>=-eq-ok (next t p) _ e in
        let good = keep t o.0 p o.1 first h in
        after_choice o.1 o.0 (try_pools next o.0 pools) r rest good
          (λ again. try_pools-IsConsistent next keep pools o.0 r again good)

    grant-IsSound :
        (d : AccountDirectory f.Number) (mode_id : ℤ) (ts : ℕ) (t : Table f.Number)
        (found : Option ℕ) (r : AccountDirectory f.Number × Option AccountLease)
        → grant d mode_id ts (t, found) ≡ ok r
        → IsConsistent t
        → IsSound r.0
    unfolding grant
    grant-IsSound d mode_id ts t none r e h =
        kept_directory (record d { table = some t }) none r e h
    grant-IsSound d mode_id ts t (some idx) r e h =
        let (busy, first, e₁) = >>=-eq-ok (increment_inflight t idx) _ e in
        let (used, second, e₂) = >>=-eq-ok (update_last_use busy idx ts) _ e₁ in
        let (token, _, e₃) = >>=-eq-ok (get_token used idx) _ e₂ in
        let (pool_id, _, last) = >>=-eq-ok (get_pool_id used idx) _ e₃ in
        let good =
          update_last_use-IsConsistent busy used idx ts second
            (increment_inflight-IsConsistent t busy idx first h) in
        kept_directory (record { table = some used; counter = suc d.counter }) _ r last good

    searched-IsSound :
        (d : AccountDirectory f.Number) (mode_id : ℤ) (ts : ℕ) (t : Table f.Number) (pools : List ℕ)
        (next : Table f.Number → ℕ → Result (Table f.Number × Option ℕ))
        (r : AccountDirectory f.Number × Option AccountLease)
        → ((t₁ t₂ : Table f.Number) (p : ℕ) (o : Option ℕ)
            → next t₁ p ≡ ok (t₂, o)
            → IsConsistent t₁
            → IsConsistent t₂)
        → (try_pools next t pools >>= λ found. grant d mode_id ts found) ≡ ok r
        → IsConsistent t
        → IsSound r.0
    searched-IsSound d mode_id ts t pools next r keep e h =
        let (found, first, last) = >>=-eq-ok (try_pools next t pools) _ e in
        grant-IsSound d mode_id ts found.0 found.1 r last
          (try_pools-IsConsistent next keep pools t found first h)

    pub reserve_in-IsSound :
        (o : Option (Table f.Number)) (d : AccountDirectory f.Number) (pools : List ℕ) (m : ℕ)
        (exclude_tokens prefer_tags : List String) (ts : ℕ)
        (r : AccountDirectory f.Number × Option AccountLease)
        → d.table ≡ o
        → reserve_in f settings o d pools m exclude_tokens prefer_tags ts ≡ ok r
        → IsSound d
        → IsSound r.0
    reserve_in-IsSound none d pools m exclude_tokens prefer_tags ts r there e h =
        kept_directory d none r e h
    reserve_in-IsSound (some t) d pools m exclude_tokens prefer_tags ts r there e h =
        let excluded = exclude_idxs t.idx_by_token exclude_tokens in
        let preferred = prefer_tag_idxs t.tag_idx prefer_tags in
        searched-IsSound d (pos m) ts t pools (choose f settings m ts excluded preferred) r
          (choose-IsConsistent f settings m ts excluded preferred) e (rw there at h)

    reserve_any_in-IsSound :
        (o : Option (Table f.Number)) (d : AccountDirectory f.Number) (pools : List ℕ)
        (exclude_tokens prefer_tags : List String) (ts : ℕ)
        (r : AccountDirectory f.Number × Option AccountLease)
        → d.table ≡ o
        → reserve_any_in f settings o d pools exclude_tokens prefer_tags ts ≡ ok r
        → IsSound d
        → IsSound r.0
    unfolding select_any
    reserve_any_in-IsSound none d pools exclude_tokens prefer_tags ts r there e h =
        kept_directory d none r e h
    reserve_any_in-IsSound (some t) d pools exclude_tokens prefer_tags ts r there e h =
        let excluded = exclude_idxs t.idx_by_token exclude_tokens in
        let preferred = prefer_tag_idxs t.tag_idx prefer_tags in
        searched-IsSound d (negsuc 0) ts t pools
          (λ t₁ p. select_any f settings t₁ p excluded preferred ts) r
          (λ t₁ t₂ p o.
            select_any_by-IsConsistent settings.strategy t₁ t₂ p ts excluded preferred o)
          e (rw there at h)

module _ (f : Float) (conversions : Conversions) where
  -- One call of a method, which has returned. The times, the settings and the choice of random.choice are
  -- those of the call.
  pub data Call : AccountDirectory f.Number → AccountDirectory f.Number → Type 0 where
    loads :
        {d d' : AccountDirectory f.Number} (clock : ℕ → ℤ) (snapshot : RuntimeSnapshot)
        → load f conversions clock d snapshot ≡ ok d'
        → Call d d'
    syncs :
        {d : AccountDirectory f.Number} {r : AccountDirectory f.Number × Bool} (clock : ℕ → ℕ → ℤ)
        (batches : List AccountChangeSet)
        → sync_if_changed f conversions clock d batches ≡ ok r
        → Call d r.0
    reserves :
        {d : AccountDirectory f.Number} {r : AccountDirectory f.Number × Option AccountLease}
        (settings : Settings) (pools : List ℕ) (m : ℕ) (exclude_tokens prefer_tags : List String)
        (ts : ℕ)
        → reserve f settings d pools m exclude_tokens prefer_tags ts ≡ ok r
        → Call d r.0
    reserves_any :
        {d : AccountDirectory f.Number} {r : AccountDirectory f.Number × Option AccountLease}
        (settings : Settings) (pools : List ℕ) (exclude_tokens prefer_tags : List String) (ts : ℕ)
        → reserve_any f settings d pools exclude_tokens prefer_tags ts ≡ ok r
        → Call d r.0
    releases :
        {d d' : AccountDirectory f.Number} (lease : AccountLease)
        → release d lease ≡ ok d'
        → Call d d'
    feeds :
        {d d' : AccountDirectory f.Number} (settings : Settings) (token : String)
        (kind : FeedbackKind) (m : ℕ) (remaining : Option ℤ) (reset_at_ms : Option ℕ) (ts clock : ℕ)
        → m ≤ 4
        → feedback f settings d token kind m remaining reset_at_ms ts clock ≡ ok d'
        → Call d d'

  -- What a new directory, which has no table, becomes by any calls in any order.
  pub data Reachable : AccountDirectory f.Number → Type 0 where
    starts : (counter : ℕ) → Reachable (record { table = none; counter = counter })
    calls : {d d' : AccountDirectory f.Number} → Reachable d → Call d d' → Reachable d'

  Call-IsSound : {d d' : AccountDirectory f.Number} → Call d d' → IsSound d → IsSound d'
  unfolding sync_if_changed reserve reserve_any release
  Call-IsSound {d} {d'} (loads clock snapshot e) h =
      load-IsSound f conversions clock d d' snapshot e
  Call-IsSound {d} (syncs {r = r} clock batches e) h =
      sync_in-IsSound f conversions clock d.table d batches r refl e h
  Call-IsSound {d} (reserves {r = r} settings pools m ex pref ts e) h =
      reserve_in-IsSound f settings d.table d pools m ex pref ts r refl e h
  Call-IsSound {d} (reserves_any {r = r} settings pools ex pref ts e) h =
      reserve_any_in-IsSound f settings d.table d pools ex pref ts r refl e h
  Call-IsSound {d} {d'} (releases lease e) h = release_in-IsSound f d.table d d' lease.idx refl e h
  Call-IsSound {d} {d'} (feeds settings token kind m remaining reset_at_ms ts clock le e) h =
      feedback-IsSound f settings d d' token kind m remaining reset_at_ms ts clock le e h

  -- Whatever calls of its methods a new directory has returned from, in any order, the directory is
  -- sound: if it has a table, the entries of the table's selection indexes are active slots of their
  -- pools, and every active slot stands in the entry of each mode for which it has a window. The
  -- feedback is on modes that have an index. Each call has its own times, settings and random choices.
  pub Reachable-IsSound : (d : AccountDirectory f.Number) → Reachable d → IsSound d
  Reachable-IsSound d (starts counter) = tt
  Reachable-IsSound d (calls {d = before} r c) = Call-IsSound c (Reachable-IsSound before r)
