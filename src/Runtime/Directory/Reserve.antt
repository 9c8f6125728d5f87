-- ===== src/Runtime/Directory/Reserve.antt =====
-- What a reservation grants (app/dataplane/account/__init__.py, reserve and release).
use mathlib.Core.Path.{subst}
use grok2apinew.Prelude.{
  ap, ℕ, suc, ◌<◌, ◌≡◌, refl, sym, ◌∙◌, String, true, false, Option, none, some, List, arith,
  get_elem?, set-set, get_elem?-set_self,
}
use grok2apinew.Prelude.Int.{ℤ, pos}
use grok2apinew.Prelude.Result.{ok, >>=-eq-ok}
use grok2apinew.Prelude.IntSet.{mem}
use grok2apinew.Prelude.Float.{Float}
use grok2apinew.Runtime.Slot.{Slot, is_active}
use grok2apinew.Runtime.Table.{Table, write, slot_at}
use grok2apinew.Runtime.Table.Writers.{IsConsistent}
use grok2apinew.Runtime.Feedback.{modify, one_more, one_less, used_at}
use grok2apinew.Runtime.Feedback.Consistent.{set-IsIndexed}
use grok2apinew.Runtime.Selector.Eligible.{is_excluded}
use grok2apinew.Runtime.Directory.{
  Settings, AccountDirectory, AccountLease, try_pools, grant, release, reserve, reserve_in,
  exclude_idxs, prefer_tag_idxs,
}
use grok2apinew.Runtime.Directory.Search.{MayServe, choose, try_pools-MayServe}

module _ {N : Type 0} where
  -- The table after a grant, where the slot was `s`.
  abbrev pub granted : Table N → ℕ → Slot N → ℕ → Table N
  granted t i s ts = write t i (used_at ts (one_more s))

  abbrev pub lease_of : AccountDirectory N → ℕ → Slot N → ℤ → ℕ → AccountLease
  lease_of d i s mode_id ts = record {
    lease_id = suc d.counter;
    idx = i;
    token = s.token;
    pool_id = s.pool_id;
    mode_id = mode_id;
    selected_at = ts;
  }

  pub grant-eq :
      (d : AccountDirectory N) (mode_id : ℤ) (ts : ℕ) (t : Table N) (i : ℕ) (s : Slot N)
      → get_elem? t.slots i ≡ some s
      → grant d mode_id ts (t, some i)
        ≡ ok (
          record { table = some (granted t i s ts); counter = suc d.counter },
          some (lease_of d i s mode_id ts),
        )
  unfolding grant modify write slot_at
  grant-eq d mode_id ts t i s here = simp (
    here,
    get_elem?-set_self t.slots i (one_more s) s here,
    set-set,
    get_elem?-set_self t.slots i (used_at ts (one_more s)) s here,
  )

  one_less-one_more :
      (ts : ℕ) (s : Slot N)
      → s.inflight < 65_535
      → one_less (used_at ts (one_more s)) ≡ used_at ts s
  one_less-one_more ts s room = ground arith

  release-granted :
      (c : ℕ) (lease : AccountLease) (ts : ℕ) (t : Table N) (i : ℕ) (s : Slot N)
      → lease.idx ≡ i
      → get_elem? t.slots i ≡ some s
      → s.inflight < 65_535
      → release (record { table = some (granted t i s ts); counter = c }) lease
        ≡ ok (record { table = some (write t i (used_at ts s)); counter = c })
  unfolding release modify write slot_at
  release-granted c lease ts t i s at here room = rw at (
      simp (get_elem?-set_self t.slots i (used_at ts (one_more s)) s here, set-set)
        (ap (λ x. ok (record { table = some (write t i x); counter = c }))
          (one_less-one_more ts s room)))

  -- Releasing the lease of a grant puts the requests in flight back to what they were, unless the
  -- counter stood at its cap: of the slot only the time of its last use has changed.
  pub release-grant :
      (d d' : AccountDirectory N) (lease : AccountLease) (mode_id : ℤ) (ts : ℕ) (t : Table N)
      (i : ℕ) (s : Slot N)
      → get_elem? t.slots i ≡ some s
      → s.inflight < 65_535
      → grant d mode_id ts (t, some i) ≡ ok (d', some lease)
      → release d' lease ≡ ok (record d' { table = some (write t i (used_at ts s)) })
  release-grant d d' lease mode_id ts t i s here room e =
      let same = sym (grant-eq d mode_id ts t i s here) ∙ e in
      let final : d' ≡ record { table = some (granted t i s ts); counter = suc d.counter } =
        ground (arith, same) in
      let leased : lease ≡ lease_of d i s mode_id ts = ground (arith, same) in
      rw (final, leased)
        (release-granted (suc d.counter) (lease_of d i s mode_id ts) ts t i s refl here room)

no_lease :
    {N : Type 0} (d d' : AccountDirectory N) (t : Table N) (mode_id : ℤ) (ts : ℕ)
    (lease : AccountLease)
    → ¬ (grant d mode_id ts (t, none) ≡ ok (d', some lease))
unfolding grant
no_lease d d' t mode_id ts lease e = ground (arith, e)

-- What a lease promises of the table it was taken from.
pub record IsGranted {N : Type 0} (t : Table N) (pools : List ℕ) (excluded : Option (List ℕ))
    (lease : AccountLease) (ts : ℕ) : Type 0 where
  pub slot : Slot N
  pub here : get_elem? t.slots lease.idx ≡ some slot
  pub of_pool : mem lease.pool_id pools ≡ true
  pub on : is_active slot.status_id ≡ true
  pub free : is_excluded excluded lease.idx ≡ false
  pub token : slot.token ≡ lease.token
  pub pool : slot.pool_id ≡ lease.pool_id
  pub busy : 0 < slot.inflight
  pub stamped : slot.last_use_at ≡ ts

module _ {N : Type 0} (d d' : AccountDirectory N) (mode_id : ℤ) (ts i : ℕ) (t : Table N)
    (lease : AccountLease) (pools : List ℕ) (excluded : Option (List ℕ)) where
  granted-IsConsistent :
      (s : Slot N) → get_elem? t.slots i ≡ some s → IsConsistent t → IsConsistent (granted t i s ts)
  unfolding write
  granted-IsConsistent s here h =
      set-IsIndexed t.slots i s (used_at ts (one_more s)) here
        (record { pool = refl; status = refl; window = refl }) t.mode_available h

  grant-IsGranted :
      grant d mode_id ts (t, some i) ≡ ok (d', some lease)
      → IsConsistent t
      → MayServe t pools excluded i
      → (t' : Table N) × (d'.table ≡ some t')
        × IsConsistent t'
        × IsGranted t' pools excluded lease ts
  unfolding write
  grant-IsGranted e good a =
      let s = a.slot in
      let same = sym (grant-eq d mode_id ts t i s a.here) ∙ e in
      let final : d' ≡ record { table = some (granted t i s ts); counter = suc d.counter } =
        ground (arith, same) in
      let leased : lease ≡ lease_of d i s mode_id ts = ground (arith, same) in
      (
        granted t i s ts,
        rw final refl,
        granted-IsConsistent s a.here good,
        rw leased (record {
          slot = used_at ts (one_more s);
          here = get_elem?-set_self t.slots i (used_at ts (one_more s)) s a.here;
          of_pool = a.of_pool;
          on = a.on;
          free = a.free;
          token = refl;
          pool = refl;
          busy = ground arith;
          stamped = refl;
        }),
      )

module _ (f : Float) (settings : Settings) (d d' : AccountDirectory f.Number) (t : Table f.Number)
    (pools : List ℕ) (m : ℕ) (exclude_tokens prefer_tags : List String) (ts : ℕ)
    (lease : AccountLease) where
  -- A directory that has a table.
  from_table :
      (o : Option (Table f.Number))
      → o ≡ some t
      → reserve_in f settings o d pools m exclude_tokens prefer_tags ts ≡ ok (d', some lease)
      → reserve_in f settings (some t) d pools m exclude_tokens prefer_tags ts ≡ ok (d', some lease)
  from_table o there e =
      subst
        (λ x. reserve_in f settings x d pools m exclude_tokens prefer_tags ts ≡ ok (d', some lease))
        there e

  -- The end of a reservation, from what the search for a slot gave.
  end_of_reserve :
      (excluded preferred : Option (List ℕ)) (t₁ : Table f.Number) (found : Option ℕ)
      → try_pools (choose f settings m ts excluded preferred) t pools ≡ ok (t₁, found)
      → grant d (pos m) ts (t₁, found) ≡ ok (d', some lease)
      → IsConsistent t
      → (t' : Table f.Number) × (d'.table ≡ some t')
        × IsConsistent t'
        × IsGranted t' pools excluded lease ts
  end_of_reserve excluded preferred t₁ none first rest good =
      absurd (no_lease d d' t₁ (pos m) ts lease rest)
  end_of_reserve excluded preferred t₁ (some i) first rest good =
      let (good', a) =
        try_pools-MayServe f settings m ts excluded preferred t t₁ pools i first good in
      grant-IsGranted d d' (pos m) ts i t₁ lease pools excluded rest good' a

  -- What a reservation returns, from a directory whose table is consistent, is a lease of an active slot
  -- of one of the pools, which none of the excluded tokens names; the slot has the token and pool of the
  -- lease, a request in flight and the time of the call, and the new table is consistent.
  pub reserve-IsGranted :
      d.table ≡ some t
      → IsConsistent t
      → reserve f settings d pools m exclude_tokens prefer_tags ts ≡ ok (d', some lease)
      → (t' : Table f.Number) × (d'.table ≡ some t')
        × IsConsistent t'
        × IsGranted t' pools (exclude_idxs t.idx_by_token exclude_tokens) lease ts
  unfolding reserve
  reserve-IsGranted there good e =
      let excluded = exclude_idxs t.idx_by_token exclude_tokens in
      let preferred = prefer_tag_idxs t.tag_idx prefer_tags in
      let (found, first, rest) =
        >>=-eq-ok (try_pools (choose f settings m ts excluded preferred) t pools) _
          (from_table d.table there e) in
      end_of_reserve excluded preferred found.0 found.1 first rest good
