-- ===== src/Runtime/Directory.antt =====
-- app/dataplane/account/__init__.py and lease.py: the account directory. Each method runs its writes
-- under the lock, so a method is one step from a directory to the next. What the source takes from
-- elsewhere is in `Settings`: the registered strategy, the configuration values and the choice that
-- `random.choice` makes. `ts` is the time of the call.
pub mod Feedback
pub mod Steps
pub mod Search
pub mod Reserve
pub mod Outcome
pub mod Load
pub mod Tokens
pub mod Sessions
use grok2apinew.Prelude.{
  ℕ, suc, ◌/◌, String, Bool, true, false, Option, none, some, List, [], ◌∷◌, ◌==◌, if◌then◌else◌,
}
use grok2apinew.Prelude.Int.{ℤ, pos, negsuc, max_ℤ}
use grok2apinew.Prelude.Result.{Result, ok, ◌>>=◌}
use grok2apinew.Prelude.IntSet.{union}
use grok2apinew.Prelude.SetMap.{SetMap, String_eq, has_key}
use grok2apinew.Prelude.Float.{Float}
use grok2apinew.Account.Models.{
  FeedbackKind, success, unauthorized, forbidden, rate_limited, server_error,
}
use grok2apinew.Runtime.Slot.{expired, pool_name}
use grok2apinew.Runtime.Table.{Table, get_token, get_pool_id}
use grok2apinew.Runtime.Feedback.{
  apply_success_quota, apply_success_random, apply_rate_limited_quota, apply_rate_limited_random,
  apply_auth_failure, apply_forbidden, apply_server_error, apply_status_change, apply_quota_update,
  increment_inflight, decrement_inflight, update_last_use, update_last_fail,
}
use grok2apinew.Runtime.Selector.{
  Strategy, quota, random, quota_select, quota_select_any, random_select,
}

pub record AccountLease : Type 0 where
  pub lease_id : ℕ
  pub idx : ℕ
  pub token : String
  pub pool_id : ℕ
  pub mode_id : ℤ
  pub selected_at : ℕ

pub record Settings : Type 0 where
  pub strategy : Strategy
  pub choice : ℕ → ℕ
  pub max_inflight : ℤ
  -- int(get_config(interval_key, default_interval)) for a pool's name
  pub interval_sec : String → ℤ

-- `counter` is the process-wide counter of app/platform/runtime/ids.py.
pub record AccountDirectory (N : Type 0) : Type 0 where
  pub table : Option (Table N)
  pub counter : ℕ

unfoldable pub pool_cooling_sec : Settings → ℕ → ℤ
unfolding pool_name
pool_cooling_sec settings pool_id = max_ℤ (pos 0) (settings.interval_sec (pool_name pool_id))

abbrev known_idxs : (String → Option ℕ) → List String → List ℕ
known_idxs idx_by_token [] = []
known_idxs idx_by_token (token ∷ tokens) =
    let others = known_idxs idx_by_token tokens in
    elim (idx_by_token token) [ none ↦ others | some idx ↦ idx ∷ others ]

abbrev if_any : List ℕ → Option (List ℕ)
if_any [] = none
if_any (idx ∷ idxs) = some (idx ∷ idxs)

-- The excluded slots, where any of the tokens is known.
unfoldable pub exclude_idxs : (String → Option ℕ) → List String → Option (List ℕ)
exclude_idxs idx_by_token tokens = if_any (known_idxs idx_by_token tokens)

abbrev add_tagged : Bool → List ℕ → Option (List ℕ) → Option (List ℕ)
add_tagged false tagged found = found
add_tagged true tagged none = some tagged
add_tagged true tagged (some found) = some (union found tagged)

-- The union of the slots of the tags, where any of the tags is known.
unfoldable pub prefer_tag_idxs : SetMap String → List String → Option (List ℕ)
unfolding has_key union
prefer_tag_idxs d [] = none
prefer_tag_idxs d (tag ∷ tags) =
    add_tagged (has_key tag d.keys) (d.bucket tag) (prefer_tag_idxs d tags)

module _ (f : Float) (settings : Settings) where
  abbrev select_by :
      Strategy
      → Table f.Number
      → ℕ
      → ℕ
      → Option (List ℕ)
      → Option (List ℕ)
      → ℕ
      → Result (Table f.Number × Option ℕ)
  select_by random t pool_id mode_id excluded preferred now =
      random_select f settings.choice settings.max_inflight t pool_id excluded preferred now
  select_by quota t pool_id mode_id excluded preferred now =
      quota_select f t pool_id mode_id excluded preferred now

  -- selector.select
  unfoldable pub select :
      Table f.Number
      → ℕ
      → ℕ
      → Option (List ℕ)
      → Option (List ℕ)
      → ℕ
      → Result (Table f.Number × Option ℕ)
  select t pool_id mode_id excluded preferred now =
      select_by settings.strategy t pool_id mode_id excluded preferred now

  abbrev pub select_any_by :
      Strategy
      → Table f.Number
      → ℕ
      → Option (List ℕ)
      → Option (List ℕ)
      → ℕ
      → Result (Table f.Number × Option ℕ)
  select_any_by random t pool_id excluded preferred now =
      random_select f settings.choice settings.max_inflight t pool_id excluded preferred now
  select_any_by quota t pool_id excluded preferred now =
      quota_select_any f t pool_id excluded preferred now

  -- selector.select_any
  unfoldable pub select_any :
      Table f.Number
      → ℕ
      → Option (List ℕ)
      → Option (List ℕ)
      → ℕ
      → Result (Table f.Number × Option ℕ)
  select_any t pool_id excluded preferred now =
      select_any_by settings.strategy t pool_id excluded preferred now

-- The pools in order, until one gives a slot.
module _ {N : Type 0} where
  unfoldable pub try_pools :
      (Table N → ℕ → Result (Table N × Option ℕ)) → Table N → List ℕ → Result (Table N × Option ℕ)
  try_pools choose t [] = ok (t, none)
  try_pools choose t (pool_id ∷ pools) = do
    (t', found) ← choose t pool_id
    elim found [ none ↦ try_pools choose t' pools | some idx ↦ ok (t', some idx) ]

  -- The end of reserve and reserve_any: the slot is marked, and a lease is made.
  unfoldable pub grant :
      AccountDirectory N
      → ℤ
      → ℕ
      → Table N × Option ℕ
      → Result (AccountDirectory N × Option AccountLease)
  unfolding increment_inflight update_last_use get_token get_pool_id
  grant d mode_id ts (t, none) = ok (record d { table = some t }, none)
  grant d mode_id ts (t, some idx) = do
    busy ← increment_inflight t idx
    used ← update_last_use busy idx ts
    token ← get_token used idx
    pool_id ← get_pool_id used idx
    let lease : AccountLease = record {
      lease_id = suc d.counter;
      idx = idx;
      token = token;
      pool_id = pool_id;
      mode_id = mode_id;
      selected_at = ts;
    }
    ok (record { table = some used; counter = suc d.counter }, some lease)

  abbrev pub release_in : Option (Table N) → AccountDirectory N → ℕ → Result (AccountDirectory N)
  release_in none d idx = ok d
  release_in (some t) d idx = do t' ← decrement_inflight t idx; ok (record d { table = some t' })

  unfoldable pub release : AccountDirectory N → AccountLease → Result (AccountDirectory N)
  unfolding decrement_inflight
  release d lease = release_in d.table d lease.idx

module _ (f : Float) (settings : Settings) where
  abbrev pub reserve_in :
      Option (Table f.Number)
      → AccountDirectory f.Number
      → List ℕ
      → ℕ
      → List String
      → List String
      → ℕ
      → Result (AccountDirectory f.Number × Option AccountLease)
  reserve_in none d pools mode_id exclude_tokens prefer_tags ts = ok (d, none)
  reserve_in (some t) d pools mode_id exclude_tokens prefer_tags ts = do
    let excluded = exclude_idxs t.idx_by_token exclude_tokens
    let preferred = prefer_tag_idxs t.tag_idx prefer_tags
    found ←
        try_pools (λ t₁ pool_id. select f settings t₁ pool_id mode_id excluded preferred ts) t pools
    grant d (pos mode_id) ts found

  unfoldable pub reserve :
      AccountDirectory f.Number
      → List ℕ
      → ℕ
      → List String
      → List String
      → ℕ
      → Result (AccountDirectory f.Number × Option AccountLease)
  reserve d pools mode_id exclude_tokens prefer_tags ts =
      reserve_in d.table d pools mode_id exclude_tokens prefer_tags ts

  abbrev pub reserve_any_in :
      Option (Table f.Number)
      → AccountDirectory f.Number
      → List ℕ
      → List String
      → List String
      → ℕ
      → Result (AccountDirectory f.Number × Option AccountLease)
  reserve_any_in none d pools exclude_tokens prefer_tags ts = ok (d, none)
  reserve_any_in (some t) d pools exclude_tokens prefer_tags ts = do
    let excluded = exclude_idxs t.idx_by_token exclude_tokens
    let preferred = prefer_tag_idxs t.tag_idx prefer_tags
    found ← try_pools (λ t₁ pool_id. select_any f settings t₁ pool_id excluded preferred ts) t pools
    grant d (negsuc 0) ts found

  unfoldable pub reserve_any :
      AccountDirectory f.Number
      → List ℕ
      → List String
      → List String
      → ℕ
      → Result (AccountDirectory f.Number × Option AccountLease)
  reserve_any d pools exclude_tokens prefer_tags ts =
      reserve_any_in d.table d pools exclude_tokens prefer_tags ts
