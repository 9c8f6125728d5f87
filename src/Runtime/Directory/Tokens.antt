-- ===== src/Runtime/Directory/Tokens.antt =====
-- A reservation (app/dataplane/account/__init__.py, reserve) leaves the tokens of the slots where they are.
use grok2apinew.Prelude.{
  ℕ, ◌≡◌, refl, ◌∙◌, Bool, true, false, Option, none, some, List, [], ◌∷◌, String, ◌==◌, arith,
  Bool-cases, inl, inr, if◌then◌else◌,
}
use grok2apinew.Prelude.Int.{ℤ, pos}
use grok2apinew.Prelude.Result.{Result, ok, >>=-eq-ok}
use grok2apinew.Prelude.IntSet.{nonempty}
use grok2apinew.Prelude.Float.{Float}
use grok2apinew.Runtime.Slot.{Slot}
use grok2apinew.Runtime.Table.{Table, write, get_token, get_pool_id}
use grok2apinew.Runtime.Table.Access.{slot_at-bind}
use grok2apinew.Runtime.Feedback.{modify, increment_inflight, update_last_use}
use grok2apinew.Runtime.Selector.{
  Strategy, quota, random, quota_select, random_select, maybe_reset_windows, reset_each,
  window_is_over, renewed, keep_slots, without, prefer, has_some, best, pool_union, is_free,
}
use grok2apinew.Runtime.Directory.{
  Settings, AccountDirectory, AccountLease, select, select_by, try_pools, grant, reserve_in,
  exclude_idxs, prefer_tag_idxs,
}
use grok2apinew.Runtime.Directory.Search.{choose}

abbrev pub SameTokens : {N : Type 0} → Table N → Table N → Type 0
SameTokens t t' = t'.idx_by_token ≡ t.idx_by_token

module _ {N : Type 0} where
  modify-SameTokens :
      (t t' : Table N) (idx : ℕ) (change : Slot N → Slot N)
      → modify t idx change ≡ ok t'
      → SameTokens t t'
  unfolding modify write
  modify-SameTokens t t' idx change e =
      let (s, _, last) = slot_at-bind t idx _ e in
      let same : write t idx (change s) ≡ t' = cc in rw (← same) refl

  turn-SameTokens :
      (b : Bool) (t : Table N) (idx : ℕ) (s : Slot N)
      → SameTokens t (if b then write t idx s else t)
  unfolding write
  turn-SameTokens true t idx s = refl
  turn-SameTokens false t idx s = refl

  reset_each-SameTokens :
      (t t' : Table N) (candidates : List ℕ) (mode_id pool_id now : ℕ)
      → reset_each t candidates mode_id pool_id now ≡ ok t'
      → SameTokens t t'
  unfolding reset_each
  reset_each-SameTokens t t' [] mode_id pool_id now e = let same : t ≡ t' = cc in rw same refl
  reset_each-SameTokens t t' (idx ∷ rest) mode_id pool_id now e =
      let (s, _, more) = slot_at-bind t idx _ e in
      let over = window_is_over pool_id mode_id now s in
      let t₁ = if over then write t idx (renewed mode_id now s) else t in
      reset_each-SameTokens t₁ t' rest mode_id pool_id now more
      ∙ turn-SameTokens over t idx (renewed mode_id now s)

  maybe_reset_windows-SameTokens :
      (t t' : Table N) (candidates : List ℕ) (mode_id pool_id now : ℕ)
      → maybe_reset_windows t candidates mode_id pool_id now ≡ ok t'
      → SameTokens t t'
  unfolding maybe_reset_windows
  maybe_reset_windows-SameTokens t t' candidates mode_id pool_id now e =
      elim (Bool-cases (pool_id == 0)) [
        | inl basic ↦ reset_each-SameTokens t t' candidates mode_id pool_id now (rw basic at e)
        | inr metered ↦
            let same : ok t ≡ ok t' = rw metered at e in let same' : t ≡ t' = cc in rw same' refl
      ]

  same_table :
      (t t' : Table N) (o o' : Option ℕ)
      → ◌≡◌ {A = Result (Table N × Option ℕ)} (ok (t, o)) (ok (t', o'))
      → SameTokens t t'
  same_table t t' o o' e = let same : t ≡ t' = ground (arith, e) in rw same refl

  either_table :
      (t t' : Table N) (o o' : Option ℕ) (b : Bool)
      → ◌≡◌ {A = Result (Table N × Option ℕ)} (ok (if b then (t, o) else (t, none))) (ok (t', o'))
      → SameTokens t t'
  either_table t t' o o' true e = same_table t t' o o' e
  either_table t t' o o' false e = same_table t t' none o' e

  -- What a grant leaves of the tokens.
  grant-SameTokens :
      (d d' : AccountDirectory N) (mode_id : ℤ) (ts : ℕ) (t t' : Table N) (found : Option ℕ)
      (lease : Option AccountLease)
      → grant d mode_id ts (t, found) ≡ ok (d', lease)
      → d'.table ≡ some t'
      → SameTokens t t'
  unfolding grant increment_inflight update_last_use
  grant-SameTokens d d' mode_id ts t t' none lease e there =
      let same : t ≡ t' = ground (arith, e, there) in rw same refl
  grant-SameTokens d d' mode_id ts t t' (some idx) lease e there =
      let (busy, first, e₁) = >>=-eq-ok (increment_inflight t idx) _ e in
      let (used, second, e₂) = >>=-eq-ok (update_last_use busy idx ts) _ e₁ in
      let (token, _, e₃) = >>=-eq-ok (get_token used idx) _ e₂ in
      let (pool_id, _, last) = >>=-eq-ok (get_pool_id used idx) _ e₃ in
      let same : used ≡ t' = ground (arith, last, there) in
      rw (← same) (modify-SameTokens busy used idx _ second ∙ modify-SameTokens t busy idx _ first)

  after_choice :
      (o : Option ℕ) (t : Table N) (again : Result (Table N × Option ℕ)) (r : Table N × Option ℕ)
      → (elim o [ none ↦ again | some idx ↦ ok (t, some idx) ]) ≡ ok r
      → (again ≡ ok r → SameTokens t r.0)
      → SameTokens t r.0
  after_choice none t again r e more = more e
  after_choice (some idx) t again r e more = let same : (t, some idx) ≡ r = cc in rw (← same) refl

  try_pools-SameTokens :
      (next : Table N → ℕ → Result (Table N × Option ℕ))
      → ((t t' : Table N) (p : ℕ) (o : Option ℕ) → next t p ≡ ok (t', o) → SameTokens t t')
      → (pools : List ℕ) (t : Table N) (r : Table N × Option ℕ) → try_pools next t pools ≡ ok r
      → SameTokens t r.0
  unfolding try_pools
  try_pools-SameTokens next keep [] t r e = let same : (t, none) ≡ r = cc in rw (← same) refl
  try_pools-SameTokens next keep (p ∷ pools) t r e =
      let (o, first, rest) = >>=-eq-ok (next t p) _ e in
      after_choice o.1 o.0 (try_pools next o.0 pools) r rest
        (λ again. try_pools-SameTokens next keep pools o.0 r again)
      ∙ keep t o.0 p o.1 first

module _ (f : Float) where
  quota_select-SameTokens :
      (t t' : Table f.Number) (p m now : ℕ) (excluded preferred : Option (List ℕ)) (o : Option ℕ)
      → quota_select f t p m excluded preferred now ≡ ok (t', o)
      → SameTokens t t'
  unfolding quota_select
  quota_select-SameTokens t t' p m now excluded preferred o e =
      let candidates = t.mode_available.bucket (p, m) in
      elim (Bool-cases (nonempty candidates)) [
        | inr empty ↦ same_table t t' none o (rw empty at e)
        | inl there ↦
            let (t₁, reset, e₁) =
              >>=-eq-ok (maybe_reset_windows t candidates m p now) _ (rw there at e) in
            let (w, _, e₂) =
              >>=-eq-ok (keep_slots t₁ (has_some m) (without excluded candidates)) _ e₁ in
            let (found, _, e₃) = >>=-eq-ok (best f t₁ (prefer preferred w) m now) _ e₂ in
            either_table t₁ t' found o (nonempty w) e₃
            ∙ maybe_reset_windows-SameTokens t t₁ candidates m p now reset
      ]

  random_select-SameTokens :
      (choice : ℕ → ℕ) (max_inflight : ℤ) (t t' : Table f.Number) (p now : ℕ)
      (excluded preferred : Option (List ℕ)) (o : Option ℕ)
      → random_select f choice max_inflight t p excluded preferred now ≡ ok (t', o)
      → SameTokens t t'
  unfolding random_select
  random_select-SameTokens choice max_inflight t t' p now excluded preferred o e =
      let candidates = pool_union t.mode_available p in
      elim (Bool-cases (nonempty candidates)) [
        | inr empty ↦ same_table t t' none o (rw empty at e)
        | inl there ↦
            let (w, _, last) =
              >>=-eq-ok (keep_slots t (is_free f now max_inflight) (without excluded candidates)) _
                (rw there at e) in
            same_table t t' _ o last
      ]

  module _ (settings : Settings) where
    select_by-SameTokens :
        (strategy : Strategy) (t t' : Table f.Number) (p m now : ℕ)
        (excluded preferred : Option (List ℕ)) (o : Option ℕ)
        → select_by f settings strategy t p m excluded preferred now ≡ ok (t', o)
        → SameTokens t t'
    select_by-SameTokens quota t t' p m now excluded preferred o e =
        quota_select-SameTokens t t' p m now excluded preferred o e
    select_by-SameTokens random t t' p m now excluded preferred o e =
        random_select-SameTokens settings.choice settings.max_inflight t t' p now excluded preferred
          o e

    select-SameTokens :
        (m now : ℕ) (excluded preferred : Option (List ℕ)) (t t' : Table f.Number) (p : ℕ)
        (o : Option ℕ)
        → choose f settings m now excluded preferred t p ≡ ok (t', o)
        → SameTokens t t'
    unfolding select
    select-SameTokens m now excluded preferred t t' p o e =
        select_by-SameTokens settings.strategy t t' p m now excluded preferred o e

    -- A token names the same slot after a reservation as before.
    pub reserve_in-SameTokens :
        (d d' : AccountDirectory f.Number) (t t' : Table f.Number) (pools : List ℕ) (m : ℕ)
        (exclude_tokens prefer_tags : List String) (ts : ℕ) (lease : Option AccountLease)
        → reserve_in f settings (some t) d pools m exclude_tokens prefer_tags ts ≡ ok (d', lease)
        → d'.table ≡ some t'
        → SameTokens t t'
    reserve_in-SameTokens d d' t t' pools m exclude_tokens prefer_tags ts lease e there =
        let excluded = exclude_idxs t.idx_by_token exclude_tokens in
        let preferred = prefer_tag_idxs t.tag_idx prefer_tags in
        let (found, first, rest) =
          >>=-eq-ok (try_pools (choose f settings m ts excluded preferred) t pools) _ e in
        grant-SameTokens d d' (pos m) ts found.0 t' found.1 lease rest there
        ∙ try_pools-SameTokens (choose f settings m ts excluded preferred)
            (select-SameTokens m ts excluded preferred) pools t found first
