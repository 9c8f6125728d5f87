-- ===== src/Refresh/Windows.antt =====
-- What a refresh leaves of a window, and of a pool (app/control/account/refresh.py).
use grok2apinew.Prelude.{
  ℕ, ◌≡◌, refl, String, Bool, true, false, Option, none, some, arith, if◌then◌else◌, Bool-cases,
  inl, inr,
}
use text.Mathlib.Text.{◌==◌ as str_eq}
use grok2apinew.Prelude.Int.{ℤ, pos, ◌+ℤ◌, ◌-ℤ◌, ◌*ℤ◌, ◌≤ℤ◌, max_ℤ, ltb_ℤ, leb_ℤ, negsuc}
use grok2apinew.Prelude.Result.{ok, >>=-eq-ok}
use grok2apinew.Account.Models.{
  QuotaWindow, AccountRecord, is_exhausted, is_window_expired, quota_set,
}
use grok2apinew.Account.Quota.{infer_pool}
use grok2apinew.Store.Commands.{AccountPatch}
use grok2apinew.Refresh.{
  RefreshResult, is_real, estimated_window, fallback_window, exhausted_window, later_reset,
  pool_patch, refresh_answered, answered, mode_window, live_window, has_any, with_windows,
}

-- The fallback never adds queries to a window that is not over.
pub fallback_window-le :
    (pool : String) (now : ℤ) (m : ℕ) (existing w : QuotaWindow)
    → is_window_expired existing now ≡ false
    → fallback_window pool now m (some existing) ≡ some w
    → w.remaining ≤ℤ max_ℤ (pos 0) existing.remaining
unfolding fallback_window estimated_window ◌-ℤ◌
fallback_window-le pool now m existing w h e = elim (Bool-cases (is_real existing.source)) [
  | inl live ↦
      let same : ◌≡◌ {A = Option QuotaWindow} (some (estimated_window existing)) (some w) =
        rw (live, fallback_window) at e in
      let one : estimated_window existing ≡ w = cc in rw (← one) (ground arith)
  | inr other ↦
      let impossible : ◌≡◌ {A = Option QuotaWindow} none (some w) =
        rw (other, h, fallback_window) at e in
      cc
]

later : (now ws : ℤ) → leb_ℤ (now +ℤ max_ℤ ws (pos 1) *ℤ pos 1_000) now ≡ false
unfolding ◌+ℤ◌ ◌*ℤ◌
later (pos a) (pos n) = ground arith
later (pos a) (negsuc n) = ground arith
later (negsuc a) (pos n) = ground arith
later (negsuc a) (negsuc n) = ground arith

or_later :
    (t now fallback : ℤ)
    → leb_ℤ fallback now ≡ false
    → leb_ℤ (if ltb_ℤ now t then t else fallback) now ≡ false
or_later t now fallback h = ground arith

resets_later :
    (t : Option ℤ) (now fallback : ℤ)
    → leb_ℤ fallback now ≡ false
    → leb_ℤ (later_reset t now fallback) now ≡ false
resets_later none now fallback h = h
resets_later (some t) now fallback h = or_later t now fallback h

-- The window that is stored after a 429 is exhausted, and is not over when it is stored, whatever times
-- it had before.
pub exhausted_window-blocks :
    (now : ℤ) (w : QuotaWindow)
    → (is_exhausted (exhausted_window now w) ≡ true)
      × (is_window_expired (exhausted_window now w) now ≡ false)
unfolding exhausted_window is_exhausted is_window_expired
exhausted_window-blocks now w = (refl, resets_later w.reset_at now _ (later now w.window_seconds))

answered-pool :
    (some_patch : Bool) (r : AccountRecord) (new : Option String) (rest : RefreshResult)
    (p : AccountPatch) (patch : AccountPatch) (result other : RefreshResult)
    → p.pool ≡ new
    → ◌≡◌ {A = Option AccountPatch × RefreshResult}
        (if some_patch then (some p, rest) else (none, other))
        (some patch, result)
    → patch.pool ≡ new
answered-pool true r new rest p patch result other h e = let same : p ≡ patch = cc in rw (← same) h
answered-pool false r new rest p patch result other h e = cc

ok_eq : (a b : Option AccountPatch × RefreshResult) → ok a ≡ ok b → a ≡ b
ok_eq a b e = cc

basic_pool :
    (r : AccountRecord) (answer : ℕ → Option QuotaWindow)
    → answer 0 ≡ none
    → pool_patch r answer ≡ (if str_eq "basic" r.pool then none else some "basic")
unfolding pool_patch infer_pool
basic_pool r answer absent = rw (absent, pool_patch, infer_pool) refl

-- An answer without a window of the auto mode makes the pool basic, if anything is written at all.
pub refresh_answered-pool :
    (r : AccountRecord) (fallback : Bool) (now synced : ℤ) (answer : ℕ → Option QuotaWindow)
    (patch : AccountPatch) (result : RefreshResult)
    → answer 0 ≡ none
    → refresh_answered r fallback now synced answer ≡ ok (some patch, result)
    → patch.pool ≡ (if str_eq "basic" r.pool then none else some "basic")
unfolding refresh_answered with_windows
refresh_answered-pool r fallback now synced answer patch result absent e =
    let (qs, _, last) = >>=-eq-ok (quota_set r) _ e in
    let same : answered r synced answer (mode_window r fallback now qs answer)
          (has_any (live_window r answer))
        ≡ (some patch, result) =
      ok_eq _ _ last in
    answered-pool (has_any (mode_window r fallback now qs answer)) r _ _ _ patch result _
      (basic_pool r answer absent) same
