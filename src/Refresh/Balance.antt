-- ===== src/Refresh/Balance.antt =====
-- What the sum over a batch counts (app/control/account/refresh.py, refresh_scheduled, refresh_tokens and
-- refresh_on_import).
use grok2apinew.Prelude.{
  ℕ, ◌+◌, ◌≤◌, ◌≡◌, refl, Bool, true, false, ◌||◌, Option, none, some, List, [], ◌∷◌, arith,
  Bool-cases, inl, inr, if◌then◌else◌,
}
use grok2apinew.Prelude.Int.{ℤ}
use grok2apinew.Prelude.Result.{Result, ok, err, runtime_error, >>=-eq-ok}
use grok2apinew.Account.Models.{QuotaWindow, AccountQuotaSet, AccountRecord, is_deleted, quota_set}
use grok2apinew.Account.Quota.{normalize_quota_window}
use grok2apinew.Store.Commands.{AccountPatch}
use grok2apinew.Refresh.{
  RefreshResult, no_result, merge, merge_all, is_some, has_any, Answer, windows, nothing,
  invalid_credentials, upstream_error, live_window, mode_window, answered, refresh_answered,
  apply_fallback, refresh_one, Job, refresh_each, results_of, refresh_batch,
}

-- Beyond the `extra` that the sum started with, whatever was checked is counted once.
abbrev pub IsBalanced : ℕ → RefreshResult → Type 0
IsBalanced extra a =
    (a.checked ≡ extra + (a.refreshed + a.expired + a.failed)) × (a.recovered ≤ a.refreshed)

or_mono :
    (a a' b b' : Bool)
    → (a ≡ true → a' ≡ true)
    → (b ≡ true → b' ≡ true)
    → (a || b) ≡ true
    → (a' || b') ≡ true
or_mono a true b b' f g h = refl
or_mono true false b b' f g h = let clash = f refl in cc
or_mono false false b b' f g h = g h

chosen :
    (o a b : Option QuotaWindow) (w : QuotaWindow)
    → o ≡ some w
    → (elim o [ some _ ↦ a | none ↦ b ]) ≡ a
chosen o a b w e = rw e refl

mode_window-live_window :
    (r : AccountRecord) (fallback : Bool) (now : ℤ) (qs : AccountQuotaSet)
    (answer : ℕ → Option QuotaWindow) (m : ℕ) (w : QuotaWindow)
    → answer m ≡ some w
    → mode_window r fallback now qs answer m ≡ live_window r answer m
unfolding mode_window
mode_window-live_window r fallback now qs answer m w there =
    chosen (answer m) (live_window r answer m) _ w there

live-mode :
    (r : AccountRecord) (fallback : Bool) (now : ℤ) (qs : AccountQuotaSet)
    (answer : ℕ → Option QuotaWindow) (m : ℕ) (o : Option QuotaWindow)
    → answer m ≡ o
    → is_some (live_window r answer m) ≡ true
    → is_some (mode_window r fallback now qs answer m) ≡ true
unfolding live_window normalize_quota_window
live-mode r fallback now qs answer m none there h =
    let clash : false ≡ true = rw (live_window, there, normalize_quota_window) at h in cc
live-mode r fallback now qs answer m (some w) there h =
    rw (mode_window-live_window r fallback now qs answer m w there) h

-- A live window is among the windows that are written.
live-any :
    (r : AccountRecord) (fallback : Bool) (now : ℤ) (qs : AccountQuotaSet)
    (answer : ℕ → Option QuotaWindow)
    → has_any (live_window r answer) ≡ true
    → has_any (mode_window r fallback now qs answer) ≡ true
unfolding has_any
live-any r fallback now qs answer =
    let each : (m : ℕ)
        → is_some (live_window r answer m) ≡ true
        → is_some (mode_window r fallback now qs answer m) ≡ true =
      λ m. live-mode r fallback now qs answer m (answer m) refl in
    or_mono _ _ _ _
      (or_mono _ _ _ _ (or_mono _ _ _ _ (or_mono _ _ _ _ (each 0) (each 1)) (each 2)) (each 3))
      (each 4)

one_result :
    (p patch : Option AccountPatch) (a result : RefreshResult)
    → ◌≡◌ {A = Result (Option AccountPatch × RefreshResult)} (ok (p, a)) (ok (patch, result))
    → IsBalanced 0 a
    → IsBalanced 0 result
one_result p patch a result e h = let same : a ≡ result = ground (arith, e) in rw (← same) h

answered-IsBalanced :
    (r : AccountRecord) (synced : ℤ) (answer patches : ℕ → Option QuotaWindow) (refreshed b : Bool)
    → has_any patches ≡ b
    → (refreshed ≡ true → b ≡ true)
    → IsBalanced 0 (answered r synced answer patches refreshed).1
answered-IsBalanced r synced answer patches refreshed true there h = rw there (ground arith)
answered-IsBalanced r synced answer patches true false there h = let clash = h refl in cc
answered-IsBalanced r synced answer patches false false there h = rw there (ground arith)

refresh_answered-IsBalanced :
    (r : AccountRecord) (fallback : Bool) (now synced : ℤ) (answer : ℕ → Option QuotaWindow)
    (patch : Option AccountPatch) (result : RefreshResult)
    → refresh_answered r fallback now synced answer ≡ ok (patch, result)
    → IsBalanced 0 result
unfolding refresh_answered
refresh_answered-IsBalanced r fallback now synced answer patch result e =
    let (qs, _, last) = >>=-eq-ok (quota_set r) _ e in
    let patches = mode_window r fallback now qs answer in
    let refreshed = has_any (live_window r answer) in
    one_result _ patch (answered r synced answer patches refreshed).1 result last (
      answered-IsBalanced r synced answer patches refreshed (has_any patches) refl
        (live-any r fallback now qs answer))

apply_fallback-IsBalanced :
    (r : AccountRecord) (now : ℤ) (patch : Option AccountPatch) (result : RefreshResult)
    → apply_fallback r now ≡ ok (patch, result)
    → IsBalanced 0 result
unfolding apply_fallback
apply_fallback-IsBalanced r now patch result e =
    let (qs, _, last) = >>=-eq-ok (quota_set r) _ e in
    one_result _ patch _ result last (ground arith)

nothing-IsBalanced :
    (r : AccountRecord) (fallback : Bool) (now : ℤ) (patch : Option AccountPatch)
    (result : RefreshResult)
    → (if fallback
        then apply_fallback r now
        else ok (none, record no_result { checked = 1; failed = 1 }))
      ≡ ok (patch, result)
    → IsBalanced 0 result
nothing-IsBalanced r true now patch result e = apply_fallback-IsBalanced r now patch result e
nothing-IsBalanced r false now patch result e = one_result none patch _ result e (ground arith)

by_answer-IsBalanced :
    (r : AccountRecord) (fallback : Bool) (stored : Option AccountRecord) (now synced : ℤ)
    (answer : Answer) (patch : Option AccountPatch) (result : RefreshResult)
    → is_deleted r ≡ false
    → refresh_one r fallback stored now synced answer ≡ ok (patch, result)
    → IsBalanced 0 result
unfolding refresh_one
by_answer-IsBalanced r fallback stored now synced (windows found) patch result live e =
    refresh_answered-IsBalanced r fallback now synced found patch result (rw live at e)
by_answer-IsBalanced r fallback stored now synced nothing patch result live e =
    nothing-IsBalanced r fallback now patch result (rw live at e)
by_answer-IsBalanced r fallback stored now synced invalid_credentials patch result live e =
    one_result _ patch _ result (rw live at e) (ground arith)
by_answer-IsBalanced r fallback stored now synced upstream_error patch result live e =
    let raised : ◌≡◌ {A = Result (Option AccountPatch × RefreshResult)} (err runtime_error)
        (ok (patch, result)) =
      rw live at e in
    absurd (ground (arith, raised))

refresh_one-IsBalanced :
    (r : AccountRecord) (fallback : Bool) (stored : Option AccountRecord) (now synced : ℤ)
    (answer : Answer) (patch : Option AccountPatch) (result : RefreshResult)
    → refresh_one r fallback stored now synced answer ≡ ok (patch, result)
    → IsBalanced 0 result
unfolding refresh_one
refresh_one-IsBalanced r fallback stored now synced answer patch result e =
    elim (Bool-cases (is_deleted r)) [
      | inl gone ↦ one_result none patch no_result result (rw gone at e) (ground arith)
      | inr live ↦ by_answer-IsBalanced r fallback stored now synced answer patch result live e
    ]

merge-IsBalanced :
    (extra : ℕ) (a b : RefreshResult)
    → IsBalanced extra a
    → IsBalanced 0 b
    → IsBalanced extra (merge a b)
unfolding merge
merge-IsBalanced extra a b h k = omega (arith, h, k)

merge_all-IsBalanced :
    (extra : ℕ) (fallback : Bool) (jobs : List Job) (agg : RefreshResult)
    (results : List (Option AccountPatch × RefreshResult))
    → refresh_each fallback jobs ≡ ok results
    → IsBalanced extra agg
    → IsBalanced extra (merge_all agg (results_of results))
unfolding merge_all refresh_each
merge_all-IsBalanced extra fallback [] agg results e h =
    let same : [] ≡ results = cc in rw (← same) h
merge_all-IsBalanced extra fallback (job ∷ jobs) agg results e h =
    let (one, first, e₁) =
      >>=-eq-ok (refresh_one job.account fallback job.stored job.now job.synced job.answer) _ e in
    let (rest, later, last) = >>=-eq-ok (refresh_each fallback jobs) _ e₁ in
    let same : one ∷ rest ≡ results = cc in
    let good = merge-IsBalanced extra agg one.1 h (
      refresh_one-IsBalanced job.account fallback job.stored job.now job.synced job.answer one.0
        one.1 first) in
    rw (← same) (merge_all-IsBalanced extra fallback jobs (merge agg one.1) rest later good)

-- The sum over a batch, if none of its refreshes raises, counts every account that was checked once, as
-- refreshed, expired or failed, beyond the count of checked accounts that it started with; and no more
-- accounts have recovered than were refreshed.
pub refresh_batch-IsBalanced :
    (fallback : Bool) (extra : ℕ) (jobs : List Job) (total : RefreshResult)
    → refresh_batch fallback extra jobs ≡ ok total
    → (total.checked ≡ extra + (total.refreshed + total.expired + total.failed))
      × (total.recovered ≤ total.refreshed)
unfolding refresh_batch
refresh_batch-IsBalanced fallback extra jobs total e =
    let (results, each, last) = >>=-eq-ok (refresh_each fallback jobs) _ e in
    let start : RefreshResult = record no_result { checked = extra } in
    let same : merge_all start (results_of results) ≡ total = cc in
    rw (← same) (merge_all-IsBalanced extra fallback jobs start results each (ground arith))
