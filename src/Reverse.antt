-- ===== src/Reverse.antt =====
-- app/dataplane/reverse/protocol/xai_usage.py, and feedback_kind_for_error of
-- app/control/account/invalid_credentials.py: how a failed request of the quotas is read, and what a fetch
-- makes of the answers. What the request of a mode comes to is an argument; the numbers in an answer are
-- integers, and a status is none below 0. Of str.lower only the characters matter that become letters of a
-- marker.
pub mod Credentials
pub mod Clearance
use Prim.Native.Char.{code}
use Prim.Native.String
use grok2apinew.Prelude.{
  ℕ, ◌+◌, String, Bool, true, false, ◌&&◌, ◌||◌, Option, none, some, List, [], ◌∷◌, ◌++◌, ◌==◌, leb,
  if◌then◌else◌,
}
use grok2apinew.Prelude.Int.{ℤ, pos, negsuc, ◌+ℤ◌, ◌*ℤ◌}
use grok2apinew.Account.Normalize.{is_part, codes}
use grok2apinew.Account.Models.{
  FeedbackKind, unauthorized, forbidden, rate_limited, server_error, QuotaWindow, real,
}
use grok2apinew.Proxy.{ProxyFeedback, ProxyFeedbackKind, challenge, upstream_5xx, transport_error}

-- The exceptions of a call of upstream: an UpstreamError, or any other, of which only the attributes
-- `status` and `status_code` are read.
pub data Failure : Type 0 where
  upstream_error : ℕ → String → Failure
  other_error : Option ℕ → Option ℕ → Failure

abbrev lower_code : ℕ → List ℕ
lower_code c =
    if leb b'A' c && leb c b'Z'
    then (c + 32) ∷ []
    else if c == 304
    then b'i' ∷ 775 ∷ []
    else if c == 8_490
    then b'k' ∷ []
    else c ∷ []

-- The code points of body.lower(), the letters apart that become no letter from a to z
unfoldable pub lower_body : String → List ℕ
lower_body String.[] = []
lower_body (String.◌∷◌ c s) = lower_code (code c) ++ lower_body s

unfoldable pub is_invalid_credentials_body : String → Bool
is_invalid_credentials_body body =
    let text = lower_body body in
    is_part (codes "invalid-credentials") text
    || is_part (codes "bad-credentials") text
    || is_part (codes "failed to look up session id") text
    || is_part (codes "blocked-user") text
    || is_part (codes "email-domain-rejected") text
    || is_part (codes "session not found") text
    || is_part (codes "account suspended") text
    || is_part (codes "token revoked") text
    || is_part (codes "token expired") text

unfoldable pub is_invalid_credentials_error : Failure → Bool
is_invalid_credentials_error (upstream_error status body) =
    (status == 400 || status == 401 || status == 403) && is_invalid_credentials_body body
is_invalid_credentials_error (other_error status status_code) = false

-- getattr(exc, "status", 0)
abbrev pub status_of : Failure → ℕ
status_of (upstream_error status body) = status
status_of (other_error none status_code) = 0
status_of (other_error (some status) status_code) = status

-- getattr(exc, "status", None) or getattr(exc, "status_code", None), with 0 for None: no test tells them apart
abbrev pub status_or_code : Failure → ℕ
status_or_code (upstream_error status body) = status
status_or_code (other_error status none) = status_of (other_error status none)
status_or_code (other_error status (some status_code)) =
    let own = status_of (other_error status none) in if own == 0 then status_code else own

-- The kind of a status, once the failure is no matter of invalid credentials
abbrev pub kind_of_status : ℕ → FeedbackKind
kind_of_status status =
    if status == 429
    then rate_limited
    else if status == 401
    then unauthorized
    else if status == 403
    then forbidden
    else server_error

unfoldable pub feedback_kind_for_error : Option Failure → FeedbackKind
feedback_kind_for_error none = server_error
feedback_kind_for_error (some exc) =
    if is_invalid_credentials_error exc then unauthorized else kind_of_status (status_of exc)

abbrev pub proxy_kind_of_status : ℕ → ProxyFeedbackKind
proxy_kind_of_status status =
    if status == 429
    then ProxyFeedbackKind.rate_limited
    else if status == 403
    then challenge
    else if status == 401
    then ProxyFeedbackKind.unauthorized
    else if leb 500 status
    then upstream_5xx
    else transport_error

unfoldable pub proxy_feedback_kind_for_error : Failure → ProxyFeedbackKind
proxy_feedback_kind_for_error exc =
    if is_invalid_credentials_error exc
    then ProxyFeedbackKind.forbidden
    else proxy_kind_of_status (status_or_code exc)

abbrev or_code : Option ℕ → Option ℕ → Option ℕ
or_code none status_code = status_code
or_code (some status) status_code = if status == 0 then status_code else some status

-- getattr(exc, "status", None) or getattr(exc, "status_code", None)
abbrev pub failure_status : Failure → Option ℕ
failure_status (upstream_error status body) = or_code (some status) none
failure_status (other_error status status_code) = or_code status status_code

-- The feedback of _do_fetch on its lease, where the request raises.
unfoldable pub failure_feedback : Failure → ProxyFeedback
unfolding proxy_feedback_kind_for_error
failure_feedback exc = record {
  kind = proxy_feedback_kind_for_error exc;
  status_code = failure_status exc;
  reason = "";
  retry_after_ms = none;
}

pub record RateLimits : Type 0 where
  pub remaining_queries : Option ℤ
  pub total_queries : Option ℤ
  pub window_size_seconds : Option ℤ

pub record RateLimitData : Type 0 where
  pub remaining : ℤ
  pub total : ℤ
  pub window_seconds : ℤ

abbrev int_or : ℤ → Option ℤ → ℤ
int_or default none = default
int_or default (some n) = n

-- A window size of 0 counts as none.
abbrev size_or : ℤ → Option ℤ → ℤ
size_or default none = default
size_or default (some (pos n)) = if n == 0 then default else pos n
size_or default (some (negsuc n)) = negsuc n

unfoldable pub parse_rate_limits : RateLimits → ℤ → Option RateLimitData
parse_rate_limits body default_window_seconds = elim body.remaining_queries [
  | none ↦ none
  | some remaining ↦ some record {
    remaining = remaining;
    total = int_or remaining body.total_queries;
    window_seconds = size_or default_window_seconds body.window_size_seconds;
  }
]

-- _DEFAULT_WINDOW_SECS.get(mode_id, 72_000)
abbrev pub default_window_secs : ℕ → ℤ
default_window_secs m =
    if m == 1
    then pos 86_400
    else if m == 0 || m == 2 || m == 3 || m == 4
    then pos 7_200
    else pos 72_000

unfoldable pub to_quota_window : RateLimitData → ℤ → QuotaWindow
to_quota_window limits synced_at = record {
  remaining = limits.remaining;
  total = limits.total;
  window_seconds = limits.window_seconds;
  reset_at = some (synced_at +ℤ limits.window_seconds *ℤ pos 1_000);
  synced_at = some synced_at;
  source = real;
}

-- What the request of a mode comes to.
pub data Answer : Type 0 where
  timed_out : Answer
  failed : Failure → Answer
  answered : RateLimits → Answer

-- What a fetch comes to: an exception, or a value.
pub data Fetched {ℓ} (A : Type ℓ) : Type ℓ where
  raised : Failure → Fetched A
  returned : A → Fetched A

unfoldable pub fetch_one : Answer → ℤ → ℕ → Fetched (Option QuotaWindow)
fetch_one timed_out now mode_id = returned none
fetch_one (failed exc) now mode_id =
    if is_invalid_credentials_error exc then raised exc else returned none
fetch_one (answered body) now mode_id =
    elim (parse_rate_limits body (default_window_secs mode_id)) [
      | none ↦ returned none
      | some limits ↦ returned (some (to_quota_window limits now))
    ]

-- mode_ids or (0, 1, 2, 3, 4)
abbrev pub requested : Option (List ℕ) → List ℕ
requested none = 0 ∷ 1 ∷ 2 ∷ 3 ∷ 4 ∷ []
requested (some []) = 0 ∷ 1 ∷ 2 ∷ 3 ∷ 4 ∷ []
requested (some (m ∷ ms)) = m ∷ ms

-- The first result that is an exception about invalid credentials
unfoldable pub first_invalid : List (ℕ × Fetched (Option QuotaWindow)) → Option Failure
first_invalid [] = none
first_invalid ((m, raised exc) ∷ results) =
    let rest = first_invalid results in if is_invalid_credentials_error exc then some exc else rest
first_invalid ((m, returned window) ∷ results) = first_invalid results

-- windows[mode_id] = window
abbrev pub put_window : ℕ → QuotaWindow → List (ℕ × QuotaWindow) → List (ℕ × QuotaWindow)
put_window m w [] = (m, w) ∷ []
put_window m w ((k, v) ∷ windows) =
    let rest = put_window m w windows in if k == m then (k, w) ∷ windows else (k, v) ∷ rest

unfoldable pub collect :
    List (ℕ × Fetched (Option QuotaWindow)) → List (ℕ × QuotaWindow) → List (ℕ × QuotaWindow)
collect [] windows = windows
collect ((m, raised exc) ∷ results) windows = collect results windows
collect ((m, returned none) ∷ results) windows = collect results windows
collect ((m, returned (some w)) ∷ results) windows = collect results (put_window m w windows)

-- asyncio.gather of the fetches, for the answer to each mode and the time at which it came
unfoldable pub fetch_each :
    (ℕ → Answer) → (ℕ → ℤ) → List ℕ → List (ℕ × Fetched (Option QuotaWindow))
fetch_each answer now [] = []
fetch_each answer now (m ∷ ms) = (m, fetch_one (answer m) (now m) m) ∷ fetch_each answer now ms

abbrev pub some_windows : List (ℕ × QuotaWindow) → Option (List (ℕ × QuotaWindow))
some_windows [] = none
some_windows (w ∷ ws) = some (w ∷ ws)

unfoldable pub fetch_all_quotas :
    (ℕ → Answer) → (ℕ → ℤ) → Option (List ℕ) → Fetched (Option (List (ℕ × QuotaWindow)))
fetch_all_quotas answer now mode_ids =
    let results = fetch_each answer now (requested mode_ids) in
    elim (first_invalid results) [
      | some exc ↦ raised exc
      | none ↦ returned (some_windows (collect results []))
    ]
