-- ===== src/Store/Columns.antt =====
-- A record survives its row (app/control/account/backends/local.py, _record_to_row and _row_to_record).
use grok2apinew.Prelude.{ℕ, ◌≡◌, refl, Option, none, some, [], ◌∷◌}
use grok2apinew.Prelude.Result.{ok, ◌>>=◌}
use grok2apinew.Account.Models.{
  AccountRecord, AccountQuotaSet, QuotaWindow, QuotaDict, to_dict, window_to_dict, quota_set,
}
use grok2apinew.Account.Models.RoundTrip.{from_dict-to_dict}
use grok2apinew.Account.Normalize.{normalize_token, normalize_pool, normalize_tags}
use grok2apinew.Store.{row_to_record, record_to_row, quota_of_row, item_if_truthy, dict_or_empty}

-- The dictionary that the five columns of a quota set give.
optional_columns :
    (heavy grok_4_3 : Option QuotaWindow) (auto fast expert : QuotaWindow)
    → let qs : AccountQuotaSet = record {
      auto = auto;
      fast = fast;
      expert = expert;
      heavy = heavy;
      grok_4_3 = grok_4_3;
    } in
      ◌≡◌ {A = QuotaDict}
        (("auto", window_to_dict auto)
          ∷ ("fast", window_to_dict fast)
          ∷ ("expert", window_to_dict expert)
          ∷ item_if_truthy "heavy"
              (dict_or_empty heavy)
              (item_if_truthy "grok_4_3" (dict_or_empty grok_4_3) []))
        (to_dict qs)
unfolding to_dict window_to_dict
optional_columns none none auto fast expert = refl
optional_columns none (some g) auto fast expert = refl
optional_columns (some h) none auto fast expert = refl
optional_columns (some h) (some g) auto fast expert = refl

-- A record whose token, pool and tags the validators leave, and whose quota is stored as a quota set
-- writes it, is read back from the row it is written to, with the row's revision.
pub row_to_record-record_to_row :
    (r : AccountRecord) (qs : AccountQuotaSet) (revision : ℕ)
    → normalize_token r.token ≡ some r.token
    → normalize_pool r.pool ≡ some r.pool
    → normalize_tags r.tags ≡ r.tags
    → r.quota ≡ to_dict qs
    → (record_to_row r revision >>= row_to_record) ≡ ok (record r { revision = revision })
unfolding record_to_row row_to_record quota_of_row quota_set
row_to_record-record_to_row r qs revision token pool tags quota =
    rw
      (
        quota,
        from_dict-to_dict qs,
        token,
        pool,
        tags,
        optional_columns qs.heavy qs.grok_4_3 qs.auto qs.fast qs.expert,
      )
      refl
