-- ===== src/Account/Models/RoundTrip.antt =====
-- The stored dictionaries give back what was stored (app/control/account/models.py).
use grok2apinew.Prelude.{ℕ, ◌≤◌, ◌≡◌, ◌≢◌, refl, Option, none, some, arith}
use grok2apinew.Prelude.Result.{ok}
use grok2apinew.Account.Models.{
  QuotaSource, default, real, estimated, QuotaWindow, AccountQuotaSet, AccountRecord, int_of_source,
  source_of_int, to_dict, from_dict, get, set, quota_set, with_quota_set,
}

source_of_int-int_of_source : (s : QuotaSource) → source_of_int (int_of_source s) ≡ ok s
unfolding source_of_int int_of_source
source_of_int-int_of_source default = refl
source_of_int-int_of_source real = refl
source_of_int-int_of_source estimated = refl

from_dict-to_dict_parts :
    (a f e : QuotaWindow) (h g : Option QuotaWindow)
    → let qs : AccountQuotaSet = record {
      auto = a;
      fast = f;
      expert = e;
      heavy = h;
      grok_4_3 = g;
    } in
      from_dict (to_dict qs) ≡ ok qs
unfolding from_dict to_dict
from_dict-to_dict_parts a f e none none = simp source_of_int-int_of_source
from_dict-to_dict_parts a f e none (some g) = simp source_of_int-int_of_source
from_dict-to_dict_parts a f e (some h) none = simp source_of_int-int_of_source
from_dict-to_dict_parts a f e (some h) (some g) = simp source_of_int-int_of_source

-- A quota set read back from its dictionary is the set that was written, whichever of the optional
-- windows it has.
pub from_dict-to_dict : (qs : AccountQuotaSet) → from_dict (to_dict qs) ≡ ok qs
from_dict-to_dict qs = from_dict-to_dict_parts qs.auto qs.fast qs.expert qs.heavy qs.grok_4_3

-- A record that is given a quota set has that quota set.
pub quota_set-with_quota_set :
    (r : AccountRecord) (qs : AccountQuotaSet) → quota_set (with_quota_set r qs) ≡ ok qs
unfolding quota_set with_quota_set
quota_set-with_quota_set r qs = from_dict-to_dict qs

-- The window that was set for a mode is the one that is read for it.
pub get-set_self :
    (qs : AccountQuotaSet) (m : ℕ) (w : QuotaWindow) → m ≤ 4 → get (set qs m w) m ≡ some w
unfolding get set
get-set_self qs m w h = ground arith

-- Setting the window of one mode leaves the windows of the others.
pub get-set_ne :
    (qs : AccountQuotaSet) (m n : ℕ) (w : QuotaWindow)
    → m ≤ 4
    → m ≢ n
    → get (set qs m w) n ≡ get qs n
unfolding get set
get-set_ne qs m n w h ne = ground arith
