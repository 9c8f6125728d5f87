-- ===== src/Catalog/Spec.antt =====
-- app/control/model/enums.py and spec.py: modes, tiers, capabilities and the descriptor of a model.
-- ModeId and Tier are the integers of the source; a set of capabilities is a bit mask.
pub mod Pools
use Prim.Native.Nat.{bit_and}
use grok2apinew.Prelude.{ℕ, String, Bool, true, false, not, List, [], ◌∷◌, ◌==◌, if◌then◌else◌}

pub data ModeId : Type 0 where
  auto fast expert heavy grok_4_3 : ModeId

pub data Tier : Type 0 where
  basic super heavy : Tier

abbrev pub mode_int : ModeId → ℕ
mode_int auto = 0
mode_int fast = 1
mode_int expert = 2
mode_int ModeId.heavy = 3
mode_int grok_4_3 = 4

-- ModeId.to_api_str
unfoldable pub to_api_str : ModeId → String
to_api_str auto = "auto"
to_api_str fast = "fast"
to_api_str expert = "expert"
to_api_str ModeId.heavy = "heavy"
to_api_str grok_4_3 = "grok-420-computer-use-sa"

abbrev pub chat : ℕ
chat = 1

abbrev pub image : ℕ
image = 2

abbrev pub image_edit : ℕ
image_edit = 4

abbrev pub video : ℕ
video = 8

pub record ModelSpec : Type 0 where
  pub model_name : String
  pub mode_id : ModeId
  pub tier : Tier
  pub capability : ℕ
  pub enabled : Bool
  pub public_name : String
  pub prefer_best : Bool

-- bool(capability & cap)
unfoldable pub has_capability : ModelSpec → ℕ → Bool
has_capability spec cap = not (bit_and spec.capability cap == 0)

unfoldable pub is_chat : ModelSpec → Bool
unfolding has_capability
is_chat spec = has_capability spec chat

abbrev tier_name : Tier → String
tier_name basic = "basic"
tier_name super = "super"
tier_name Tier.heavy = "heavy"

unfoldable pub spec_pool_name : ModelSpec → String
spec_pool_name spec = tier_name spec.tier

abbrev pub tier_int : Tier → ℕ
tier_int basic = 0
tier_int super = 1
tier_int Tier.heavy = 2

unfoldable pub spec_pool_id : ModelSpec → ℕ
spec_pool_id spec = tier_int spec.tier

abbrev pub candidates : Bool → Tier → List ℕ
candidates true Tier.heavy = 2 ∷ []
candidates true super = 2 ∷ 1 ∷ []
candidates true basic = 2 ∷ 1 ∷ 0 ∷ []
candidates false basic = 0 ∷ 1 ∷ 2 ∷ []
candidates false super = 1 ∷ 2 ∷ []
candidates false Tier.heavy = 2 ∷ []

unfoldable pub pool_candidates : ModelSpec → List ℕ
pool_candidates spec = candidates spec.prefer_best spec.tier
