-- ===== src/Catalog/Registry.antt =====
-- app/control/model/registry.py: the registered models, and the lookups by name and capability.
pub mod Complete
use grok2apinew.Prelude.{
  ℕ, String, Bool, true, false, ◌&&◌, Option, none, some, List, [], ◌∷◌, if◌then◌else◌,
}
use grok2apinew.Prelude.Result.{Result, ok, err, value_error}
use grok2apinew.Prelude.Keyed.{Keyed, lookup, insert}
use grok2apinew.Catalog.Spec.{
  ModelSpec, ModeId, Tier, auto, fast, expert, grok_4_3, basic, super, chat, image, image_edit,
  video, has_capability,
}

-- A registered model, which is enabled.
abbrev enabled_spec : String → ModeId → Tier → ℕ → String → Bool → ModelSpec
enabled_spec model_name mode_id tier capability public_name prefer_best = record {
  model_name = model_name;
  mode_id = mode_id;
  tier = tier;
  capability = capability;
  enabled = true;
  public_name = public_name;
  prefer_best = prefer_best;
}

abbrev pub models : List ModelSpec
models =
    enabled_spec "grok-4.20-0309-non-reasoning" fast basic chat "Grok 4.20 0309 Non-Reasoning" false
    ∷ enabled_spec "grok-4.20-0309" auto super chat "Grok 4.20 0309" false
    ∷ enabled_spec "grok-4.20-0309-reasoning" expert super chat "Grok 4.20 0309 Reasoning" false
    ∷ enabled_spec "grok-4.20-0309-non-reasoning-super" fast super chat
        "Grok 4.20 0309 Non-Reasoning Super" false
    ∷ enabled_spec "grok-4.20-0309-super" auto super chat "Grok 4.20 0309 Super" false
    ∷ enabled_spec "grok-4.20-0309-reasoning-super" expert super chat
        "Grok 4.20 0309 Reasoning Super" false
    ∷ enabled_spec "grok-4.20-0309-non-reasoning-heavy" fast Tier.heavy chat
        "Grok 4.20 0309 Non-Reasoning Heavy" false
    ∷ enabled_spec "grok-4.20-0309-heavy" auto Tier.heavy chat "Grok 4.20 0309 Heavy" false
    ∷ enabled_spec "grok-4.20-0309-reasoning-heavy" expert Tier.heavy chat
        "Grok 4.20 0309 Reasoning Heavy" false
    ∷ enabled_spec "grok-4.20-multi-agent-0309" ModeId.heavy Tier.heavy chat
        "Grok 4.20 Multi-Agent 0309" false
    ∷ enabled_spec "grok-4.20-fast" fast basic chat "Grok 4.20 Fast" true
    ∷ enabled_spec "grok-4.20-auto" auto super chat "Grok 4.20 Auto" true
    ∷ enabled_spec "grok-4.20-expert" expert super chat "Grok 4.20 Expert" true
    ∷ enabled_spec "grok-4.20-heavy" ModeId.heavy Tier.heavy chat "Grok 4.20 Heavy" true
    ∷ enabled_spec "grok-4.3-beta" grok_4_3 super chat "Grok 4.3 Beta" false
    ∷ enabled_spec "grok-imagine-image-lite" fast basic image "Grok Imagine Image Lite" false
    ∷ enabled_spec "grok-imagine-image" auto super image "Grok Imagine Image" false
    ∷ enabled_spec "grok-imagine-image-pro" auto super image "Grok Imagine Image Pro" false
    ∷ enabled_spec "grok-imagine-image-edit" auto super image_edit "Grok Imagine Image Edit" false
    ∷ enabled_spec "grok-imagine-video" auto super video "Grok Imagine Video" false
    ∷ enabled_spec "grok-imagine-video-1.5-preview" auto super video
        "Grok Imagine Video 1.5 Preview" false
    ∷ enabled_spec "grok-imagine-1.0-video" auto super video "Grok Imagine Video 1.0" false
    ∷ []

-- {m.model_name: m for m in specs}, on top of what is there
unfoldable pub register : List ModelSpec → Keyed ModelSpec → Keyed ModelSpec
unfolding insert
register [] d = d
register (m ∷ ms) d = register ms (insert m.model_name m d)

-- _BY_NAME.get(model_name)
unfoldable pub get_model : String → Option ModelSpec
unfolding register lookup
get_model model_name = lookup model_name (register models [])

unfoldable pub resolve : String → Result ModelSpec
unfolding get_model
resolve model_name = elim (get_model model_name) [ none ↦ err value_error | some spec ↦ ok spec ]

abbrev keep : (ModelSpec → Bool) → List ModelSpec → List ModelSpec
keep test [] = []
keep test (m ∷ ms) = let rest = keep test ms in if test m then m ∷ rest else rest

unfoldable pub list_enabled : List ModelSpec
list_enabled = keep (λ m. m.enabled) models

unfoldable pub list_by_capability : ℕ → List ModelSpec
unfolding has_capability
list_by_capability cap = keep (λ m. m.enabled && has_capability m cap) models
