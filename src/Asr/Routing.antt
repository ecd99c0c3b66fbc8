-- ===== src/Asr/Routing.antt =====
-- `route_asr` of asr/routing.py, for a language that normalize_language has given.
use evoblue_video_mcp.Prelude.{
  Bool, true, ◌||◌, not, Option, none, some, List, [], ◌∷◌, String, str_eq, any, first, select,
  if◌then◌else◌,
}

pub record ProviderOption : Type 0 where
  pub provider_id : String
  pub model_id : String
  pub model_version : String
  pub tier : String
  pub languages : List String
  pub installed : Bool
  pub formal_default : Bool

pub record RoutingDecision : Type 0 where
  pub provider_id : String
  pub model_id : String
  pub model_version : String
  pub tier : String
  pub installed : Bool
  pub recommendation : Bool
  pub formal_default : Bool

abbrev pub contains : String → List String → Bool
contains s xs = any (λ x. str_eq x s) xs

abbrev pub sensevoice_languages : List String
sensevoice_languages = "zh" ∷ "en" ∷ "ja" ∷ "ko" ∷ "yue" ∷ []

-- `lang in SENSEVOICE_LANGUAGES or lang is None`
unfoldable pub is_sensevoice : Option String → Bool
is_sensevoice none = true
is_sensevoice (some lang) = contains lang sensevoice_languages

-- `_supports`
unfoldable pub supports : ProviderOption → Option String → Bool
supports o none = true
supports o (some lang) = contains "*" o.languages || contains lang o.languages

-- `_decision`
unfoldable pub decision : ProviderOption → RoutingDecision
decision o = record {
  provider_id = o.provider_id;
  model_id = o.model_id;
  model_version = o.model_version;
  tier = o.tier;
  installed = o.installed;
  recommendation = not o.installed;
  formal_default = o.formal_default;
}

abbrev pub is_provider : String → ProviderOption → Bool
is_provider id o = str_eq o.provider_id id

-- `by_provider.get(id)`: the last option of a provider stands in the dictionary
unfoldable pub by_provider : String → List ProviderOption → Option ProviderOption
by_provider id [] = none
by_provider id (o ∷ rest) = elim (by_provider id rest) [
  | some p ↦ some p
  | none ↦ if is_provider id o then some o else none
]

unfoldable pub preferred_ids : Option String → List String
unfolding is_sensevoice
preferred_ids lang =
    if is_sensevoice lang
    then "sherpa-onnx-standard" ∷ "sherpa-onnx-qwen3" ∷ "sherpa-onnx-lite" ∷ "whisper-cpp-base" ∷ []
    else "sherpa-onnx-qwen3" ∷ "whisper-cpp-base" ∷ []

unfoldable pub recommended_id : Option String → String
unfolding is_sensevoice
recommended_id lang = if is_sensevoice lang then "sherpa-onnx-standard" else "whisper-cpp-base"

-- the loop over the preferred providers
unfoldable pub first_installed : List String → List ProviderOption → Option ProviderOption
first_installed [] installed = none
first_installed (id ∷ ids) installed = elim (first (is_provider id) installed) [
  | some o ↦ some o
  | none ↦ first_installed ids installed
]

-- `installed`, the compatible options that are
unfoldable pub ready : Option String → List ProviderOption → List ProviderOption
unfolding supports
ready lang options = select (λ o. o.installed) (select (λ o. supports o lang) options)

-- none for a ValueError
unfoldable pub route_pinned : Option String → Option ProviderOption → Option RoutingDecision
unfolding supports decision
route_pinned lang none = none
route_pinned lang (some o) = if supports o lang then some (decision o) else none

unfoldable pub decide : Option ProviderOption → Option RoutingDecision
unfolding decision
decide none = none
decide (some o) = some (decision o)

unfoldable pub route_asr : Option String → String → List ProviderOption → Option RoutingDecision
unfolding by_provider route_pinned preferred_ids recommended_id first_installed ready decide
route_asr lang preference options =
    if str_eq preference "auto"
    then elim (first_installed (preferred_ids lang) (ready lang options)) [
      | some o ↦ decide (some o)
      | none ↦ decide (by_provider (recommended_id lang) options)
    ]
    else route_pinned lang (by_provider preference options)
