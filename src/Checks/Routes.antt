-- ===== src/Checks/Routes.antt =====
-- The routing of a Japanese video with one model that is installed.
use evoblue_video_mcp.Prelude.{All, str_eq, true, false, ◌⊎◌, none, some, [], ◌∷◌, List, ◌≡◌}
use evoblue_video_mcp.Asr.Routing.{ProviderOption, RoutingDecision, recommended_id, route_asr}
use evoblue_video_mcp.Asr.Choice.{Usable, Recommended, NoneUsable, route_asr_auto}

abbrev lite : ProviderOption
lite = record {
  provider_id = "sherpa-onnx-lite";
  model_id = "lite";
  model_version = "1";
  tier = "lite";
  languages = "ja" ∷ [];
  installed = true;
  formal_default = false;
}

abbrev standard : ProviderOption
standard = record lite {
  provider_id = "sherpa-onnx-standard";
  model_id = "standard";
  tier = "standard";
  installed = false;
  formal_default = true;
}

abbrev options : List ProviderOption
options = standard ∷ lite ∷ []

route_asr_auto_example :
    ((d : RoutingDecision) × (route_asr (some "ja") "auto" options ≡ some d)
      × (Usable (some "ja") options d ⊎ Recommended (some "ja") options d))
    ⊎ ((route_asr (some "ja") "auto" options ≡ none)
        × NoneUsable (some "ja") options
        × All (λ o. str_eq o.provider_id (recommended_id (some "ja")) ≡ false) options)
route_asr_auto_example = route_asr_auto (some "ja") options
