-- ===== src/Gateway/Providers/Built.antt =====
-- When `build_gateway` gives a gateway, and which one.
use ai_agent_hub_project_ome.Base.{
  String, ◌<>◌, Option, some, Bool, true, false, [], ◌∷◌, ◌≡◌, refl,
}
use ai_agent_hub_project_ome.Base.Str.{repr}
use ai_agent_hub_project_ome.Base.Int.{pos}
use ai_agent_hub_project_ome.Base.Dict.{lookup, has, list-Found}
use ai_agent_hub_project_ome.Base.Exn.{ok, raised, error, value_error}
use ai_agent_hub_project_ome.Base.Sort.{sort_by}
use ai_agent_hub_project_ome.Base.Value.{Codec}
use ai_agent_hub_project_ome.Gateway.Router.{make_router}
use ai_agent_hub_project_ome.Gateway.Retry.{Provider, LlmGateway, make_gateway}
use ai_agent_hub_project_ome.Gateway.Providers.{Wire, Web, Post}
use ai_agent_hub_project_ome.Gateway.Providers.Config.{
  LlmSettings, vendors, build_gateway, openai_adapter, anthropic_adapter, gemini_adapter,
  local_adapter,
}
use ai_agent_hub_project_ome.Gateway.Kept.{IsKeptProvider, vendor_generate-Keeps}

module _ (codec : Codec) (wire : Wire) (env : String → Option String) {W : Type 0} (web : Web W)
    (s : LlmSettings) where
  -- The provider of the settings is one of the four.
  abbrev pub is_supported : Bool
  is_supported = has s.provider (vendors codec wire env web s)

  -- All four providers, one route, and the defaults for the retries.
  abbrev pub built_gateway : LlmGateway W
  built_gateway = record {
    providers = vendors codec wire env web s;
    router = record {
      routes =
          record { provider = s.provider; model = s.model; priority = pos 1; enabled = true } ∷ [];
    };
    max_retries = 2;
    retry_delay = 50;
  }

  pub build_gateway-ok : is_supported ≡ true → build_gateway codec wire env web s ≡ ok built_gateway
  unfolding build_gateway make_router make_gateway sort_by
  build_gateway-ok e = rw e refl

  pub build_gateway-raised :
      is_supported ≡ false
      → build_gateway codec wire env web s
        ≡ raised (error value_error ("Unsupported OMEGA_LLM_PROVIDER=" <> repr s.provider))
  unfolding build_gateway
  build_gateway-raised e = rw e refl

  -- The providers keep what the network keeps.
  pub vendors-Keeps :
      (P : W → Type 0)
      → ((post : Post) (w : W) → P w → P (web post w).1)
      → (name : String) (provider : Provider W)
      → lookup name (vendors codec wire env web s) ≡ some provider
      → IsKeptProvider P provider
  unfolding vendors
  vendors-Keeps P posts = list-Found (IsKeptProvider P) (vendors codec wire env web s) (
    vendor_generate-Keeps P codec wire web posts (openai_adapter env),
    (
      vendor_generate-Keeps P codec wire web posts (anthropic_adapter env),
      (
        vendor_generate-Keeps P codec wire web posts (gemini_adapter env),
        (vendor_generate-Keeps P codec wire web posts (local_adapter s.base_url), tt),
      ),
    ),
  )
