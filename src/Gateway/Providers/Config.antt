-- ===== src/Gateway/Providers/Config.antt =====
-- llm_models/config.py: the settings of the environment, and the gateway that is built from them.
use ai_agent_hub_project_ome.Base.{
  String, ◌<>◌, Option, none, some, true, not, [], ◌∷◌, if◌then◌else◌,
}
use ai_agent_hub_project_ome.Base.Str.{repr}
use ai_agent_hub_project_ome.Base.Int.{pos}
use ai_agent_hub_project_ome.Base.Dict.{Dict, has}
use ai_agent_hub_project_ome.Base.Exn.{Outcome, raised, error, value_error, bind}
use ai_agent_hub_project_ome.Base.Value.{Codec}
use ai_agent_hub_project_ome.Gateway.Router.{make_router}
use ai_agent_hub_project_ome.Gateway.Retry.{Provider, LlmGateway, make_gateway}
use ai_agent_hub_project_ome.Gateway.Providers.{
  openai, anthropic, gemini, local_server, Adapter, Wire, Web, make_adapter, vendor_generate,
}

-- `LLMSettings`
pub record LlmSettings : Type 0 where
  pub provider : String
  pub model : String
  pub base_url : String

-- `os.getenv(name, default)`
abbrev or_env : (String → Option String) → String → String → String
or_env env name default = elim (env name) [ none ↦ default | some v ↦ v ]

-- `LLMSettings.from_env()`
unfoldable pub from_env : (String → String) → (String → Option String) → LlmSettings
from_env lower env = record {
  provider = lower (or_env env "OMEGA_LLM_PROVIDER" "local");
  model = or_env env "OMEGA_LLM_MODEL" "llama3.2";
  base_url = or_env env "OMEGA_LLM_BASE_URL" "http://localhost:11434/v1";
}

-- The adapters with their defaults.
abbrev pub openai_adapter : (String → Option String) → Adapter
unfolding make_adapter
openai_adapter env =
    make_adapter openai none (env "OPENAI_API_KEY")
      (or_env env "OPENAI_BASE_URL" "https://api.openai.com/v1")

abbrev pub anthropic_adapter : (String → Option String) → Adapter
unfolding make_adapter
anthropic_adapter env =
    make_adapter anthropic none (env "ANTHROPIC_API_KEY") "https://api.anthropic.com/v1"

abbrev pub gemini_adapter : (String → Option String) → Adapter
unfolding make_adapter
gemini_adapter env =
    make_adapter gemini none (env "GEMINI_API_KEY")
      "https://generativelanguage.googleapis.com/v1beta"

abbrev pub local_adapter : String → Adapter
unfolding make_adapter
local_adapter base_url = make_adapter local_server none none base_url

module _ (codec : Codec) (wire : Wire) (env : String → Option String) {W : Type 0}
    (web : Web W) where
  abbrev provider_of : String → Adapter → Provider W
  unfolding vendor_generate
  provider_of name adapter = record {
    name = name;
    generate = vendor_generate codec wire web adapter;
  }

  -- the four providers of `build_gateway`
  unfoldable pub vendors : LlmSettings → Dict (Provider W)
  unfolding provider_of
  vendors s =
      ("openai", provider_of "openai" (openai_adapter env))
      ∷ ("anthropic", provider_of "anthropic" (anthropic_adapter env))
      ∷ ("gemini", provider_of "gemini" (gemini_adapter env))
      ∷ ("local", provider_of "local" (local_adapter s.base_url))
      ∷ []

  -- `build_gateway(settings)`
  unfoldable pub build_gateway : LlmSettings → Outcome (LlmGateway W)
  unfolding vendors make_router make_gateway
  build_gateway s =
      if not (has s.provider (vendors s))
      then raised (error value_error ("Unsupported OMEGA_LLM_PROVIDER=" <> repr s.provider))
      else bind
          (make_router (
            record { provider = s.provider; model = s.model; priority = pos 1; enabled = true }
            ∷ []))
          λ router. make_gateway (vendors s) router (pos 2) (pos 50)
