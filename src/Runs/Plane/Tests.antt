-- ===== src/Runs/Plane/Tests.antt =====
-- The control plane with a network that is down.
use ai_agent_hub_project_ome.Base.{
  ℕ, ◌≡◌, ◌⊎◌, ◌==◌, ◌<>◌, refl, String, Option, none, some, true, false, [], inr, if◌then◌else◌,
}
use ai_agent_hub_project_ome.Base.Int.{ℤ, pos, neg_ℤ, ◌+ℤ◌, ◌-ℤ◌, ◌*ℤ◌, floor_div, mod_ℤ}
use ai_agent_hub_project_ome.Base.Str.{is_blank, repr}
use ai_agent_hub_project_ome.Base.Exn.{Outcome, ok, raised, error, value_error, Exec}
use ai_agent_hub_project_ome.Base.Rules.{Ends}
use ai_agent_hub_project_ome.Base.Value.{int, end, Codec}
use ai_agent_hub_project_ome.Agent.Types.{LlmClient, MemoryStore}
use ai_agent_hub_project_ome.Orchestrator.Run.{Host}
use ai_agent_hub_project_ome.Tools.Registry.{ToolRegistry}
use ai_agent_hub_project_ome.Tools.Code.{Floating, Expr, other_constant}
use ai_agent_hub_project_ome.Tools.Search.{SearchLib}
use ai_agent_hub_project_ome.Runs.Models.{RunCommand}
use ai_agent_hub_project_ome.Runs.Runner.{Finished, run_command}
use ai_agent_hub_project_ome.Base.Dict.{lookup}
use ai_agent_hub_project_ome.Gateway.Providers.{Wire, Web, url_error}
use ai_agent_hub_project_ome.Gateway.Providers.Config.{from_env, vendors}
use ai_agent_hub_project_ome.Runs.Plane.Wired.{
  plane_registry, plane_runner, plane_llm, supported, made, Stays, make_plane-runs,
}

abbrev codec : Codec
codec = record { show = λ v. "value"; dumps = λ v. "{}"; loads = λ text. inr "Expecting value" }

abbrev lib : SearchLib
lib = record { lower = λ s. s; to_int = λ v. ok (pos 5) }

abbrev floats : Floating ℤ
floats = record {
  of_int = λ n. ok n;
  int_div = λ a b. ok (floor_div a b);
  neg_f = neg_ℤ;
  add_f = λ a b. a +ℤ b;
  sub_f = λ a b. a -ℤ b;
  mul_f = λ a b. a *ℤ b;
  div_f = floor_div;
  floor_div_f = floor_div;
  mod_f = mod_ℤ;
  pow_f = λ a b. ok none;
  is_zero_f = λ a. false;
  is_finite_f = λ a. true;
  above_12 = λ a. false;
  above_limit = λ a. false;
  to_value = λ a. int a;
}

abbrev parse : String → Outcome (Expr ℤ)
parse text = ok other_constant

abbrev Shop : Type 0
Shop = ToolRegistry ℕ × ℕ

-- A network that is down, which leaves the world as it is.
abbrev web : Web Shop
web post w = (url_error "Connection refused", w)

abbrev wire : Wire
wire = record {
  check_url = λ url. ok tt;
  to_float = λ v. ok (pos 6000);
  decode = λ bytes. ok "";
  decode_replace = λ bytes. "";
}

abbrev sleep : ℕ → Exec Shop (Unit {0})
sleep n w = (ok tt, w)

-- An environment without variables, and one that names another provider.
abbrev unset : String → Option String
unset name = none

abbrev other_provider : String → Option String
other_provider name = if name == "OMEGA_LLM_PROVIDER" then some "other" else none

abbrev lower : String → String
lower s = s

abbrev memory : MemoryStore Shop
memory = record { recall = λ query limit w. (ok [], w); remember = λ text metadata w. (ok tt, w) }

abbrev host : Host Shop
host = record { perf_counter = λ w. (0, w); uuid4 = λ w. ("run-1", w) }

abbrev command : RunCommand
command = record { prompt = "add"; agent = "default"; metadata = end }

-- The rest of the world is a number, which stays what it is.
abbrev IsSame : ℕ → Type 0
IsSame w = w ≡ 7

supported_test : supported codec wire lower unset web host sleep lib floats parse memory ≡ true
unfolding from_env vendors lookup
supported_test = refl

unsupported_test :
    supported codec wire lower other_provider web host sleep lib floats parse memory ≡ false
unfolding from_env vendors lookup
unsupported_test = refl

abbrev model : LlmClient Shop
model = plane_llm codec wire lower unset web host sleep lib floats parse memory

make_plane-runs_example :
    ((supported codec wire lower unset web host sleep lib floats parse memory ≡ false)
      × (made codec wire lower unset web host sleep lib floats parse memory
          ≡ raised (error value_error ("Unsupported OMEGA_LLM_PROVIDER=" <> repr "local"))))
    ⊎ ((supported codec wire lower unset web host sleep lib floats parse memory ≡ true)
        × (made codec wire lower unset web host sleep lib floats parse memory
            ≡ ok (
              plane_registry codec lib floats parse model memory,
              plane_runner codec lib floats parse model memory,
            ))
        × Ends (Finished command) (
            run_command codec host none
              (plane_runner codec lib floats parse model memory)
              command
              (plane_registry codec lib floats parse model memory, 7))
        × Stays codec wire lower unset web host sleep lib floats parse memory IsSame
            (run_command codec host none
              (plane_runner codec lib floats parse model memory)
              command
              (plane_registry codec lib floats parse model memory, 7)).1)
unfolding is_blank from_env
make_plane-runs_example =
    make_plane-runs codec wire lower unset web host sleep lib floats parse memory IsSame
      (record { clock = λ w q. q; identifier = λ w q. q; events = λ h event e. absurd (cc) })
      (λ post w q. q) (λ n w q. q) ((λ query limit w q. q), (λ text metadata w q. q)) command 7 refl
      refl refl
