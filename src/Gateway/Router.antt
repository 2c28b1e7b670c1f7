-- ===== src/Gateway/Router.antt =====
-- `ProviderRoute` and `LLMRouter` of llm_models/gateway.py.
pub mod Selection
use mathlib.Core.List.{Mem, mem-append_right, mem-cons_self}
use mathlib.Core.List.Perm
use mathlib.Core.HLevel.{Π_prop}
use mathlib.Core.Bool.{Bool-set}
use ai_agent_hub_project_ome.Base.{
  ◌≡◌, ◌≢◌, ◌↔◌, inl, inr, refl, String, ◌<>◌, ◌==◌, ap, sym, subst, ◌∙◌, Option, none, some, Bool,
  true, false, ◌&&◌, List, [], ◌∷◌, ◌++◌, keep, All, All-imp, All-mem, List-cases, leb, arith,
  Bool-cases,
}
use ai_agent_hub_project_ome.Base.Str.{repr}
use ai_agent_hub_project_ome.Base.Int.{ℤ, pos, negsuc}
use ai_agent_hub_project_ome.Base.Sort.{sort_by, IsSorted, sort_by-IsSorted, sort_by-perm}
use ai_agent_hub_project_ome.Base.Exn.{
  Outcome, ok, raised, error, value_error, llm_configuration_error,
}

pub record ProviderRoute : Type 0 where
  pub provider : String
  pub model : String
  pub priority : ℤ
  pub enabled : Bool

-- the order of `sorted(routes, key=lambda r: r.priority)`
abbrev pub leb_priority : ℤ → ℤ → Bool
leb_priority (pos a) (pos b) = leb a b
leb_priority (pos a) (negsuc b) = false
leb_priority (negsuc a) (pos b) = true
leb_priority (negsuc a) (negsuc b) = leb b a

abbrev pub before : ProviderRoute → ProviderRoute → Bool
before r q = leb_priority r.priority q.priority

-- the routes, in the order of their priority
pub record Router : Type 0 where
  pub routes : List ProviderRoute

-- `LLMRouter(routes)`
unfoldable pub make_router : List ProviderRoute → Outcome Router
make_router [] = raised (error value_error "At least one LLM route is required")
make_router (r ∷ routes) = ok (record { routes = sort_by before (r ∷ routes) })

-- `r.enabled and (requested_model is None or r.model == requested_model)`
abbrev pub serves : Option String → ProviderRoute → Bool
serves none r = r.enabled
serves (some model) r = r.enabled && r.model == model

abbrev show_model : Option String → String
show_model none = "None"
show_model (some model) = repr model

abbrev head_route : Option String → List ProviderRoute → Outcome ProviderRoute
head_route requested [] =
    raised
      (error llm_configuration_error ("No enabled LLM route for model=" <> show_model requested))
head_route requested (r ∷ candidates) = ok r

unfoldable pub select : Router → Option String → Outcome ProviderRoute
select router requested = head_route requested (keep (serves requested) router.routes)
