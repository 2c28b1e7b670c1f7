-- ===== src/Tools/Runtime/Permitted.antt =====
-- Which tools `build_agent_tools` gives to an agent.
use ai_agent_hub_project_ome.Base.{
  ◌≡◌, refl, sym, ap, ◌∙◌, String, ◌<>◌, eq_iff, eq_refl, none, Bool, true, ◌&&◌, List, [], ◌∷◌,
  map, arith, keep, contains, All,
}
use ai_agent_hub_project_ome.Base.Dict.{lookup, has}
use ai_agent_hub_project_ome.Base.Exn.{ok, raised, error, tool_validation_error}
use ai_agent_hub_project_ome.Base.Value.{Fields, Codec}
use ai_agent_hub_project_ome.Agent.Types.{Tool}
use ai_agent_hub_project_ome.Tools.Registry.{ToolRegistry, names, execute}
use ai_agent_hub_project_ome.Tools.Registry.Changes.{contains-names}
use ai_agent_hub_project_ome.Tools.Runtime.{
  ToolPermission, allows, registry_tool, make_registry_tool, make_all, build_agent_tools,
}

pub contains-keep :
    (p : String → Bool) (ns : List String) (k : String)
    → contains (keep p ns) k ≡ (contains ns k && p k)
contains-keep p [] k = refl
contains-keep p (n ∷ ns) k = ground (arith, eq_iff n k, contains-keep p ns k)

module _ (codec : Codec) {W : Type 0} (registry : ToolRegistry W)
    (permission : ToolPermission) where
  pub make_all-ok :
      (ns : List String)
      → ((k : String)
          → contains ns k ≡ true
          → (contains (names registry) k && allows permission k) ≡ true)
      → make_all codec registry permission ns ≡ ok (map (registry_tool codec) ns)
  unfolding make_all make_registry_tool
  make_all-ok [] h = refl
  make_all-ok (n ∷ ns) h =
      let both = h n (ground (arith, eq_refl n)) in
      let listed : contains (names registry) n ≡ true = ground arith in
      let allowed : allows permission n ≡ true = ground arith in
      rw (listed, allowed, make_all-ok ns (λ k m. h k (ground arith))) refl

  map-names :
      (ns : List String)
      → map (λ (t : Tool (ToolRegistry W × W)). t.name) (map (registry_tool codec) ns) ≡ ns
  map-names [] = refl
  map-names (n ∷ ns) = ap (λ l. n ∷ l) (map-names ns)

  -- A tool that calls the registry as it is at the time of the call: a name that has been
  -- unregistered since is refused, and nothing changes.
  abbrev pub IsLive : Tool (ToolRegistry W × W) → Type 0
  IsLive tool =
      (arguments : Fields) (s : ToolRegistry W) (w : W)
      → lookup tool.name s.tools ≡ none
      → tool.run arguments (s, w)
        ≡ (raised (error tool_validation_error ("Tool is not allow-listed: " <> tool.name)), (s, w))

  registry_tool-IsLive : (ns : List String) → All IsLive (map (registry_tool codec) ns)
  unfolding execute
  registry_tool-IsLive [] = tt
  registry_tool-IsLive (n ∷ ns) = ((λ arguments s w e. rw e refl), registry_tool-IsLive ns)

  -- Building the tools of an agent does not fail; their names are the registered names that the
  -- agent is permitted, no more and no less; and each tool refuses, without any effect, once its
  -- name has been unregistered.
  pub build_agent_tools-permitted :
      (tools : List (Tool (ToolRegistry W × W))) × (build_agent_tools codec registry permission
        ≡ ok tools)
      × ((k : String)
          → contains (map (λ (t : Tool (ToolRegistry W × W)). t.name) tools) k
            ≡ (has k registry.tools && allows permission k))
      × All IsLive tools
  unfolding build_agent_tools
  build_agent_tools-permitted =
      let ns = keep (allows permission) (names registry) in
      (
        map (registry_tool codec) ns,
        make_all-ok ns (λ k m. sym (contains-keep (allows permission) (names registry) k) ∙ m),
        (λ k.
            ap (λ l. contains l k) (map-names ns)
            ∙ contains-keep (allows permission) (names registry) k
            ∙ ap (λ b. b && allows permission k) (contains-names k registry)),
        registry_tool-IsLive ns,
      )
