-- ===== src/Tools/Registry/Changes.antt =====
-- Rows of `register` and `unregister`, and the pairing of tools and specs that they keep.
use ai_agent_hub_project_ome.Base.{
  ◌≡◌, inl, inr, refl, sym, ap, ◌∙◌, String, ◌==◌, eq_iff, eq_refl, Option, none, some, true, List,
  [], ◌∷◌, map, arith, Bool-cases, contains, is_some,
}
use ai_agent_hub_project_ome.Base.Sort.{str_le, contains-sort_by}
use ai_agent_hub_project_ome.Base.Dict.{
  lookup, keys, has, lookup-insert, lookup-erase, contains-keys,
}
use ai_agent_hub_project_ome.Base.Exn.{ok}
use ai_agent_hub_project_ome.Agent.Types.{Tool}
use ai_agent_hub_project_ome.Tools.Spec.{ToolSpec}
use ai_agent_hub_project_ome.Tools.Registry.{
  ToolRegistry, empty_registry, register, unregister, names, spec_of, specs_of, specs,
}

-- A change of a registry, and a row of them, each of which the caller may catch.
pub data Change (W : Type 0) : Type 0 where
  registered : Tool W → ToolSpec → Change W
  unregistered : String → Change W

module _ {W : Type 0} where
  unfoldable pub change : Change W → ToolRegistry W → ToolRegistry W
  unfolding register unregister
  change (registered tool spec) s = (register tool spec s).1
  change (unregistered name) s = (unregister name s).1

  unfoldable pub change_all : List (Change W) → ToolRegistry W → ToolRegistry W
  unfolding change
  change_all [] s = s
  change_all (c ∷ cs) s = change_all cs (change c s)

  -- A name has a tool and a spec of that name, or neither.
  abbrev pub Paired : String → Option (Tool W) → Option ToolSpec → Type 0
  Paired name none none = Unit
  Paired name (some tool) (some spec) = (tool.name ≡ name) × (spec.name ≡ name)
  Paired name _ _ = ⊥

  abbrev pub IsPaired : ToolRegistry W → Type 0
  IsPaired s = (name : String) → Paired name (lookup name s.tools) (lookup name s.specs)

pub empty-IsPaired : (W : Type 0) → IsPaired {W = W} empty_registry
unfolding lookup
empty-IsPaired W name = tt

module _ {W : Type 0} where
  Paired-is_some :
      (name : String) (t : Option (Tool W)) (c : Option ToolSpec)
      → Paired name t c
      → is_some t ≡ is_some c
  Paired-is_some name none none p = refl
  Paired-is_some name (some t) (some c) p = refl
  Paired-is_some name none (some c) p = absurd p
  Paired-is_some name (some t) none p = absurd p

  register-IsPaired :
      (tool : Tool W) (spec : ToolSpec) (s : ToolRegistry W)
      → IsPaired s
      → IsPaired (register tool spec s).1
  unfolding register
  register-IsPaired tool spec s p = elim (Bool-cases (spec.name == tool.name)) [
    | inr h ↦ rw h p
    | inl h ↦ elim (Bool-cases (has spec.name s.tools)) [
      | inl old ↦ rw (h, old) p
      | inr new ↦
          rw (h, new)
            (λ name.
              rw
                (
                  lookup-insert name spec.name tool s.tools,
                  lookup-insert name spec.name spec s.specs,
                )
                (elim (Bool-cases (spec.name == name)) [
                  | inl e ↦ rw e (ground (arith, eq_iff spec.name name, eq_iff spec.name tool.name))
                  | inr e ↦ rw e (p name)
                ]))
    ]
  ]

  unregister-IsPaired :
      (name : String) (s : ToolRegistry W) → IsPaired s → IsPaired (unregister name s).1
  unfolding unregister
  unregister-IsPaired name s p = elim (Bool-cases (has name s.tools)) [
    | inr h ↦ rw h p
    | inl h ↦
        let both : has name s.specs ≡ true = sym (Paired-is_some name _ _ (p name)) ∙ h in
        rw (h, both)
          (λ other.
            rw (lookup-erase other name s.tools, lookup-erase other name s.specs)
              (elim (Bool-cases (name == other)) [ inl e ↦ rw e tt | inr e ↦ rw e (p other) ]))
  ]

  change-IsPaired : (c : Change W) (s : ToolRegistry W) → IsPaired s → IsPaired (change c s)
  unfolding change
  change-IsPaired (registered tool spec) s p = register-IsPaired tool spec s p
  change-IsPaired (unregistered name) s p = unregister-IsPaired name s p

  pub change_all-IsPaired :
      (cs : List (Change W)) (s : ToolRegistry W) → IsPaired s → IsPaired (change_all cs s)
  unfolding change_all
  change_all-IsPaired [] s p = p
  change_all-IsPaired (c ∷ cs) s p = change_all-IsPaired cs (change c s) (change-IsPaired c s p)

  -- What `self._specs` holds for a name that has a tool.
  pub IsPaired-spec :
      (s : ToolRegistry W) (name : String)
      → IsPaired s
      → has name s.tools ≡ true
      → (c : ToolSpec) × (lookup name s.specs ≡ some c) × (c.name ≡ name)
  IsPaired-spec s name p h = go (lookup name s.tools) (lookup name s.specs) h (p name)
    where
      go :
          (t : Option (Tool W)) (c : Option ToolSpec)
          → is_some t ≡ true
          → Paired name t c
          → (d : ToolSpec) × (c ≡ some d) × (d.name ≡ name)
      go (some t) (some c) e q = (c, refl, q.1)
      go (some t) none e q = absurd q
      go none c e q = absurd (cc)

  specs_of-cons :
      (s : ToolRegistry W) (n : String) (ns : List String) (c : ToolSpec) (cs : List ToolSpec)
      → lookup n s.specs ≡ some c
      → specs_of s ns ≡ ok cs
      → specs_of s (n ∷ ns) ≡ ok (c ∷ cs)
  specs_of-cons s n ns c cs e e' = rw (spec_of, e, e') refl

  specs_of-ok :
      (s : ToolRegistry W) (ns : List String)
      → IsPaired s
      → ((k : String) → contains ns k ≡ true → has k s.tools ≡ true)
      → (cs : List ToolSpec) × (specs_of s ns ≡ ok cs) × (map (λ c. c.name) cs ≡ ns)
  specs_of-ok s [] p h = ([], refl, refl)
  specs_of-ok s (n ∷ ns) p h =
      let (c, e, named) = IsPaired-spec s n p (h n (ground (arith, eq_refl n))) in
      let (cs, e', named') = specs_of-ok s ns p (λ k m. h k (ground arith)) in
      (
        c ∷ cs,
        specs_of-cons s n ns c cs e e',
        ap (λ x. x ∷ map (λ d. d.name) cs) named ∙ ap (λ l. n ∷ l) named',
      )

  pub contains-names : (k : String) (s : ToolRegistry W) → contains (names s) k ≡ has k s.tools
  unfolding names
  contains-names k s = contains-sort_by str_le (keys s.tools) k ∙ contains-keys k s.tools

  -- Whatever has been registered and unregistered, and whichever of it was refused, `specs()`
  -- raises no `KeyError`: it returns a spec for each of the names that `names()` returns, in the
  -- same order, and each registered name is among them.
  pub change_all-specs :
      (cs : List (Change W))
      → (out : List ToolSpec) × (specs (change_all cs empty_registry) ≡ ok out)
        × (map (λ c. c.name) out ≡ names (change_all cs empty_registry))
        × ((k : String)
            → contains (names (change_all cs empty_registry)) k
              ≡ has k (change_all cs empty_registry).tools)
  unfolding specs
  change_all-specs cs =
      let s = change_all cs empty_registry in
      let (out, e, named) =
        specs_of-ok s (names s) (change_all-IsPaired cs empty_registry (empty-IsPaired W))
          (λ k m. sym (contains-names k s) ∙ m) in
      (out, e, named, λ k. contains-names k s)
