-- ===== src/Gateway/Router/Selection.antt =====
-- Which route is selected.
use mathlib.Core.List.{Mem, mem-append_right, mem-cons_self}
use mathlib.Core.List.Perm
use mathlib.Core.HLevel.{Π_prop}
use mathlib.Core.Bool.{Bool-set}
use ai_agent_hub_project_ome.Base.{
  ◌≡◌, ◌≢◌, ◌↔◌, inl, inr, refl, String, ap, sym, subst, ◌∙◌, Option, Bool, true, false, List, [],
  ◌∷◌, ◌++◌, keep, All, All-imp, All-mem, List-cases, arith, Bool-cases,
}
use ai_agent_hub_project_ome.Base.Int.{ℤ, pos, negsuc}
use ai_agent_hub_project_ome.Base.Sort.{sort_by, IsSorted, sort_by-IsSorted, sort_by-perm}
use ai_agent_hub_project_ome.Base.Exn.{ok}
use ai_agent_hub_project_ome.Gateway.Router.{
  ProviderRoute, leb_priority, before, Router, make_router, serves, head_route, select,
}

leb_priority_total : (a b : ℤ) → leb_priority a b ≡ false → leb_priority b a ≡ true
leb_priority_total (pos a) (pos b) h = ground arith
leb_priority_total (pos a) (negsuc b) h = refl
leb_priority_total (negsuc a) (pos b) h = ground arith
leb_priority_total (negsuc a) (negsuc b) h = ground arith

leb_priority_refl : (a : ℤ) → leb_priority a a ≡ true
leb_priority_refl (pos a) = ground arith
leb_priority_refl (negsuc a) = ground arith

leb_priority_trans :
    (a b c : ℤ) → leb_priority a b ≡ true → leb_priority b c ≡ true → leb_priority a c ≡ true
leb_priority_trans (pos a) (pos b) (pos c) h k = ground arith
leb_priority_trans (negsuc a) (negsuc b) (negsuc c) h k = ground arith
leb_priority_trans (negsuc a) (negsuc b) (pos c) h k = refl
leb_priority_trans (negsuc a) (pos b) (pos c) h k = refl
leb_priority_trans (pos a) (negsuc b) c h k = ground arith
leb_priority_trans (pos a) (pos b) (negsuc c) h k = ground arith
leb_priority_trans (negsuc a) (pos b) (negsuc c) h k = ground arith

-- `keep` finds its head as follows: nothing before it passes.
keep-split :
    (p : ProviderRoute → Bool) (rs : List ProviderRoute) (r : ProviderRoute)
    (more : List ProviderRoute)
    → keep p rs ≡ r ∷ more
    → (skipped : List ProviderRoute) × (rest : List ProviderRoute) × (rs ≡ skipped ++ r ∷ rest)
      × All (λ q. p q ≡ false) skipped
      × (p r ≡ true)
keep-split p [] r more e = absurd (cc)
keep-split p (q ∷ rs) r more e = elim (Bool-cases (p q)) [
  | inl h ↦
      let e' : q ∷ keep p rs ≡ r ∷ more = rw (h, keep) at e in
      let same : q ≡ r = cc in ([], rs, ap (λ x. x ∷ rs) same, tt, rw same at h)
  | inr h ↦
      let (skipped, rest, same, none_before, passes) = keep-split p rs r more (rw (h, keep) at e) in
      (q ∷ skipped, rest, ap (λ l. q ∷ l) same, (h, none_before), passes)
]

keep-empty :
    (p : ProviderRoute → Bool) (rs : List ProviderRoute)
    → keep p rs ≡ []
    → All (λ q. p q ≡ false) rs
keep-empty p [] e = tt
keep-empty p (q ∷ rs) e = elim (Bool-cases (p q)) [
  | inl h ↦ let e' = rw (h, keep) at e in absurd (cc)
  | inr h ↦ (h, keep-empty p rs (rw (h, keep) at e))
]

-- In a sorted list the first route that serves a model stands before all the others that do.
first-before :
    (p : ProviderRoute → Bool) (skipped : List ProviderRoute) (r : ProviderRoute)
    (rest : List ProviderRoute)
    → IsSorted before (skipped ++ r ∷ rest)
    → All (λ q. p q ≡ false) skipped
    → All (λ q. p q ≡ true → before r q ≡ true) (skipped ++ r ∷ rest)
first-before p [] r rest s h = ((λ e. leb_priority_refl r.priority), All-imp rest (λ q b e. b) s.0)
first-before p (q ∷ skipped) r rest s h =
    ((λ e. absurd (cc)), first-before p skipped r rest s.1 h.1)

make_router-routes :
    (routes : List ProviderRoute) (router : Router)
    → make_router routes ≡ ok router
    → router.routes ≡ sort_by before routes
unfolding make_router
make_router-routes [] router e = absurd (cc)
make_router-routes (x ∷ xs) router e = ground arith

head_route-cons :
    (requested : Option String) (candidates : List ProviderRoute) (r : ProviderRoute)
    → head_route requested candidates ≡ ok r
    → (more : List ProviderRoute) × (candidates ≡ r ∷ more)
head_route-cons requested [] r e = absurd (cc)
head_route-cons requested (x ∷ candidates) r e =
    let same : x ≡ r = cc in (candidates, ap (λ y. y ∷ candidates) same)

test_prop : (b c : Bool) → IsProp (b ≡ c)
test_prop = Bool-set

-- Selection from the routes of a router: the result is one of the routes, it is enabled and has the
-- requested model, and no other such route has a smaller priority value.
pub select-best :
    (routes : List ProviderRoute) (router : Router) (requested : Option String) (r : ProviderRoute)
    → make_router routes ≡ ok router
    → select router requested ≡ ok r
    → Mem r routes
      × (serves requested r ≡ true)
      × ((q : ProviderRoute) → Mem q routes → serves requested q ≡ true → before r q ≡ true)
unfolding select
select-best routes router requested r e s =
    let p = serves requested in
    let sorted = make_router-routes routes router e in
    let (more, kept) = head_route-cons requested (keep p router.routes) r s in
    let (skipped, rest, split, unfit, fits) = keep-split p router.routes r more kept in
    let order : IsSorted before (skipped ++ r ∷ rest) =
      subst (IsSorted before) (sym sorted ∙ split)
        (sort_by-IsSorted priority_total priority_trans routes) in
    let listed : (q : ProviderRoute) → Mem q routes → Mem q (skipped ++ r ∷ rest) = λ q m.
      subst (Mem q) (sym sorted ∙ split)
        (Perm.subset (Perm.symm (sort_by-perm before routes)) q m) in
    (
      Perm.subset (sort_by-perm before routes) r
          (subst (Mem r) (sym split ∙ sorted) (mem-append_right skipped mem-cons_self)),
      fits,
      λ q m served.
          All-mem (λ x. serves requested x ≡ true → before r x ≡ true)
            (λ x. Π_prop (λ t. test_prop (before r x) true)) (skipped ++ r ∷ rest) q
            (first-before p skipped r rest order unfit) (listed q m) served,
    )
  where
    priority_total : (x y : ProviderRoute) → before x y ≡ false → before y x ≡ true
    priority_total x y = leb_priority_total x.priority y.priority

    priority_trans :
        (x y z : ProviderRoute) → before x y ≡ true → before y z ≡ true → before x z ≡ true
    priority_trans x y z = leb_priority_trans x.priority y.priority z.priority

-- Selection fails exactly if no route is enabled for the requested model.
pub select-fails_iff :
    (routes : List ProviderRoute) (router : Router) (requested : Option String)
    → make_router routes ≡ ok router
    → ((r : ProviderRoute) → select router requested ≢ ok r)
      ↔ ((q : ProviderRoute) → Mem q routes → serves requested q ≡ false)
unfolding select
select-fails_iff routes router requested e = (refused, unserved)
  where
    refused :
        ((r : ProviderRoute) → select router requested ≢ ok r)
        → (q : ProviderRoute) → Mem q routes
        → serves requested q ≡ false
    refused f q m = elim (Bool-cases (serves requested q)) [
      | inr no_ ↦ no_
      | inl served ↦ elim (List-cases (keep (serves requested) router.routes)) [
        | inl none_ ↦
            let unfit : serves requested q ≡ false =
              All-mem (λ x. serves requested x ≡ false) (λ x. test_prop (serves requested x) false)
                router.routes q (keep-empty (serves requested) router.routes none_)
                (subst (Mem q) (sym (make_router-routes routes router e))
                  (Perm.subset (Perm.symm (sort_by-perm before routes)) q m)) in
            unfit
        | inr (x, more, kept) ↦ absurd (f x (rw (select, kept)))
      ]
    ]

    unserved :
        ((q : ProviderRoute) → Mem q routes → serves requested q ≡ false)
        → (r : ProviderRoute) → select router requested ≢ ok r
    unserved f r s =
        let (m, served, least) = select-best routes router requested r e s in
        let refuted = f r m in cc
