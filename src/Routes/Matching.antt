-- ===== src/Routes/Matching.antt =====
-- What a match against a table of routes can give.
use text.Mathlib.TextPositions.{eq_refl}
use server.Config.{CacheConfig, RouteConfig}
use server.Prelude.{
  String, ◌≡◌, refl, sym, subst, ◌∙◌, ◌⊎◌, inl, inr, true, Bool-cases, Option, none, some, List, [],
  ◌∷◌, done, arith,
}
use server.Routes.Ages.{Grants, asked, max_age_from-Grants}
use server.Routes.Rules.{
  CacheRouteRule, CacheEnabledRouteRule, enabled, enabled_rule_from, route_rule_from,
}
use server.Routes.Table.{
  PathTree, CacheRoutes, contains, new_routes, add_route, add_routes, from_config, match_route,
  matched,
}

-- The rule keeps resources as long as the settings ask for.
abbrev pub Keeps : CacheConfig → CacheEnabledRouteRule → Type 0
Keeps c r = Grants r.max_age (asked c.max_age)

-- A disabled route has the disabled rule, and an enabled one keeps resources as it asks for.
abbrev pub Follows : RouteConfig → CacheRouteRule → Type 0
Follows (RouteConfig.disabled _) rule = rule ≡ CacheRouteRule.disabled
Follows (RouteConfig.enabled c) rule = (r : CacheEnabledRouteRule) × (rule ≡ enabled r) × Keeps c r

-- A configured route with that path asks for the rule.
pub data Configured (rule : CacheRouteRule) (path : String)
    : List (String × RouteConfig) → Type 0 where
  here :
      (q : String) (route : RouteConfig) {rest : List (String × RouteConfig)}
      → path ≡ q
      → Follows route rule
      → Configured rule path ((q, route) ∷ rest)
  there :
      (other : String × RouteConfig) {rest : List (String × RouteConfig)}
      → Configured rule path rest
      → Configured rule path (other ∷ rest)

enabled_rule_from_total :
    (c : CacheConfig) → (r : CacheEnabledRouteRule) × (enabled_rule_from c ≡ done r) × Keeps c r
unfolding enabled_rule_from
enabled_rule_from_total c =
    let (r, e, grants) = max_age_from-Grants c.max_age in (record { max_age = r }, rw e, grants)

route_rule_from_total :
    (c : RouteConfig) → (r : CacheRouteRule) × (route_rule_from c ≡ done r) × Follows c r
unfolding route_rule_from enabled_rule_from
route_rule_from_total (RouteConfig.disabled _) = (CacheRouteRule.disabled, refl, refl)
route_rule_from_total (RouteConfig.enabled c) =
    let (r, e, grants) = max_age_from-Grants c.max_age in
    (enabled (record { max_age = r }), rw e, (record { max_age = r }, refl, grants))

contains_self : (p : String) (ps : List String) → contains (p ∷ ps) p ≡ true
unfolding contains
contains_self p ps = rw (eq_refl p)

contains_more :
    (p q : String) (ps : List String) → contains ps p ≡ true → contains (q ∷ ps) p ≡ true
unfolding contains
contains_more p q ps h = ground arith

Configured-join :
    (P : CacheRouteRule → String → Type 0) (path : String) (route : RouteConfig)
    (rule : CacheRouteRule) (rest : List (String × RouteConfig))
    → Follows route rule
    → (r : CacheRouteRule) (p : String) → (P r p ⊎ ((r ≡ rule) × (p ≡ path))) ⊎ Configured r p rest
    → P r p ⊎ Configured r p ((path, route) ∷ rest)
Configured-join P path route rule rest e r p (inl (inl h)) = inl h
Configured-join P path route rule rest e r p (inl (inr (er, ep))) =
    inr (here path route ep (subst (Follows route) (sym er) e))
Configured-join P path route rule rest e r p (inr c) = inr (there (path, route) c)

module _ (tree : PathTree (CacheRouteRule × String)) where
  open tree use {Holds}

  -- Every pattern that the tree holds is among the paths.
  unfoldable pub IsTied : CacheRoutes tree → Type 0
  IsTied routes =
      (rule : CacheRouteRule) (p : String)
      → Holds routes.route_rules (rule, p)
      → contains routes.route_paths p ≡ true

  -- Whatever the tree holds satisfies `P`.
  abbrev HoldsOnly : (CacheRouteRule → String → Type 0) → CacheRoutes tree → Type 0
  HoldsOnly P routes =
      (rule : CacheRouteRule) (p : String) → Holds routes.route_rules (rule, p) → P rule p

  pub new_routes-IsTied : (rule : CacheRouteRule) → IsTied (new_routes tree rule)
  unfolding IsTied new_routes
  new_routes-IsTied rule r p h = absurd (tree.new_holds (r, p) h)

  new_routes-HoldsOnly : (rule : CacheRouteRule) → HoldsOnly (λ _ _. ⊥) (new_routes tree rule)
  unfolding new_routes
  new_routes-HoldsOnly rule r p h = tree.new_holds (r, p) h

  new_routes-default_rule : (rule : CacheRouteRule) → (new_routes tree rule).default_rule ≡ rule
  unfolding new_routes
  new_routes-default_rule rule = refl

  pub add_route-IsTied :
      (routes : CacheRoutes tree) (path : String) (rule : CacheRouteRule)
      → IsTied routes
      → IsTied (add_route tree routes path rule)
  unfolding IsTied add_route
  add_route-IsTied routes path rule h r p held =
      elim (tree.insert_holds path (rule, path) (r, p) routes.route_rules held) [
        | inl e ↦ elim (Bool-cases (contains routes.route_paths path)) [
          | inl old ↦ ground (arith, e)
          | inr new ↦ ground (arith, e, contains_self path routes.route_paths)
        ]
        | inr before ↦ ground (arith, h r p before, contains_more p path routes.route_paths)
      ]

  add_route-HoldsOnly :
      (P : CacheRouteRule → String → Type 0) (routes : CacheRoutes tree) (path : String)
      (rule : CacheRouteRule)
      → HoldsOnly P routes
      → HoldsOnly (λ r p. P r p ⊎ ((r ≡ rule) × (p ≡ path))) (add_route tree routes path rule)
  unfolding add_route
  add_route-HoldsOnly P routes path rule only r p held =
      elim (tree.insert_holds path (rule, path) (r, p) routes.route_rules held) [
        | inl e ↦ inr (cc, cc)
        | inr before ↦ inl (only r p before)
      ]

  add_route-default_rule :
      (routes : CacheRoutes tree) (path : String) (rule : CacheRouteRule)
      → (add_route tree routes path rule).default_rule ≡ routes.default_rule
  unfolding add_route
  add_route-default_rule routes path rule = refl

  add_routes_lem :
      (routes : CacheRoutes tree) (config : List (String × RouteConfig))
      (P : CacheRouteRule → String → Type 0)
      → IsTied routes
      → HoldsOnly P routes
      → (result : CacheRoutes tree) × (add_routes tree routes config ≡ done result)
        × IsTied result
        × HoldsOnly (λ r p. P r p ⊎ Configured r p config) result
        × (result.default_rule ≡ routes.default_rule)
  unfolding add_routes
  add_routes_lem routes [] P tied only = (routes, refl, tied, λ r p h. inl (only r p h), refl)
  add_routes_lem routes ((path, route) ∷ rest) P tied only =
      let (rule, e, follows) = route_rule_from_total route in
      let (result, ran, tied', only', same) =
        add_routes_lem (add_route tree routes path rule) rest
          (λ r p. P r p ⊎ ((r ≡ rule) × (p ≡ path))) (add_route-IsTied routes path rule tied)
          (add_route-HoldsOnly P routes path rule only) in
      (
        result,
        rw e ran,
        tied',
        λ r p h. Configured-join P path route rule rest follows r p (only' r p h),
        same ∙ add_route-default_rule routes path rule,
      )

  -- What the program can be told of a path: where no pattern matches, a rule that keeps resources as
  -- long as the default settings ask for; else a rule that a configured route asks for, by its
  -- pattern, which is among the paths of the table.
  abbrev pub Explained :
      CacheConfig
      → List (String × RouteConfig)
      → CacheRoutes tree
      → CacheRouteRule × Option String
      → Type 0
  Explained config routes_config routes (rule, none) =
      (r : CacheEnabledRouteRule) × (rule ≡ enabled r) × Keeps config r
  Explained config routes_config routes (rule, some p) =
      Configured rule p routes_config × (contains routes.route_paths p ≡ true)

  found-Explained :
      (config : CacheConfig) (routes_config : List (String × RouteConfig))
      (routes : CacheRoutes tree)
      → HoldsOnly
          (λ r p. Configured r p routes_config × (contains routes.route_paths p ≡ true))
          routes
      → (r : CacheEnabledRouteRule) × (routes.default_rule ≡ enabled r) × Keeps config r
      → (o : Option (CacheRouteRule × String))
      → ((v : CacheRouteRule × String) → o ≡ some v → Holds routes.route_rules v)
      → Explained config routes_config routes (matched tree routes o)
  unfolding matched
  found-Explained config routes_config routes only default none h = default
  found-Explained config routes_config routes only default (some (r, p)) h =
      only r p (h (r, p) refl)

  -- A table of routes can be built from every configuration, with no panic. Each path then gets no
  -- pattern and a rule that keeps resources as long as the default settings ask for, or the pattern
  -- of a configured route with the rule that this route asks for: the disabled one if it is disabled,
  -- else one that keeps resources as long as its settings ask for; and that pattern is among the
  -- paths for which metrics exist.
  pub from_config-Explained :
      (config : CacheConfig) (routes_config : List (String × RouteConfig))
      → (routes : CacheRoutes tree) × (from_config tree config routes_config ≡ done routes)
        × IsTied routes
        × ((path : String) → Explained config routes_config routes (match_route tree routes path))
  unfolding from_config match_route IsTied
  from_config-Explained config routes_config =
      let (rule, e, keeps) = enabled_rule_from_total config in
      let (routes, ran, tied, only, same) =
        add_routes_lem (new_routes tree (enabled rule)) routes_config (λ _ _. ⊥)
          (new_routes-IsTied (enabled rule)) (new_routes-HoldsOnly (enabled rule)) in
      (
        routes,
        rw e ran,
        tied,
        λ path.
            found-Explained config routes_config routes
              (λ r p h. elim (only r p h) [
                | inl none_held ↦ absurd none_held
                | inr c ↦ (c, tied r p h)
              ])
              (rule, same ∙ new_routes-default_rule (enabled rule), keeps)
              (tree.find routes.route_rules path) (tree.find_holds routes.route_rules path),
      )
