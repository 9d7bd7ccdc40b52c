-- ===== src/Routes/Table.antt =====
-- src/cache.rs: the table of routes, over the crate `path-tree`.
use text.Mathlib.Text.{◌==◌}
use server.Config.{CacheConfig, RouteConfig}
use server.Prelude.{
  String, ◌≡◌, ◌⊎◌, Bool, false, ◌||◌, Option, none, some, List, [], ◌∷◌, if◌then◌else◌, Run, done,
  ◌>>=◌,
}
use server.Routes.Rules.{CacheRouteRule, enabled, enabled_rule_from, route_rule_from}

-- What the program uses of `path_tree::PathTree<V>`. `find` gives the value of the pattern that
-- matches a path. `Holds t v`: the value `v` was inserted. The tree finds only such values.
pub record PathTree (V : Type 0) : Type 1 where
  pub Tree : Type 0
  pub new : Tree
  pub insert : String → V → Tree → Tree
  pub find : Tree → String → Option V
  pub Holds : Tree → V → Type 0
  pub find_holds : (t : Tree) (path : String) (v : V) → find t path ≡ some v → Holds t v
  pub new_holds : (v : V) → ¬ Holds new v
  pub insert_holds :
      (path : String) (v w : V) (t : Tree) → Holds (insert path v t) w → (w ≡ v) ⊎ Holds t w

-- A `HashSet<Arc<str>>`, as the list of its elements.
unfoldable pub contains : List String → String → Bool
contains [] p = false
contains (q ∷ qs) p = q == p || contains qs p

module _ (tree : PathTree (CacheRouteRule × String)) where
  open tree use {Tree}

  pub record CacheRoutes : Type 0 where
    pub default_rule : CacheRouteRule
    pub route_rules : Tree
    pub route_paths : List String

  -- `CacheRoutes::new`.
  unfoldable pub new_routes : CacheRouteRule → CacheRoutes
  new_routes rule = record { default_rule = rule; route_rules = tree.new; route_paths = [] }

  unfoldable pub add_route : CacheRoutes → String → CacheRouteRule → CacheRoutes
  unfolding contains
  add_route routes path_pattern rule = record routes {
    route_rules = tree.insert path_pattern (rule, path_pattern) routes.route_rules;
    route_paths =
        if contains routes.route_paths path_pattern
        then routes.route_paths
        else path_pattern ∷ routes.route_paths;
  }

  -- The loop of `from_config`.
  unfoldable pub add_routes : CacheRoutes → List (String × RouteConfig) → Run CacheRoutes
  unfolding route_rule_from add_route
  add_routes routes [] = done routes
  add_routes routes ((path, route) ∷ rest) = do
    rule ← route_rule_from route
    add_routes (add_route routes path rule) rest

  unfoldable pub from_config : CacheConfig → List (String × RouteConfig) → Run CacheRoutes
  unfolding enabled_rule_from new_routes add_routes
  from_config cache_config routes_config = do
    rule ← enabled_rule_from cache_config
    add_routes (new_routes (enabled rule)) routes_config

  -- The two branches of `match_route`.
  unfoldable pub matched :
      CacheRoutes → Option (CacheRouteRule × String) → CacheRouteRule × Option String
  matched routes (some (rule, pattern)) = (rule, some pattern)
  matched routes none = (routes.default_rule, none)

  unfoldable pub match_route : CacheRoutes → String → CacheRouteRule × Option String
  unfolding matched
  match_route routes path = matched routes (tree.find routes.route_rules path)
