-- ===== src/Upstream/Fallthrough.antt =====
-- src/upstream/fallthrough.rs: upstreams tried one after the other.
use server.Prelude.{
  String, ◌≡◌, refl, Option, none, some, List, [], ◌∷◌, map, Result, ok, err, arith, Result-cases,
  inl, inr,
}
use server.Upstream.Resource.{Upstream, UpstreamError, UpstreamResource}

abbrev Answer : Type 0
Answer = Result UpstreamError (Option UpstreamResource)

-- `Option::get_or_insert`.
abbrev get_or_insert : Option UpstreamError → UpstreamError → UpstreamError
get_or_insert none error = error
get_or_insert (some first) error = first

-- The loop, with `first_error`, and what follows it.
unfoldable pub try_upstreams : Option UpstreamError → List Upstream → String → Answer
try_upstreams none [] path = ok none
try_upstreams (some error) [] path = err error
try_upstreams first_error (upstream ∷ upstreams) path = elim (upstream path) [
  | ok found ↦ elim found [
    | some resource ↦ ok (some resource)
    | none ↦ try_upstreams first_error upstreams path
  ]
  | err error ↦ try_upstreams (some (get_or_insert first_error error)) upstreams path
]

unfoldable pub fallthrough_get : List Upstream → Upstream
unfolding try_upstreams
fallthrough_get upstreams path = try_upstreams none upstreams path

-- The first resource among some answers, and the first error.
pub first_found : List Answer → Option UpstreamResource
first_found [] = none
first_found (ok (some resource) ∷ answers) = some resource
first_found (ok none ∷ answers) = first_found answers
first_found (err error ∷ answers) = first_found answers

pub first_failed : List Answer → Option UpstreamError
first_failed [] = none
first_failed (err error ∷ answers) = some error
first_failed (ok found ∷ answers) = first_failed answers

-- The resource if there is one, else the error if there is one, else "not found".
pub combined : Option UpstreamResource → Option UpstreamError → Answer
combined (some resource) failed = ok (some resource)
combined none (some error) = err error
combined none none = ok none

abbrev or_else : Option UpstreamError → Option UpstreamError → Option UpstreamError
or_else (some error) other = some error
or_else none other = other

try_upstreams_lem :
    (first_error : Option UpstreamError) (upstreams : List Upstream) (path : String)
    → try_upstreams first_error upstreams path
      ≡ combined
          (first_found (map (λ u. u path) upstreams))
          (or_else first_error (first_failed (map (λ u. u path) upstreams)))
unfolding try_upstreams first_found first_failed combined
try_upstreams_lem none [] path = refl
try_upstreams_lem (some e) [] path = refl
try_upstreams_lem none (u ∷ us) path = elim (Result-cases (u path)) [
  | inl (found, e) ↦ ground (arith, e, try_upstreams_lem none us path)
  | inr (error, e) ↦ ground (arith, e, try_upstreams_lem (some error) us path)
]
try_upstreams_lem (some f) (u ∷ us) path = ground (arith, try_upstreams_lem (some f) us path)

-- The answer for a path is the first resource that some upstream gives, in their order. If none
-- gives one, it is the first error that one of them gave, and "not found" if none failed.
pub fallthrough_get-combined :
    (upstreams : List Upstream) (path : String)
    → fallthrough_get upstreams path
      ≡ combined
          (first_found (map (λ u. u path) upstreams))
          (first_failed (map (λ u. u path) upstreams))
unfolding fallthrough_get
fallthrough_get-combined upstreams path = try_upstreams_lem none upstreams path
