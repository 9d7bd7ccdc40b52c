-- ===== src/Upstream/Resource.antt =====
-- src/upstream.rs and src/response.rs: what an upstream gives, and the body of a response.
use server.Prelude.{ℕ, String, Option, List, Result}

-- `http_body::SizeHint`.
pub record SizeHint : Type 0 where
  pub lower : ℕ
  pub upper : Option ℕ

-- A body, as what a receiver gets of it: its data frames, or an error, and its size hint.
pub record Body : Type 0 where
  pub frames : List (Result String (List ℕ))
  pub size_hint : SizeHint

pub record UpstreamResourceHeaders : Type 0 where
  pub content_type : Option String

pub record UpstreamResource : Type 0 where
  pub headers : UpstreamResourceHeaders
  pub body : Body

-- An error of a library is the text that it displays.
pub data UpstreamError : Type 0 where
  url : String → UpstreamError
  reqwest : String → UpstreamError
  get_object : String → UpstreamError
  io : String → UpstreamError

-- The trait `Upstream`: what one call of `get` returns for a path.
abbrev pub Upstream : Type 0
Upstream = String → Result UpstreamError (Option UpstreamResource)
