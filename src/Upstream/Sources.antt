-- ===== src/Upstream/Sources.antt =====
-- src/upstream/s3.rs, src/upstream/http.rs and src/response.rs: the two upstreams that fetch. The
-- S3 client and the HTTP client are parameters.
use Prim.Native.String.{◌++◌}
use text.Mathlib.Text.{◌==◌ as str_eq}
use server.Prelude.{
  ℕ, String, Option, none, some, List, Result, ok, err, ℤ, to_unsigned, ◌==◌, if◌then◌else◌,
  trim_start_matches,
}
use server.Upstream.Resource.{
  Body, SizeHint, Upstream, UpstreamError, UpstreamResource, url, reqwest, get_object,
}

-- `BodyWithSize`: the hint that was set, or that of the body.
unfoldable pub with_size_hint : Option SizeHint → Body → Body
with_size_hint none body = body
with_size_hint (some size_hint) body = record body { size_hint = size_hint }

abbrev pub exact_hint : Option ℕ → Option SizeHint
exact_hint none = none
exact_hint (some n) = some (record { lower = n; upper = some n })

-- `StreamBody::size_hint`, on a target where every `usize` fits a `u64`.
unfoldable pub stream_body : List (Result String (List ℕ)) → ℕ → Option ℕ → Body
stream_body frames lower upper = record {
  frames = frames;
  size_hint = record { lower = lower; upper = upper };
}

pub data GetObjectError : Type 0 where
  no_such_key : GetObjectError
  other : String → GetObjectError

pub record GetObjectOutput : Type 0 where
  pub content_type : Option String
  pub content_length : Option ℤ
  pub frames : List (Result String (List ℕ))

pub record S3Upstream : Type 0 where
  -- the client: `get_object` of a bucket and a key
  pub s3 : String → String → Result GetObjectError GetObjectOutput
  -- `HeaderValue::from_str`
  pub header_value : String → Option String
  pub bucket : String
  pub prefix : String

-- `u64::try_from(content_length).ok()`.
abbrev pub length_of : Option ℤ → Option ℕ
length_of none = none
length_of (some n) = to_unsigned n

unfoldable pub axum_body_from_s3_response : GetObjectOutput → Body
unfolding with_size_hint stream_body
axum_body_from_s3_response response =
    with_size_hint (exact_hint (length_of response.content_length))
      (stream_body response.frames 0 none)

-- `and_then(|content_type| HeaderValue::from_str(content_type).ok())`.
abbrev pub header_from : (String → Option String) → Option String → Option String
header_from header_value none = none
header_from header_value (some content_type) = header_value content_type

unfoldable pub s3_get : S3Upstream → Upstream
unfolding axum_body_from_s3_response trim_start_matches
s3_get s path =
    let key = s.prefix ++ trim_start_matches b'/' path in
    if str_eq key "" then ok none else elim (s.s3 s.bucket key) [
      | ok response ↦ ok (
          some (record {
            body = axum_body_from_s3_response response;
            headers = record { content_type = header_from s.header_value response.content_type };
          }))
      | err error ↦ elim error [ no_such_key ↦ ok none | other message ↦ err (get_object message) ]
    ]

pub record HttpResponse : Type 0 where
  pub status : ℕ
  pub content_type : Option String
  pub content_length : Option String
  pub frames : List (Result String (List ℕ))

pub record HttpUpstream : Type 0 where
  -- `Url::join` of the upstream's URL
  pub join : String → Result String String
  -- the client: `get(url).send()`
  pub send : String → Result String HttpResponse
  -- `Response::error_for_status`: the error, if the status is one
  pub error_for_status : ℕ → Option String
  -- `to_str().ok()?.parse().ok()` of a header
  pub parse : String → Option ℕ

abbrev pub parsed_length : (String → Option ℕ) → Option String → Option ℕ
parsed_length parse none = none
parsed_length parse (some text) = parse text

unfoldable pub axum_body_from_reqwest_response : HttpUpstream → HttpResponse → Body
unfolding with_size_hint stream_body
axum_body_from_reqwest_response http response =
    with_size_hint (exact_hint (parsed_length http.parse response.content_length))
      (stream_body response.frames 0 none)

-- `get` from the response on.
unfoldable pub http_answer :
    HttpUpstream → HttpResponse → Result UpstreamError (Option UpstreamResource)
unfolding axum_body_from_reqwest_response
http_answer http response =
    if response.status == 404 then ok none else elim (http.error_for_status response.status) [
      | some error ↦ err (reqwest error)
      | none ↦ ok (
          some (record {
            body = axum_body_from_reqwest_response http response;
            headers = record { content_type = response.content_type };
          }))
    ]

unfoldable pub http_get : HttpUpstream → Upstream
unfolding http_answer trim_start_matches
http_get http path = elim (http.join (trim_start_matches b'/' path)) [
  | err error ↦ err (url error)
  | ok target ↦ elim (http.send target) [
    | err error ↦ err (reqwest error)
    | ok response ↦ http_answer http response
  ]
]
