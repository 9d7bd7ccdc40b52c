-- ===== src/Main/Upstreams.antt =====
-- src/main.rs, `build_upstream`, with the constructors in src/upstream/http.rs and
-- src/upstream/s3.rs. The client libraries are parameters.
use server.Config.{
  UpstreamConfig, UpstreamConfigs, UpstreamHttpConfig, UpstreamS3Config, http, s3, fallthrough, nil,
  cons,
}
use server.Prelude.{ℕ, ◌*◌, String, Option, none, some, List, [], ◌∷◌, Result, ok, err}
use server.Upstream.Fallthrough.{fallthrough_get}
use server.Upstream.Sources.{
  GetObjectError, GetObjectOutput, HttpResponse, HttpUpstream, S3Upstream, http_get, s3_get,
}
use server.Upstream.{Upstream}

-- What the builder of a `reqwest::Client` was told. Times count nanoseconds.
pub record ClientBuilder : Type 0 where
  pub pool_idle_timeout : ℕ
  pub pool_max_idle_per_host : ℕ
  pub timeout : Option ℕ
  pub read_timeout : Option ℕ
  pub connect_timeout : Option ℕ

-- What `aws_config` and the builder of the S3 client were told; the rest is the environment's.
pub record AwsSettings : Type 0 where
  pub profile : Option String
  pub region : Option String
  pub endpoint_url : Option String

-- The libraries.
pub record Clients : Type 0 where
  -- `ClientBuilder::build`: the client's `get(url).send()`, or an error
  pub build : ClientBuilder → Result String (String → Result String HttpResponse)
  -- `Url::join` of a URL and a path
  pub join : String → String → Result String String
  pub error_for_status : ℕ → Option String
  pub parse : String → Option ℕ
  -- the S3 client: `get_object` of a bucket and a key
  pub s3_client : AwsSettings → String → String → Result GetObjectError GetObjectOutput
  pub header_value : String → Option String

-- The builder that `HttpUpstream::new` sets up.
unfoldable pub http_builder : UpstreamHttpConfig → ClientBuilder
http_builder config =
    let b0 : ClientBuilder = record {
      pool_idle_timeout = 60 * 1_000_000_000;
      pool_max_idle_per_host = 10;
      timeout = none;
      read_timeout = none;
      connect_timeout = none;
    } in
    let b1 : ClientBuilder = elim config.http_timeout [
      | none ↦ b0
      | some t ↦ record b0 { timeout = some t }
    ] in
    let b2 : ClientBuilder = elim config.http_read_timeout [
      | none ↦ b1
      | some t ↦ record b1 { read_timeout = some t }
    ] in
    elim config.http_connect_timeout [ none ↦ b2 | some t ↦ record b2 { connect_timeout = some t } ]

unfoldable pub new_http : Clients → UpstreamHttpConfig → Result String HttpUpstream
unfolding http_builder
new_http clients config = elim (clients.build (http_builder config)) [
  | err error ↦ err error
  | ok client ↦ ok (record {
    join = clients.join config.url;
    send = client;
    error_for_status = clients.error_for_status;
    parse = clients.parse;
  })
]

unfoldable pub new_s3 : Clients → UpstreamS3Config → S3Upstream
new_s3 clients config = record {
  s3 = clients.s3_client (record {
    profile = config.profile;
    region = config.region;
    endpoint_url = config.endpoint_url;
  });
  header_value = clients.header_value;
  bucket = config.bucket;
  prefix = config.prefix;
}

abbrev made_http : Result String HttpUpstream → Result String Upstream
made_http (err error) = err error
made_http (ok upstream) = ok (http_get upstream)

abbrev made_all : Result String (List Upstream) → Result String Upstream
made_all (err error) = err error
made_all (ok upstreams) = ok (fallthrough_get upstreams)

abbrev joined :
    Result String Upstream → Result String (List Upstream) → Result String (List Upstream)
joined (err error) rest = err error
joined (ok upstream) (err error) = err error
joined (ok upstream) (ok upstreams) = ok (upstream ∷ upstreams)

-- Each upstream of a list is built as far as it needs nothing from outside before any is waited
-- for, and only a build without waiting fails: `try_join_all` gives the first error of the list.
unfoldable mutual
  pub build_upstream : Clients → UpstreamConfig → Result String Upstream
  build_upstream clients (http config) = made_http (new_http clients config)
  build_upstream clients (s3 config) = ok (s3_get (new_s3 clients config))
  build_upstream clients (fallthrough upstreams) = made_all (build_upstreams clients upstreams)

  pub build_upstreams : Clients → UpstreamConfigs → Result String (List Upstream)
  build_upstreams clients nil = ok []
  build_upstreams clients (cons upstream rest) =
      joined (build_upstream clients upstream) (build_upstreams clients rest)
