-- ===== src/App/Metadata.antt =====
-- src/app.rs: the headers of a response.
use text.Mathlib.Text.{◌==◌ as str_eq}
use text.Mathlib.TextEquality.{eq_iff}
use server.App.Defs.{HttpResponse, insert_header, into_response}
use server.App.Handler.{Headers, add_metadata, bind_option, insert_some}
use server.Cache.{CachedResourceResponse, as_str}
use server.Config.{MetadataConfig}
use server.Prelude.{
  String, ◌≡◌, refl, ap, ◌∙◌, sym, Bool, true, false, Bool-cases, Option-cases, Option, none, some,
  List, [], ◌∷◌, if◌then◌else◌, inl, inr,
}
use server.Prelude.{different}
use server.Upstream.{UpstreamResource}

-- The first header of a name.
unfoldable pub header : String → List (String × String) → Option String
header name [] = none
header name ((n, v) ∷ rest) = if str_eq n name then some v else header name rest

-- The value if a test holds.
abbrev pub when {ℓ} : {A : Type ℓ} → Bool → Option A → Option A
when true o = o
when false o = none

abbrev or_old : Option String → Option String → Option String
or_old (some new) old = some new
or_old none old = old

header-insert :
    (name value other : String) (hs : List (String × String))
    → header other (insert_header name value hs)
      ≡ (if str_eq name other then some value else header other hs)
unfolding header insert_header
header-insert name value other [] = refl
header-insert name value other ((n, v) ∷ rest) = elim (Bool-cases (str_eq n name)) [
  | inl same ↦
      let d : str_eq n other ≡ str_eq name other =
        ap (λ x. str_eq x other) ((eq_iff n name).0 same) in
      elim (Bool-cases (str_eq name other)) [
        | inl b ↦ rw same (rw b)
        | inr b ↦ rw same (rw (b, d ∙ b))
      ]
  | inr new ↦ elim (Bool-cases (str_eq n other)) [
    | inl c ↦ elim (Bool-cases (str_eq name other)) [
      | inl b ↦ absurd (different n name new ((eq_iff n other).0 c ∙ sym ((eq_iff name other).0 b)))
      | inr b ↦ rw new (rw (b, c))
    ]
    | inr c ↦ rw new (rw c (header-insert name value other rest))
  ]
]

header-insert_some :
    (name : String) (value : Option String) (other : String) (response : HttpResponse)
    → header other (insert_some name value response).headers ≡ (
        if str_eq name other
        then or_old value (header other response.headers)
        else header other response.headers)
unfolding insert_some
header-insert_some name none other response = elim (Bool-cases (str_eq name other)) [
  | inl same ↦ rw same
  | inr new ↦ rw new
]
header-insert_some name (some value) other response =
    header-insert name value other response.headers

-- A header that is set under a test.
header-insert_when :
    (flag : Bool) (name : String) (value : Option String) (other : String) (response : HttpResponse)
    → header other (if flag then insert_some name value response else response).headers ≡ (
        if str_eq name other
        then or_old (when flag value) (header other response.headers)
        else header other response.headers)
header-insert_when true name value other response = header-insert_some name value other response
header-insert_when false name value other response = elim (Bool-cases (str_eq name other)) [
  | inl same ↦ rw same
  | inr new ↦ rw new
]

insert_some-kept :
    (name : String) (value : Option String) (response : HttpResponse)
    → ((insert_some name value response).status ≡ response.status)
      × ((insert_some name value response).body ≡ response.body)
unfolding insert_some
insert_some-kept name none response = (refl, refl)
insert_some-kept name (some value) response = (refl, refl)

insert_when-kept :
    (flag : Bool) (name : String) (value : Option String) (response : HttpResponse)
    → ((if flag then insert_some name value response else response).status ≡ response.status)
      × ((if flag then insert_some name value response else response).body ≡ response.body)
insert_when-kept true name value response = insert_some-kept name value response
insert_when-kept false name value response = (refl, refl)

or_old-none : (o : Option String) → or_old o none ≡ o
or_old-none none = refl
or_old-none (some a) = refl

-- The headers of a resource alone.
into_response-header :
    (resource : UpstreamResource)
    → (header "content-type" (into_response resource).headers ≡ resource.headers.content_type)
      × (header "server3-cache-outcome" (into_response resource).headers ≡ none)
      × (header "server3-expires-at" (into_response resource).headers ≡ none)
      × (header "server3-node-name" (into_response resource).headers ≡ none)
unfolding into_response header
into_response-header resource = elim (Option-cases resource.headers.content_type) [
  | inl e ↦ (rw e, rw e, rw e, rw e)
  | inr (t, e) ↦ (rw e, rw e, rw e, rw e)
]

module _ (h : Headers) (metadata : MetadataConfig) (found : CachedResourceResponse) where
  abbrev pub outcome_value : Option String
  outcome_value = some (as_str found.outcome)

  abbrev pub expires_value : Option String
  expires_value = bind_option found.expires_at (λ t. h.from_str (h.timestamp_to_string t))

  abbrev pub node_value : Option String
  node_value = bind_option metadata.node_name h.from_str

  -- A response has the status 200 and the body and the content type of its resource. It has the
  -- headers of the outcome and of the expiry if and only if the configuration asks for them (and
  -- there is an expiry that can be written), and that of the node's name if it is configured and
  -- can be written.
  pub add_metadata-header :
      ((add_metadata h metadata found (into_response found.resource)).status ≡ 200)
      × ((add_metadata h metadata found (into_response found.resource)).body ≡ found.resource.body)
      × (header "content-type"
            (add_metadata h metadata found (into_response found.resource)).headers
          ≡ found.resource.headers.content_type)
      × (header "server3-cache-outcome"
            (add_metadata h metadata found (into_response found.resource)).headers
          ≡ when metadata.cache_outcome outcome_value)
      × (header "server3-expires-at"
            (add_metadata h metadata found (into_response found.resource)).headers
          ≡ when metadata.expires_at expires_value)
      × (header "server3-node-name"
            (add_metadata h metadata found (into_response found.resource)).headers
          ≡ node_value)
  unfolding add_metadata into_response
  add_metadata-header =
      let r = into_response found.resource in
      let (content, no_outcome, no_expiry, no_name) = into_response-header found.resource in
      let r1 =
        if metadata.cache_outcome then insert_some "server3-cache-outcome" outcome_value r else r in
      let r2 =
        if metadata.expires_at then insert_some "server3-expires-at" expires_value r1 else r1 in
      let chain : (other : String)
          → header other (add_metadata h metadata found r).headers ≡ (
              if str_eq "server3-node-name" other
              then or_old node_value (header other r2.headers)
              else header other r2.headers) =
        λ other. header-insert_some "server3-node-name" node_value other r2 in
      let second = λ (other : String).
        header-insert_when metadata.expires_at "server3-expires-at" expires_value other r1 in
      let first = λ (other : String).
        header-insert_when metadata.cache_outcome "server3-cache-outcome" outcome_value other r in
      let k3 = insert_some-kept "server3-node-name" node_value r2 in
      let k2 = insert_when-kept metadata.expires_at "server3-expires-at" expires_value r1 in
      let k1 = insert_when-kept metadata.cache_outcome "server3-cache-outcome" outcome_value r in
      (
        k3.0 ∙ k2.0 ∙ k1.0,
        k3.1 ∙ k2.1 ∙ k1.1,
        chain "content-type" ∙ second "content-type" ∙ first "content-type" ∙ content,
        chain "server3-cache-outcome"
            ∙ second "server3-cache-outcome"
            ∙ first "server3-cache-outcome"
            ∙ ap (or_old (when metadata.cache_outcome outcome_value)) no_outcome
            ∙ or_old-none _,
        chain "server3-expires-at"
            ∙ second "server3-expires-at"
            ∙ ap (or_old (when metadata.expires_at expires_value))
                (first "server3-expires-at" ∙ no_expiry)
            ∙ or_old-none _,
        chain "server3-node-name"
            ∙ ap (or_old node_value)
                (second "server3-node-name" ∙ first "server3-node-name" ∙ no_name)
            ∙ or_old-none _,
      )
