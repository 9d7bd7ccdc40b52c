-- ===== src/Upstream/Paths.antt =====
-- What the two upstreams make of a path.
use server.Prelude.{ℕ, zero, suc, String, ◌≡◌, refl, none, ok, trim_start_matches}
use server.Upstream.Sources.{S3Upstream, s3_get, HttpUpstream, http_get}

-- A path with more slashes in front.
pub slashed : ℕ → String → String
slashed zero path = path
slashed (suc n) path = String.◌∷◌ "/" (slashed n path)

trim-slashed :
    (n : ℕ) (path : String)
    → trim_start_matches b'/' (slashed n path) ≡ trim_start_matches b'/' path
unfolding slashed trim_start_matches
trim-slashed zero path = refl
trim-slashed (suc n) path = trim-slashed n path

-- Slashes in front of a path make no difference to what either upstream fetches.
pub get-slashed :
    (s3 : S3Upstream) (http : HttpUpstream) (n : ℕ) (path : String)
    → (s3_get s3 (slashed n path) ≡ s3_get s3 path)
      × (http_get http (slashed n path) ≡ http_get http path)
unfolding s3_get http_get
get-slashed s3 http n path = (rw (trim-slashed n path), rw (trim-slashed n path, http_get))

-- With no prefix configured, a path of slashes alone is not found, and the client is not asked:
-- the answer is the same for any client.
pub s3_get-empty_key :
    (s3 : S3Upstream) (n : ℕ) → s3.prefix ≡ "" → s3_get s3 (slashed n "") ≡ ok none
unfolding s3_get trim_start_matches
s3_get-empty_key s3 n e = rw (trim-slashed n "", e)
