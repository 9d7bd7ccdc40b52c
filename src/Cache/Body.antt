-- ===== src/Cache/Body.antt =====
-- src/cache.rs: `body_from_cached_resource`, the thread that sends a file to a response.
use server.Cache.Types.{CachedResource, Outside}
use server.Prelude.{
  ℕ, zero, suc, ◌+◌, String, none, some, List, [], ◌∷◌, length, ◌==◌, if◌then◌else◌, Result, ok,
  err,
}
use server.Upstream.{Body, SizeHint}

-- The loop of the thread. `patience` is the number of frames that the receiver takes before it
-- hangs up, after which a send fails and the loop ends.
unfoldable pub read_frames :
    (List ℕ → ℕ → Result String (List ℕ)) → ℕ → List ℕ → ℕ → List (Result String (List ℕ))
read_frames read_at zero file offset = []
read_frames read_at (suc patience) file offset = elim (read_at file offset) [
  | ok bytes ↦
      let rest = read_frames read_at patience file (offset + length bytes) in
      if length bytes == 0 then [] else ok bytes ∷ rest
  | err error ↦ err error ∷ read_frames read_at patience file offset
]

-- `http_body::SizeHint::with_exact`.
abbrev pub with_exact : ℕ → SizeHint
with_exact n = record { lower = n; upper = some n }

unfoldable pub body_from_cached_resource : Outside → CachedResource → Result String Body
unfolding read_frames
body_from_cached_resource outside resource = elim outside.try_clone [
  | some error ↦ err error
  | none ↦ ok (record {
    frames = read_frames outside.read_at outside.patience resource.file 0;
    size_hint = with_exact resource.size;
  })
]
