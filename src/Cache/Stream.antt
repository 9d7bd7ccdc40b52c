-- ===== src/Cache/Stream.antt =====
-- src/cache.rs: what the receiver of a cached file gets.
use server.Cache.Body.{read_frames, body_from_cached_resource, with_exact}
use server.Cache.Types.{CachedResource, Outside}
use server.Prelude.{
  ℕ, zero, suc, ◌+◌, ◌<◌, ◌≡◌, refl, sym, ap, ◌∙◌, String, Option, none, some, List, [], ◌∷◌, ◌++◌,
  length, length-append, drop, arith, Result, ok, err, ◌==◌, Bool-cases, inl, inr,
}
use server.Upstream.{Body}

-- What some frames deliver; `none` if there is an error among them.
abbrev after : List ℕ → Option (List ℕ) → Option (List ℕ)
after bytes none = none
after bytes (some rest) = some (bytes ++ rest)

pub delivered : List (Result String (List ℕ)) → Option (List ℕ)
delivered [] = some []
delivered (ok bytes ∷ frames) = after bytes (delivered frames)
delivered (err error ∷ frames) = none

-- A read of a file does not fail. It gives a part of what the file has from the offset on, and
-- nothing only at the end of the file.
abbrev pub Reads : (List ℕ → ℕ → Result String (List ℕ)) → Type 0
Reads read_at =
    (file : List ℕ) (offset : ℕ)
    → (bytes : List ℕ) × (rest : List ℕ) × (read_at file offset ≡ ok bytes)
      × (drop offset file ≡ bytes ++ rest)
      × (length bytes ≡ 0 → drop offset file ≡ [])

drop-empty : (n : ℕ) → drop {A = ℕ} n [] ≡ []
drop-empty zero = refl
drop-empty (suc n) = refl

drop-add : (a b : ℕ) (xs : List ℕ) → drop (a + b) xs ≡ drop b (drop a xs)
drop-add zero b xs = ap (λ n. drop n xs) (omega arith)
drop-add (suc a) b [] = drop-empty (suc a + b) ∙ sym (drop-empty b)
drop-add (suc a) b (x ∷ xs) =
    let e : suc a + b ≡ suc (a + b) = omega arith in ap (λ n. drop n (x ∷ xs)) e ∙ drop-add a b xs

drop-length : (xs ys : List ℕ) → drop (length xs) (xs ++ ys) ≡ ys
drop-length [] ys = refl
drop-length (x ∷ xs) ys = drop-length xs ys

read_frames_lem :
    (read_at : List ℕ → ℕ → Result String (List ℕ)) (patience : ℕ) (file : List ℕ) (offset : ℕ)
    → Reads read_at
    → length (drop offset file) < patience
    → delivered (read_frames read_at patience file offset) ≡ some (drop offset file)
unfolding read_frames delivered
read_frames_lem read_at zero file offset reads lt = absurd (omega arith)
read_frames_lem read_at (suc patience) file offset reads lt =
    let (bytes, rest, read, same, at_end) = reads file offset in
    elim (Bool-cases (length bytes == 0)) [
      | inl nothing ↦
          rw (read, read_frames) (rw nothing (ap some (sym (at_end (ground (arith, nothing))))))
      | inr more ↦
          let next : drop (offset + length bytes) file ≡ rest =
            drop-add offset (length bytes) file
            ∙ ap (drop (length bytes)) same
            ∙ drop-length bytes rest in
          let some_bytes : 0 < length bytes = ground (arith, more) in
          let less : length (drop (offset + length bytes) file) < patience =
            omega
              (arith, lt, some_bytes, ap length same, ap length next, length-append bytes rest) in
          let ih = read_frames_lem read_at patience file (offset + length bytes) reads less in
          rw (read, read_frames)
            (rw more (ap (after bytes) (ih ∙ ap some next) ∙ ap some (sym same)))
    ]

-- If the file can be opened again, its reads behave, and the receiver does not hang up early, then
-- the frames of the body are the whole file in its order, and the body's size is announced as the
-- size that the cache has noted for the file.
pub body_from_cached_resource-delivered :
    (outside : Outside) (resource : CachedResource)
    → outside.try_clone ≡ none
    → Reads outside.read_at
    → length resource.file < outside.patience
    → (body : Body) × (body_from_cached_resource outside resource ≡ ok body)
      × (delivered body.frames ≡ some resource.file)
      × (body.size_hint ≡ with_exact resource.size)
unfolding body_from_cached_resource
body_from_cached_resource-delivered outside resource opens reads lt = (
  record {
    frames = read_frames outside.read_at outside.patience resource.file 0;
    size_hint = with_exact resource.size;
  },
  rw opens,
  read_frames_lem outside.read_at outside.patience resource.file 0 reads lt,
  refl,
)
