-- ===== src/Upstream/Delivery.antt =====
-- src/response.rs: what a receiver gets of a body that it polls.
use server.Pool.{u64_mod}
use server.Prelude.{
  ℕ, ◌<◌, ◌≤◌, ◌≡◌, refl, ap, ◌∙◌, arith, String, Option, none, some, List, [], ◌∷◌, map, Result,
  ok, err, done,
}
use server.Upstream.Polls.{
  Poll, ready, pending, Frame, data_frame, TryStream, HttpBody, BodyWithSize, new_with_size,
  set_size_hint, map_ok, poll_sized, size_hint_sized, body_with_size, poll_stream, size_hint_stream,
  stream_as_body,
}
use server.Upstream.Resource.{SizeHint}
use server.Upstream.Sources.{stream_body, with_size_hint}

-- Polled until it ends, however often it has nothing yet, `poll` gives the items.
pub data Yields {S A : Type 0} (poll : S → Poll (Option A) × S) : S → List A → Type 0 where
  ends : {s s' : S} → poll s ≡ (ready none, s') → Yields poll s []
  waits : {s s' : S} {xs : List A} → poll s ≡ (pending, s') → Yields poll s' xs → Yields poll s xs
  gives :
      {s s' : S} {x : A} {xs : List A}
      → poll s ≡ (ready (some x), s')
      → Yields poll s' xs
      → Yields poll s (x ∷ xs)

abbrev pub as_frame : Result String (List ℕ) → Result String Frame
as_frame (ok bytes) = ok (data_frame bytes)
as_frame (err error) = err error

map_ok-some :
    (x : Result String (List ℕ)) → map_ok data_frame (ready (some x)) ≡ ready (some (as_frame x))
map_ok-some (ok bytes) = refl
map_ok-some (err error) = refl

module _ {S : Type 0} (stream : TryStream S) where
  abbrev pub sized : HttpBody (BodyWithSize S)
  unfolding body_with_size stream_as_body
  sized = body_with_size (stream_as_body stream)

  -- Each poll of the body is one of the stream.
  poll-sized :
      (hint : Option SizeHint) (s s' : S) (item : Poll (Option (Result String (List ℕ))))
      → stream.try_poll_next s ≡ (item, s')
      → sized.poll_frame (record { body = s; size_hint = hint })
        ≡ (map_ok data_frame item, record { body = s'; size_hint = hint })
  unfolding body_with_size stream_as_body poll_sized poll_stream
  poll-sized hint s s' item e = rw (e, poll_stream)

  Yields-sized :
      (hint : Option SizeHint) (s : S) (xs : List (Result String (List ℕ)))
      → Yields stream.try_poll_next s xs
      → Yields sized.poll_frame (record { body = s; size_hint = hint }) (map as_frame xs)
  Yields-sized hint s xs (ends e) = ends (poll-sized hint s _ (ready none) e)
  Yields-sized hint s xs (waits e rest) =
      waits (poll-sized hint s _ pending e) (Yields-sized hint _ xs rest)
  Yields-sized hint s _ (gives {s' = t} {x = x} e rest) =
      gives
        (poll-sized hint s _ (ready (some x)) e
          ∙ ap (λ f. (f, record { body = t; size_hint = hint })) (map_ok-some x))
        (Yields-sized hint _ _ rest)

  -- The bounds of a stream are in order, and fit a `u64`.
  abbrev pub Fits : ℕ → Option ℕ → Type 0
  Fits lower none = lower < u64_mod
  Fits lower (some upper) = (lower ≤ upper) × (upper < u64_mod)

  size_hint-stream :
      (s : S) (lower : ℕ) (upper : Option ℕ)
      → stream.size_hint s ≡ (lower, upper)
      → Fits lower upper
      → size_hint_stream stream s ≡ done (record { lower = lower; upper = upper })
  unfolding size_hint_stream
  size_hint-stream s lower none e fits = rw (e, size_hint_stream) (ground (arith))
  size_hint-stream s lower (some upper) e (le, lt) = rw (e, size_hint_stream) (ground (arith))

  -- The body of an upstream's answer, polled until it ends, gives the items of the stream, each as
  -- a data frame or the stream's error, in their order and none else, and however often the stream
  -- has nothing yet; its size hint is the one that was set, and else the stream's, if the bounds
  -- of the stream are in order and fit 64 bits.
  pub sized-Yields :
      (hint : Option SizeHint) (s : S) (xs : List (Result String (List ℕ))) (lower : ℕ)
      (upper : Option ℕ)
      → Yields stream.try_poll_next s xs
      → stream.size_hint s ≡ (lower, upper)
      → Fits lower upper
      → Yields sized.poll_frame
          (set_size_hint hint (new_with_size s))
          (map as_frame (with_size_hint hint (stream_body xs lower upper)).frames)
        × (sized.size_hint (set_size_hint hint (new_with_size s))
            ≡ done (with_size_hint hint (stream_body xs lower upper)).size_hint)
  unfolding set_size_hint new_with_size with_size_hint stream_body body_with_size stream_as_body
      size_hint_sized
  sized-Yields none s xs lower upper yields e fits =
      (Yields-sized none s xs yields, size_hint-stream s lower upper e fits)
  sized-Yields (some hint) s xs lower upper yields e fits =
      (Yields-sized (some hint) s xs yields, refl)
