-- ===== src/Tests/Polls.antt =====
-- src/response.rs: the body of a stream that is not ready at once.
use server.Prelude.{
  ℕ, ◌≡◌, refl, arith, Option, none, some, List, [], ◌∷◌, map, String, Result, ok, done,
}
use server.Upstream.{SizeHint}
use server.Upstream.Sources.{with_size_hint, stream_body}
use server.Upstream.Polls.{Poll, ready, pending, TryStream, set_size_hint, new_with_size}
use server.Upstream.Delivery.{Yields, ends, waits, gives, as_frame, sized, sized-Yields}

abbrev Item : Type 0
Item = Result String (List ℕ)

-- What is left to give, an item that is not there yet as `none`.
abbrev polled : List (Option Item) → Poll (Option Item) × List (Option Item)
polled [] = (ready none, [])
polled (none ∷ rest) = (pending, rest)
polled (some item ∷ rest) = (ready (some item), rest)

abbrev queue : TryStream (List (Option Item))
queue = record { try_poll_next = polled; size_hint = λ s. (0, some 4) }

abbrev items : List (Option Item)
items = some (ok (1 ∷ 2 ∷ [])) ∷ none ∷ some (ok (3 ∷ [])) ∷ []

abbrev given : List Item
given = ok (1 ∷ 2 ∷ []) ∷ ok (3 ∷ []) ∷ []

abbrev exact : SizeHint
exact = record { lower = 3; upper = some 3 }

items-Yields : Yields queue.try_poll_next items given
items-Yields = gives refl (waits refl (gives refl (ends refl)))

sized-Yields_example :
    Yields
      (sized queue).poll_frame
      (set_size_hint (some exact) (new_with_size items))
      (map as_frame (with_size_hint (some exact) (stream_body given 0 (some 4))).frames)
    × ((sized queue).size_hint (set_size_hint (some exact) (new_with_size items))
        ≡ done (with_size_hint (some exact) (stream_body given 0 (some 4))).size_hint)
sized-Yields_example =
    sized-Yields queue (some exact) items given 0 (some 4) items-Yields refl
      (omega arith, omega arith)
