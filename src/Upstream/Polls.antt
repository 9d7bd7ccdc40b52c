-- ===== src/Upstream/Polls.antt =====
-- src/response.rs: `BodyWithSize` and `StreamBody`, poll by poll.
use server.Prelude.{
  ℕ, ltb, String, Option, none, some, List, Bool, false, if◌then◌else◌, Result, ok, err, Run, done,
  panic, ◌>>=◌,
}
use server.Pool.{u64_mod}
use server.Upstream.Resource.{SizeHint}

pub data Poll {ℓ} (A : Type ℓ) : Type ℓ where
  ready : A → Poll A
  pending : Poll A

-- `http_body::Frame`.
pub data Frame : Type 0 where
  data_frame : List ℕ → Frame
  trailers : List (String × String) → Frame

-- The traits `futures::TryStream` of byte strings, and `http_body::Body`. A poll may change the
-- state.
pub record TryStream (S : Type 0) : Type 0 where
  pub try_poll_next : S → Poll (Option (Result String (List ℕ))) × S
  pub size_hint : S → ℕ × Option ℕ

pub record HttpBody (B : Type 0) : Type 0 where
  pub poll_frame : B → Poll (Option (Result String Frame)) × B
  pub is_end_stream : B → Bool
  pub size_hint : B → Run SizeHint

pub record BodyWithSize (B : Type 0) : Type 0 where
  pub body : B
  pub size_hint : Option SizeHint

unfoldable pub new_with_size : {B : Type 0} → B → BodyWithSize B
new_with_size body = record { body = body; size_hint = none }

unfoldable pub set_size_hint : {B : Type 0} → Option SizeHint → BodyWithSize B → BodyWithSize B
set_size_hint size_hint b = record b { size_hint = size_hint }

-- `Poll::map_ok`.
abbrev pub map_ok :
    {A B : Type 0} → (A → B) → Poll (Option (Result String A)) → Poll (Option (Result String B))
map_ok f pending = pending
map_ok f (ready none) = ready none
map_ok f (ready (some (err error))) = ready (some (err error))
map_ok f (ready (some (ok a))) = ready (some (ok (f a)))

-- `BodyWithSize` as a body.
module _ {B : Type 0} (inner : HttpBody B) where
  unfoldable pub poll_sized : BodyWithSize B → Poll (Option (Result String Frame)) × BodyWithSize B
  poll_sized b = let (frame, body) = inner.poll_frame b.body in (frame, record b { body = body })

  unfoldable pub size_hint_sized : BodyWithSize B → Run SizeHint
  size_hint_sized b = elim b.size_hint [ some hint ↦ done hint | none ↦ inner.size_hint b.body ]

  unfoldable pub body_with_size : HttpBody (BodyWithSize B)
  unfolding poll_sized size_hint_sized
  body_with_size = record {
    poll_frame = poll_sized;
    is_end_stream = λ b. inner.is_end_stream b.body;
    size_hint = size_hint_sized;
  }

-- `SizeHint::set_lower` and `SizeHint::set_upper`, which panic if the bounds would cross.
abbrev above : ℕ → Option ℕ → Bool
above lower none = false
above lower (some upper) = ltb upper lower

abbrev pub set_lower : ℕ → SizeHint → Run SizeHint
set_lower lower hint =
    if above lower hint.upper then panic else done (record hint { lower = lower })

abbrev pub set_upper : ℕ → SizeHint → Run SizeHint
set_upper upper hint =
    if ltb upper hint.lower then panic else done (record hint { upper = some upper })

-- `try_into` of a `usize` into a `u64`.
abbrev pub to_u64 : ℕ → Option ℕ
to_u64 n = if ltb n u64_mod then some n else none

-- `StreamBody` as a body; `is_end_stream` is the trait's, which never knows.
module _ {S : Type 0} (stream : TryStream S) where
  unfoldable pub poll_stream : S → Poll (Option (Result String Frame)) × S
  poll_stream s = let (item, s') = stream.try_poll_next s in (map_ok data_frame item, s')

  abbrev lower_of : ℕ → SizeHint → Run SizeHint
  lower_of lower hint = elim (to_u64 lower) [ some n ↦ set_lower n hint | none ↦ done hint ]

  abbrev upper_of : Option ℕ → SizeHint → Run SizeHint
  upper_of none hint = done hint
  upper_of (some upper) hint = elim (to_u64 upper) [ some n ↦ set_upper n hint | none ↦ done hint ]

  unfoldable pub size_hint_stream : S → Run SizeHint
  size_hint_stream s =
      let (lower, upper) = stream.size_hint s in
      lower_of lower (record { lower = 0; upper = none }) >>= upper_of upper

  unfoldable pub stream_as_body : HttpBody S
  unfolding poll_stream size_hint_stream
  stream_as_body = record {
    poll_frame = poll_stream;
    is_end_stream = λ s. false;
    size_hint = size_hint_stream;
  }
