-- ===== src/Prelude/Keys.antt =====
-- Texts are equal or not.
use Prim.Native.String.{String}
use mathlib.Core.Bool.{false}
use mathlib.Core.Path.{◌≡◌}
use server.Prelude.Tests.{Bool-cases}
use mathlib.Core.Logic.{inl, inr}
use text.Mathlib.Text.{◌==◌}
use text.Mathlib.TextEquality.{eq_iff}

pub different : (s t : String) → (s == t) ≡ false → ¬ (s ≡ t)
different s t h e = cc (h, (eq_iff s t).1 e)

unfoldable pub String_discrete : Discrete String
unfolding Bool-cases
String_discrete s t = elim (Bool-cases (s == t)) [
  | inl same ↦ yes ((eq_iff s t).0 same)
  | inr other ↦ no (different s t other)
]
