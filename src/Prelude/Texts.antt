-- ===== src/Prelude/Texts.antt =====
-- Texts: the parts of `str` that the program calls, over the characters of a native `String`.
use Prim.Native.Char.{code}
use Prim.Native.Nat.{ℕ}
use Prim.Native.String.{String}
use mathlib.Core.Option.{Option, none, some}
use server.Prelude.Tests.{◌==◌, if◌then◌else◌}

-- `s.trim_start_matches(c)`, the character by its code.
unfoldable pub trim_start_matches : ℕ → String → String
trim_start_matches c String.[] = String.[]
trim_start_matches c (String.◌∷◌ d s) =
    if code d == c then trim_start_matches c s else String.◌∷◌ d s

-- `s.rsplit_once(c)`: the texts before and after the last `c`.
unfoldable pub rsplit_once : ℕ → String → Option (String × String)
rsplit_once c String.[] = none
rsplit_once c (String.◌∷◌ d s) = elim (rsplit_once c s) [
  | some (before, after) ↦ some (String.◌∷◌ d before, after)
  | none ↦ if code d == c then some (String.[], s) else none
]
