-- ===== src/App/Hosts.antt =====
-- The host of a request without its port.
use Prim.Native.Char.{code}
use Prim.Native.String.{◌++◌}
use text.Mathlib.TextLemmas.{nil-append, cons-append}
use server.App.Defs.{hostname}
use server.Prelude.{String, ◌≡◌, refl, none, some, rsplit_once, ◌==◌, false}

-- The text has no colon.
abbrev pub HasNoColon : String → Type 0
HasNoColon String.[] = Unit
HasNoColon (String.◌∷◌ c s) = ((code c == b':') ≡ false) × HasNoColon s

rsplit_once-none : (s : String) → HasNoColon s → rsplit_once b':' s ≡ none
unfolding rsplit_once
rsplit_once-none String.[] h = refl
rsplit_once-none (String.◌∷◌ c s) h = rw (rsplit_once-none s h.1, rsplit_once) (rw h.0)

rsplit_once-port :
    (name port : String)
    → HasNoColon port
    → rsplit_once b':' (name ++ String.◌∷◌ ":" port) ≡ some (name, port)
unfolding rsplit_once
rsplit_once-port String.[] port h =
    rw (nil-append (String.◌∷◌ ":" port)) (rw (rsplit_once-none port h, rsplit_once))
rsplit_once-port (String.◌∷◌ c name) port h =
    rw (cons-append c name (String.◌∷◌ ":" port)) (rw (rsplit_once-port name port h, rsplit_once))

-- The port of a `Host` header is ignored: of a name, a colon and a port with no colon in it the
-- hostname is the name, whatever the name is; and a name with no colon stays as it is.
pub hostname-port :
    (name port : String)
    → HasNoColon port
    → (hostname (name ++ String.◌∷◌ ":" port) ≡ name) × (HasNoColon name → hostname name ≡ name)
unfolding hostname
hostname-port name port h = (
  rw (rsplit_once-port name port h, hostname),
  λ plain. rw (rsplit_once-none name plain, hostname),
)
