-- ===== src/Main/Shutdown.antt =====
-- src/main.rs, `main` once the servers are made, and `shutdown_signal`.
use server.Prelude.{String, Option, none, some, List, [], ◌∷◌, Result, ok, err}

-- `anyhow::Error`: its contexts, the outermost first, and the cause.
abbrev pub AnyError : Type 0
AnyError = List String

-- `Context::context`.
abbrev pub context : String → Result String (Unit {0}) → Result AnyError (Unit {0})
context text (ok _) = ok tt
context text (err error) = err (text ∷ error ∷ [])

-- What happens, in its order: the spawned task installs the handler of SIGTERM, Ctrl-C is pressed
-- or its handler fails, SIGTERM comes or its stream ends, `main` looks at the channel, and one of
-- the two servers ends.
pub data Event : Type 0 where
  installs : Result String (Unit {0}) → Event
  ctrl_c : Result String (Unit {0}) → Event
  sigterm : Option (Unit {0}) → Event
  looks : Event
  app_ends : Result AnyError (Unit {0}) → Event
  metrics_ends : Result AnyError (Unit {0}) → Event

-- Where the spawned task stands. Once the stream of SIGTERM has ended, `select!` waits for Ctrl-C
-- only.
pub data Watcher : Type 0 where
  starting watching ctrl_c_only over : Watcher

-- The spawned task, and what is in the channel.
pub record Signals : Type 0 where
  pub watcher : Watcher
  pub channel : Option (Result AnyError (Unit {0}))

abbrev pub at_start : Signals
at_start = record { watcher = starting; channel = none }

abbrev pub sent : Result AnyError (Unit {0}) → Signals
sent message = record { watcher = over; channel = some message }

-- The task of `shutdown_signal`: it sends once.
abbrev pub moved : Watcher → Signals → Event → Signals
moved starting signals (installs (ok _)) = record signals { watcher = watching }
moved starting signals (installs (err error)) =
    sent (context "failed to install SIGTERM handler" (err error))
moved watching signals (ctrl_c result) = sent (context "Ctrl-C handler failed" result)
moved watching signals (sigterm (some _)) = sent (ok tt)
moved watching signals (sigterm none) = record signals { watcher = ctrl_c_only }
moved ctrl_c_only signals (ctrl_c result) = sent (context "Ctrl-C handler failed" result)
moved _ signals _ = signals

unfoldable pub watch : Signals → Event → Signals
watch signals event = moved signals.watcher signals event

-- Whether the `select!` of `main` ends, and with what.
unfoldable pub select : Signals → Event → Option (Result AnyError (Unit {0}))
select signals (app_ends result) = some result
select signals (metrics_ends result) = some result
select signals looks = signals.channel
select signals (installs _) = none
select signals (ctrl_c _) = none
select signals (sigterm _) = none

unfoldable pub run_main : Signals → List Event → Option (Result AnyError (Unit {0}))
unfolding watch select
run_main signals [] = none
run_main signals (event ∷ events) = elim (select signals event) [
  | some result ↦ some result
  | none ↦ run_main (watch signals event) events
]

-- `app_server_fut` and `app_metrics_server_fut`: `none` while the server goes on. The three
-- functions are those of `tokio::net::TcpListener` and `axum::serve`.
unfoldable pub serve_at :
    {L : Type 0}
    → (String → Result String L)
    → (L → Result String String)
    → (L → Option (Result String (Unit {0})))
    → String
    → Option (Result AnyError (Unit {0}))
serve_at bind local_addr serve address = elim (bind address) [
  | err error ↦ some (err (error ∷ []))
  | ok listener ↦ elim (local_addr listener) [
    | err error ↦ some (err (error ∷ []))
    | ok _ ↦ elim (serve listener) [
      | none ↦ none
      | some (err error) ↦ some (err (error ∷ []))
      | some (ok _) ↦ some (ok tt)
    ]
  ]
]
