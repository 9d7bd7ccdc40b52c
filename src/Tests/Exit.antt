-- ===== src/Tests/Exit.antt =====
-- src/main.rs: a server that is stopped.
use server.Main.{
  Event, installs, ctrl_c, sigterm, looks, app_ends, at_start, run_main, watch, select,
}
use server.Main.Exit.{IsReason, run_main-IsReason, run_main-shutdown}
use server.Prelude.{◌≡◌, refl, none, some, List, [], ◌∷◌, ok}

-- The stream of SIGTERM ends, then Ctrl-C is pressed, and pressed once more.
abbrev stopped : List Event
stopped =
    installs (ok tt)
    ∷ sigterm none
    ∷ looks
    ∷ ctrl_c (ok tt)
    ∷ ctrl_c (ok tt)
    ∷ looks
    ∷ app_ends (ok tt)
    ∷ []

stops : run_main at_start stopped ≡ some (ok tt)
unfolding run_main watch select
stops = refl

run_main-shutdown_example : run_main at_start stopped ≡ some (ok tt)
run_main-shutdown_example =
    run_main-shutdown (sigterm none ∷ looks ∷ []) (ctrl_c (ok tt) ∷ []) (app_ends (ok tt) ∷ [])
      (ctrl_c (ok tt)) (ok tt) (tt, (tt, tt)) refl (tt, tt)

run_main-IsReason_example : IsReason stopped (ok tt)
run_main-IsReason_example = run_main-IsReason stopped (ok tt) stops
