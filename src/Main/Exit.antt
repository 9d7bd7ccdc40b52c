-- ===== src/Main/Exit.antt =====
-- src/main.rs, `main`: why the server ends.
use server.Main.Shutdown.{
  AnyError, context, Event, installs, ctrl_c, sigterm, looks, app_ends, metrics_ends, Watcher,
  starting, watching, ctrl_c_only, over, Signals, at_start, sent, moved, watch, select, run_main,
}
use server.Prelude.{
  ◌≡◌, ◌⊎◌, refl, sym, ap, ◌∙◌, subst, inl, inr, String, none, some, Option-cases, List, [], ◌∷◌,
  ◌++◌, Result, ok, err, All,
}
use server.Tasks.Invariant.{In}

-- What may be in the channel, by what has happened.
abbrev IsSent : List Event → Result AnyError (Unit {0}) → Type 0
IsSent events message =
    ((error : String) × In (installs (err error)) events
      × (message ≡ context "failed to install SIGTERM handler" (err error)))
    ⊎ ((result : Result String (Unit {0})) × In (ctrl_c result) events
        × In (installs (ok tt)) events
        × (message ≡ context "Ctrl-C handler failed" result))
    ⊎ (In (sigterm (some tt)) events × In (installs (ok tt)) events × (message ≡ ok tt))

-- Why `main` ends with a result.
abbrev pub IsReason : List Event → Result AnyError (Unit {0}) → Type 0
IsReason events result =
    In (app_ends result) events ⊎ In (metrics_ends result) events ⊎ IsSent events result

-- The handler of SIGTERM is installed, and nothing is sent yet.
abbrev IsInstalled : Watcher → Type 0
IsInstalled starting = ⊥
IsInstalled watching = Unit
IsInstalled ctrl_c_only = Unit
IsInstalled over = ⊥

-- What holds of the signals after some events, the latest first.
record Told (past : List Event) (signals : Signals) : Type 0 where
  installed : IsInstalled signals.watcher → In (installs (ok tt)) past
  sent_so :
      (message : Result AnyError (Unit {0})) → signals.channel ≡ some message → IsSent past message

IsSent-later :
    (event : Event) (past : List Event) (message : Result AnyError (Unit {0}))
    → IsSent past message
    → IsSent (event ∷ past) message
IsSent-later event past message (inl (error, m, is)) = inl (error, inr m, is)
IsSent-later event past message (inr (inl (result, m, n, is))) =
    inr (inl (result, inr m, inr n, is))
IsSent-later event past message (inr (inr (m, n, is))) = inr (inr (inr m, inr n, is))

Told-same :
    (event : Event) (past : List Event) (signals : Signals)
    → Told past signals
    → Told (event ∷ past) signals
Told-same event past signals h = record {
  installed = λ p. inr (h.installed p);
  sent_so = λ message p. IsSent-later event past message (h.sent_so message p);
}

installed_at :
    (past : List Event) (signals : Signals) (w : Watcher)
    → signals.watcher ≡ w
    → IsInstalled w
    → Told past signals
    → In (installs (ok tt)) past
installed_at past signals w is held h = h.installed (subst IsInstalled (sym is) held)

moved-Told :
    (w : Watcher) (event : Event) (past : List Event) (signals : Signals)
    → signals.watcher ≡ w
    → Told past signals
    → Told (event ∷ past) (moved w signals event)
moved-Told starting (installs (ok _)) past signals is h = record {
  installed = λ p. inl refl;
  sent_so = λ message p. IsSent-later _ past message (h.sent_so message p);
}
moved-Told starting (installs (err error)) past signals is h = record {
  installed = λ p. absurd p;
  sent_so = λ message p. inl (error, inl refl, cc p);
}
moved-Told watching (ctrl_c result) past signals is h = record {
  installed = λ p. absurd p;
  sent_so = λ message p.
      inr (inl (result, inl refl, inr (installed_at past signals watching is tt h), cc p));
}
moved-Told watching (sigterm (some _)) past signals is h = record {
  installed = λ p. absurd p;
  sent_so =
      λ message p. inr (inr (inl refl, inr (installed_at past signals watching is tt h), cc p));
}
moved-Told watching (sigterm none) past signals is h = record {
  installed = λ p. inr (installed_at past signals watching is tt h);
  sent_so = λ message p. IsSent-later _ past message (h.sent_so message p);
}
moved-Told ctrl_c_only (ctrl_c result) past signals is h = record {
  installed = λ p. absurd p;
  sent_so = λ message p.
      inr (inl (result, inl refl, inr (installed_at past signals ctrl_c_only is tt h), cc p));
}
moved-Told ctrl_c_only (installs r) past signals is h = Told-same _ past signals h
moved-Told ctrl_c_only (sigterm o) past signals is h = Told-same _ past signals h
moved-Told ctrl_c_only looks past signals is h = Told-same _ past signals h
moved-Told ctrl_c_only (app_ends r) past signals is h = Told-same _ past signals h
moved-Told ctrl_c_only (metrics_ends r) past signals is h = Told-same _ past signals h
moved-Told starting (ctrl_c result) past signals is h = Told-same _ past signals h
moved-Told starting (sigterm o) past signals is h = Told-same _ past signals h
moved-Told starting looks past signals is h = Told-same _ past signals h
moved-Told starting (app_ends r) past signals is h = Told-same _ past signals h
moved-Told starting (metrics_ends r) past signals is h = Told-same _ past signals h
moved-Told watching (installs r) past signals is h = Told-same _ past signals h
moved-Told watching looks past signals is h = Told-same _ past signals h
moved-Told watching (app_ends r) past signals is h = Told-same _ past signals h
moved-Told watching (metrics_ends r) past signals is h = Told-same _ past signals h
moved-Told over event past signals is h = Told-same event past signals h

watch-Told :
    (event : Event) (past : List Event) (signals : Signals)
    → Told past signals
    → Told (event ∷ past) (watch signals event)
unfolding watch
watch-Told event past signals h = moved-Told signals.watcher event past signals refl h

Among : List Event → List Event → Type 0
Among xs ys = (event : Event) → In event xs → In event ys

IsSent-Among :
    (xs ys : List Event) (message : Result AnyError (Unit {0}))
    → Among xs ys
    → IsSent xs message
    → IsSent ys message
unfolding Among
IsSent-Among xs ys message sub (inl (error, m, is)) = inl (error, sub _ m, is)
IsSent-Among xs ys message sub (inr (inl (result, m, n, is))) =
    inr (inl (result, sub _ m, sub _ n, is))
IsSent-Among xs ys message sub (inr (inr (m, n, is))) = inr (inr (sub _ m, sub _ n, is))

select-IsReason :
    (event : Event) (all past : List Event) (signals : Signals)
    (result : Result AnyError (Unit {0}))
    → Told past signals
    → Among past all
    → In event all
    → select signals event ≡ some result
    → IsReason all result
unfolding select
select-IsReason (app_ends r) all past signals result h sub m is =
    let same : r ≡ result = cc is in inl (subst (λ x. In (app_ends x) all) same m)
select-IsReason (metrics_ends r) all past signals result h sub m is =
    let same : r ≡ result = cc is in inr (inl (subst (λ x. In (metrics_ends x) all) same m))
select-IsReason looks all past signals result h sub m is =
    inr (inr (IsSent-Among past all result sub (h.sent_so result is)))
select-IsReason (installs _) all past signals result h sub m is = absurd (cc is)
select-IsReason (ctrl_c _) all past signals result h sub m is = absurd (cc is)
select-IsReason (sigterm _) all past signals result h sub m is = absurd (cc is)

run_main-ends :
    (event : Event) (events : List Event) (signals : Signals) (result : Result AnyError (Unit {0}))
    → select signals event ≡ some result
    → run_main signals (event ∷ events) ≡ some result
unfolding run_main
run_main-ends event events signals result ends = rw (ends, run_main) refl

run_main-on :
    (event : Event) (events : List Event) (signals : Signals)
    → select signals event ≡ none
    → run_main signals (event ∷ events) ≡ run_main (watch signals event) events
unfolding run_main
run_main-on event events signals on = rw (on, run_main) refl

run_from-IsReason :
    (events all past : List Event) (signals : Signals) (result : Result AnyError (Unit {0}))
    → Told past signals
    → Among past all
    → Among events all
    → run_main signals events ≡ some result
    → IsReason all result
unfolding run_main Among
run_from-IsReason [] all past signals result h sub rest is = absurd (cc is)
run_from-IsReason (event ∷ events) all past signals result h sub rest is =
    elim (Option-cases (select signals event)) [
      | inr (r, ends) ↦
          let same : r ≡ result = cc (run_main-ends event events signals r ends, is) in
          select-IsReason event all past signals result h sub (rest event (inl refl))
            (ends ∙ ap some same)
      | inl on ↦
          run_from-IsReason events all (event ∷ past) (watch signals event) result
            (watch-Told event past signals h)
            (λ e m. elim m [ inl same ↦ rest e (inl same) | inr old ↦ sub e old ])
            (λ e m. rest e (inr m)) (sym (run_main-on event events signals on) ∙ is)
    ]

-- Whatever happens, and in whatever order, the server ends with a result only if one of its two
-- servers ended with it, the handler of SIGTERM could not be installed and the result is that
-- error with its context, or, once the handler was installed, Ctrl-C was pressed or its handler
-- failed and the result is that, or SIGTERM came and the result is a success.
pub run_main-IsReason :
    (events : List Event) (result : Result AnyError (Unit {0}))
    → run_main at_start events ≡ some result
    → IsReason events result
unfolding Among
run_main-IsReason events result is =
    run_from-IsReason events events [] at_start result
      (record { installed = λ p. absurd p; sent_so = λ message p. absurd (cc p) }) (λ e m. absurd m)
      (λ e m. m) is

-- Neither a server ends, nor `shutdown_signal` sends.
abbrev pub IsCalm : Event → Type 0
IsCalm (app_ends _) = ⊥
IsCalm (metrics_ends _) = ⊥
IsCalm (ctrl_c _) = ⊥
IsCalm (sigterm (some _)) = ⊥
IsCalm _ = Unit

abbrev pub IsOn : Event → Type 0
IsOn (app_ends _) = ⊥
IsOn (metrics_ends _) = ⊥
IsOn _ = Unit

-- The stream of SIGTERM does not end.
abbrev pub IsOpen : Event → Type 0
IsOpen (sigterm none) = ⊥
IsOpen _ = Unit

-- What a signal sends after those events: SIGTERM only if its stream has not ended.
abbrev pub Sends : List Event → Event → Result AnyError (Unit {0}) → Type 0
Sends before (ctrl_c result) message = message ≡ context "Ctrl-C handler failed" result
Sends before (sigterm (some _)) message = All IsOpen before × (message ≡ ok tt)
Sends before _ message = ⊥

abbrev waits : Watcher → Signals
waits watcher = record { watcher = watcher; channel = none }

only-All :
    (xs events : List Event)
    → All IsCalm xs
    → run_main (waits ctrl_c_only) (xs ++ events) ≡ run_main (waits ctrl_c_only) events
unfolding run_main watch select
only-All [] events calm = refl
only-All (installs _ ∷ xs) events calm = only-All xs events calm.1
only-All (sigterm none ∷ xs) events calm = only-All xs events calm.1
only-All (looks ∷ xs) events calm = only-All xs events calm.1
only-All (ctrl_c _ ∷ xs) events calm = absurd calm.0
only-All (sigterm (some _) ∷ xs) events calm = absurd calm.0
only-All (app_ends _ ∷ xs) events calm = absurd calm.0
only-All (metrics_ends _ ∷ xs) events calm = absurd calm.0

open-All :
    (xs events : List Event)
    → All IsCalm xs
    → All IsOpen xs
    → run_main (waits watching) (xs ++ events) ≡ run_main (waits watching) events
unfolding run_main watch select
open-All [] events calm open_so = refl
open-All (installs _ ∷ xs) events calm open_so = open-All xs events calm.1 open_so.1
open-All (looks ∷ xs) events calm open_so = open-All xs events calm.1 open_so.1
open-All (sigterm none ∷ xs) events calm open_so = absurd open_so.0
open-All (ctrl_c _ ∷ xs) events calm open_so = absurd calm.0
open-All (sigterm (some _) ∷ xs) events calm open_so = absurd calm.0
open-All (app_ends _ ∷ xs) events calm open_so = absurd calm.0
open-All (metrics_ends _ ∷ xs) events calm open_so = absurd calm.0

ctrl_c-sent :
    (xs events : List Event) (result : Result String (Unit {0}))
    → All IsCalm xs
    → run_main (waits watching) (xs ++ ctrl_c result ∷ events)
      ≡ run_main (sent (context "Ctrl-C handler failed" result)) events
unfolding run_main watch select
ctrl_c-sent [] events result calm = refl
ctrl_c-sent (installs _ ∷ xs) events result calm = ctrl_c-sent xs events result calm.1
ctrl_c-sent (looks ∷ xs) events result calm = ctrl_c-sent xs events result calm.1
ctrl_c-sent (sigterm none ∷ xs) events result calm = only-All xs (ctrl_c result ∷ events) calm.1
ctrl_c-sent (ctrl_c _ ∷ xs) events result calm = absurd calm.0
ctrl_c-sent (sigterm (some _) ∷ xs) events result calm = absurd calm.0
ctrl_c-sent (app_ends _ ∷ xs) events result calm = absurd calm.0
ctrl_c-sent (metrics_ends _ ∷ xs) events result calm = absurd calm.0

Sends-sent :
    (xs events : List Event) (signal : Event) (message : Result AnyError (Unit {0}))
    → All IsCalm xs
    → Sends xs signal message
    → run_main (waits watching) (xs ++ signal ∷ events) ≡ run_main (sent message) events
unfolding run_main watch select
Sends-sent xs events (ctrl_c result) message calm is =
    ctrl_c-sent xs events result calm ∙ ap (λ r. run_main (sent r) events) (sym is)
Sends-sent xs events (sigterm (some u)) message calm (open_so, is) =
    open-All xs (sigterm (some u) ∷ events) calm open_so
    ∙ ap (λ r. run_main (sent r) events) (sym is)
Sends-sent xs events (sigterm none) message calm is = absurd is
Sends-sent xs events (installs _) message calm is = absurd is
Sends-sent xs events looks message calm is = absurd is
Sends-sent xs events (app_ends _) message calm is = absurd is
Sends-sent xs events (metrics_ends _) message calm is = absurd is

sent-on :
    (ys zs : List Event) (message : Result AnyError (Unit {0}))
    → All IsOn ys
    → run_main (sent message) (ys ++ looks ∷ zs) ≡ some message
unfolding run_main watch select
sent-on [] zs message on = refl
sent-on (installs _ ∷ ys) zs message on = sent-on ys zs message on.1
sent-on (ctrl_c _ ∷ ys) zs message on = sent-on ys zs message on.1
sent-on (sigterm _ ∷ ys) zs message on = sent-on ys zs message on.1
sent-on (looks ∷ ys) zs message on = refl
sent-on (app_ends _ ∷ ys) zs message on = absurd on.0
sent-on (metrics_ends _ ∷ ys) zs message on = absurd on.0

-- Once the handler of SIGTERM is installed, the first Ctrl-C or SIGTERM ends the server when `main`
-- next looks at the channel, if no server has ended by then and, for SIGTERM, its stream has not
-- ended before: SIGTERM and Ctrl-C with a success, an error of the handler of Ctrl-C with that
-- error and its context.
pub run_main-shutdown :
    (xs ys zs : List Event) (signal : Event) (message : Result AnyError (Unit {0}))
    → All IsCalm xs
    → Sends xs signal message
    → All IsOn ys
    → run_main at_start (installs (ok tt) ∷ (xs ++ signal ∷ (ys ++ looks ∷ zs))) ≡ some message
unfolding run_main watch select
run_main-shutdown xs ys zs signal message calm sends on =
    Sends-sent xs (ys ++ looks ∷ zs) signal message calm sends ∙ sent-on ys zs message on
