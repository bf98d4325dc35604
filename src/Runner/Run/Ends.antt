-- ===== src/Runner/Run/Ends.antt =====
-- How `run` of src/runner.rs ends, and what the process has done by then.
use mcp_core.Common.{
  ltb, ℕ, Bool-cases, inl, inr, true, Option, none, some, is_some, List, [], ◌∷◌, ◌≡◌, ◌≢◌, ◌⊎◌,
  refl, sym, ◌∙◌, ap, arith, Text,
}
use mcp_core.Config.{ServerConfig}
use mcp_core.Error.{Result, ok, err}
use mcp_core.Shutdown.{
  StopSignal, Happening, ProcessEvent, subscribed, listening, stopping, as_str, flushed, exited,
  StopSignals, install, recv, flush_and_exit,
}
use mcp_core.Shutdown.Polls.{SignalLaws}
use mcp_core.Shutdown.Arrivals.{ArrivalLaws, came, recv-came}
use mcp_core.Shutdown.Delivery.{due, recv-due}
use mcp_core.Runner.Run.{
  Exit, Built, Future, Matches, exits, mismatch, matched, running, returned, ended, Process, Trace,
  after_install, after_init, after_matches, run,
}
use mcp_core.Runner.Run.Race.{first_of, signal_of, stop_at-wait, select-first_of}

-- What the process may have done by each outcome.
abbrev pub IsOrderly : List Happening → Trace → Type 0
IsOrderly hs (running, t) = t ≡ subscribed ∷ listening ∷ []
IsOrderly hs (returned x, t) =
    (t ≡ []) ⊎ (t ≡ subscribed ∷ flushed ∷ []) ⊎ (t ≡ subscribed ∷ listening ∷ flushed ∷ [])
IsOrderly hs (ended, t) =
    ((n : ℕ) × (t ≡ exited n ∷ []))
    ⊎ ((g : StopSignal) × (came g hs ≡ true)
        × (t ≡ subscribed ∷ listening ∷ stopping (as_str g) ∷ flushed ∷ exited 0 ∷ []))

module _ {L : Type 0} (p : Process L) (laws : ArrivalLaws p.tokio) where
  open p use {tokio}

  first_of-IsOrderly :
      (hs : List Happening) (a : Option (ℕ × Exit)) (b : Option (ℕ × StopSignal))
      → ((g : StopSignal) → signal_of tokio b ≡ some g → came g hs ≡ true)
      → IsOrderly hs (first_of (subscribed ∷ listening ∷ []) a b)
  unfolding flush_and_exit
  first_of-IsOrderly hs none none h = refl
  first_of-IsOrderly hs (some (n, x)) none h = inr (inr refl)
  first_of-IsOrderly hs none (some (m, g)) h = inr (g, h g refl, refl)
  first_of-IsOrderly hs (some (n, x)) (some (m, g)) h = elim (Bool-cases (ltb m n)) [
    | inl e ↦ rw e (inr (g, h g refl, refl))
    | inr e ↦ rw e (inr (inr refl))
  ]

  after_install-IsOrderly :
      (s : Result (StopSignals tokio)) (work : Future Exit) (hs : List Happening)
      → install tokio ≡ s
      → IsOrderly hs (after_install p s work hs)
  unfolding after_install
  after_install-IsOrderly (err e) work hs i = inr (inl refl)
  after_install-IsOrderly (ok stop) work hs i =
      rw (select-first_of p (subscribed ∷ listening ∷ []) hs work (recv tokio stop)) (
        first_of-IsOrderly hs _ _ λ g e.
          recv-came tokio laws stop hs g i (sym (stop_at-wait tokio hs (recv tokio stop)) ∙ e))

  after_init-IsOrderly :
      (o : Option Text) (work : Future Exit) (hs : List Happening)
      → IsOrderly hs (after_init p o work hs)
  unfolding after_init
  after_init-IsOrderly (some why) work hs = inl refl
  after_init-IsOrderly none work hs = after_install-IsOrderly (install tokio) work hs refl

  after_matches-IsOrderly :
      (c : ServerConfig) (build : L → Future (Result Built)) (m : Matches L) (hs : List Happening)
      → IsOrderly hs (after_matches p c build m hs)
  unfolding after_matches
  after_matches-IsOrderly c build (exits n) hs = inl (n, refl)
  after_matches-IsOrderly c build (mismatch e) hs = inl refl
  after_matches-IsOrderly c build (matched common local) hs = after_init-IsOrderly _ _ hs

  -- Whatever the arguments, the service and the schedule: telemetry that was started is flushed
  -- exactly once by the time `run` returns or ends the process, and not before; before the telemetry is
  -- started nothing is installed; and the process is ended by clap alone, or, with status 0, for a
  -- stop signal that has arrived.
  pub run-IsOrderly :
      (c : ServerConfig) (build : L → Future (Result Built)) (hs : List Happening)
      → IsOrderly hs (run p c build hs)
  unfolding run
  run-IsOrderly c build hs = after_matches-IsOrderly c build (p.get_matches c.name c.version) hs

module _ {L : Type 0} (p : Process L) (laws : SignalLaws p.tokio) where
  open p use {tokio}

  first_of_some :
      (t : List ProcessEvent) (a : Option (ℕ × Exit)) (b : Option (ℕ × StopSignal))
      → is_some (signal_of tokio b) ≡ true
      → (first_of t a b).0 ≢ running
  first_of_some t none none h = λ e. ground arith
  first_of_some t (some (n, x)) none h = λ e. ground arith
  first_of_some t none (some (m, g)) h = λ e. cc
  first_of_some t (some (n, x)) (some (m, g)) h = elim (Bool-cases (ltb m n)) [
    | inl e ↦ rw e (λ k. cc)
    | inr e ↦ rw e (λ k. cc)
  ]

  after_install-due :
      (s : Result (StopSignals tokio)) (work : Future Exit) (hs : List Happening) (g : StopSignal)
      → install tokio ≡ s
      → due g hs ≡ true
      → (after_install p s work hs).0 ≢ running
  unfolding after_install
  after_install-due (err e) work hs g i h = λ k. cc
  after_install-due (ok stop) work hs g i h =
      rw (select-first_of p (subscribed ∷ listening ∷ []) hs work (recv tokio stop)) (
        first_of_some (subscribed ∷ listening ∷ []) _ _ (
          ap is_some (stop_at-wait tokio hs (recv tokio stop)) ∙ recv-due tokio laws stop hs g i h))

  after_init-due :
      (o : Option Text) (work : Future Exit) (hs : List Happening) (g : StopSignal)
      → due g hs ≡ true
      → (after_init p o work hs).0 ≢ running
  unfolding after_init
  after_init-due (some why) work hs g h = λ k. cc
  after_init-due none work hs g h = after_install-due (install tokio) work hs g refl h

  after_matches-due :
      (c : ServerConfig) (build : L → Future (Result Built)) (m : Matches L) (hs : List Happening)
      (g : StopSignal)
      → due g hs ≡ true
      → (after_matches p c build m hs).0 ≢ running
  unfolding after_matches
  after_matches-due c build (exits n) hs g h = λ k. cc
  after_matches-due c build (mismatch e) hs g h = λ k. cc
  after_matches-due c build (matched common local) hs g h = after_init-due _ _ hs g h

  -- `run` does not outlast a stop signal: once one has arrived, even while the service is being
  -- built or the server never returns, `run` is over by the next poll.
  pub run-due :
      (c : ServerConfig) (build : L → Future (Result Built)) (hs : List Happening) (g : StopSignal)
      → due g hs ≡ true
      → (run p c build hs).0 ≢ running
  unfolding run
  run-due c build hs g h = after_matches-due c build (p.get_matches c.name c.version) hs g h
