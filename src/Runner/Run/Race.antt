-- ===== src/Runner/Run/Race.antt =====
-- The race in `run` of src/runner.rs between the server and the stop signals.
use mcp_core.Common.{
  ltb, ℕ, zero, suc, Option, none, some, List, [], ◌∷◌, ◌++◌, ◌≡◌, refl, sym, ◌∙◌, ap, arith,
  if◌then◌else◌,
}
use mcp_core.Config.{ServerConfig}
use mcp_core.Error.{Result, ok}
use mcp_core.Shutdown.{
  StopSignal, SignalLibrary, Happening, arrives, polls, ProcessEvent, subscribed, listening,
  flushed, StopSignals, install, Recv, recv, poll, receive, wait, or_else, flush_and_exit,
}
use mcp_core.Runner.Serve.{CommonServeArgs}
use mcp_core.Runner.Run.{
  Exit, Built, Future, now, later, never, matched, running, returned, ended, Process, Trace,
  on_stop, select, served, after_install, after_init, after_matches, run,
}

-- One poll later.
abbrev pub delayed : {A : Type 0} → Option (ℕ × A) → Option (ℕ × A)
delayed none = none
delayed (some (n, x)) = some (suc n, x)

-- Which of the first polls finds a future ready, and what it gives.
abbrev pub ready_at : {A : Type 0} → Future A → ℕ → Option (ℕ × A)
ready_at f zero = none
ready_at (now x) (suc k) = some (0, x)
ready_at (later f) (suc k) = delayed (ready_at f k)
ready_at never (suc k) = none

abbrev pub polls_in : List Happening → ℕ
polls_in [] = 0
polls_in (arrives g ∷ hs) = polls_in hs
polls_in (polls first ∷ hs) = suc (polls_in hs)

-- The earlier of the two ends the process or returns, and the server's own result goes first.
abbrev pub first_of : List ProcessEvent → Option (ℕ × Exit) → Option (ℕ × StopSignal) → Trace
first_of trace none none = (running, trace)
first_of trace (some (n, x)) none = (returned x, trace ++ flushed ∷ [])
first_of trace none (some (m, g)) = (ended, flush_and_exit g trace)
first_of trace (some (n, x)) (some (m, g)) =
    if ltb m n then (ended, flush_and_exit g trace) else (returned x, trace ++ flushed ∷ [])

ltb-suc : (m n : ℕ) → ltb (suc m) (suc n) ≡ ltb m n
ltb-suc m n = ground arith

first_of-delayed :
    (trace : List ProcessEvent) (a : Option (ℕ × Exit)) (b : Option (ℕ × StopSignal))
    → first_of trace (delayed a) (delayed b) ≡ first_of trace a b
first_of-delayed trace none none = refl
first_of-delayed trace (some (n, x)) none = refl
first_of-delayed trace none (some (m, g)) = refl
first_of-delayed trace (some (n, x)) (some (m, g)) = rw (ltb-suc m n) refl

first_of_ready :
    (trace : List ProcessEvent) (x : Exit) (b : Option (ℕ × StopSignal))
    → first_of trace (some (0, x)) b ≡ (returned x, trace ++ flushed ∷ [])
first_of_ready trace x none = refl
first_of_ready trace x (some (m, g)) = ground arith

first_of_stopped :
    (trace : List ProcessEvent) (a : Option (ℕ × Exit)) (g : StopSignal)
    → first_of trace (delayed a) (some (0, g)) ≡ (ended, flush_and_exit g trace)
first_of_stopped trace none g = refl
first_of_stopped trace (some (n, x)) g = ground arith

module _ (tokio : SignalLibrary) where
  abbrev pub stop_now :
      Option StopSignal × Recv tokio
      → (Recv tokio → Option (ℕ × StopSignal))
      → Option (ℕ × StopSignal)
  stop_now (some g, r) f = some (0, g)
  stop_now (none, r) f = delayed (f r)

  -- Which poll of `recv` alone would resolve it, and with which signal.
  abbrev pub stop_at : List Happening → Recv tokio → Option (ℕ × StopSignal)
  stop_at [] r = none
  stop_at (arrives g ∷ hs) r = stop_at hs (receive tokio g r)
  stop_at (polls first ∷ hs) r = stop_now (poll tokio first r) (stop_at hs)

  abbrev pub signal_of : Option (ℕ × StopSignal) → Option StopSignal
  signal_of none = none
  signal_of (some (n, g)) = some g

  signal_of-delayed : (o : Option (ℕ × StopSignal)) → signal_of (delayed o) ≡ signal_of o
  signal_of-delayed none = refl
  signal_of-delayed (some (n, g)) = refl

  stop_now-signal_of :
      (hs : List Happening) (x : Option StopSignal × Recv tokio)
      → signal_of (stop_at hs x.1) ≡ (wait tokio hs x.1).0
      → signal_of (stop_now x (stop_at hs)) ≡ (or_else tokio x (wait tokio hs)).0
  stop_now-signal_of hs (some g, r) h = refl
  stop_now-signal_of hs (none, r) h = signal_of-delayed (stop_at hs r) ∙ h

  pub stop_at-wait :
      (hs : List Happening) (r : Recv tokio) → signal_of (stop_at hs r) ≡ (wait tokio hs r).0
  unfolding wait
  stop_at-wait [] r = refl
  stop_at-wait (arrives g ∷ hs) r = stop_at-wait hs (receive tokio g r)
  stop_at-wait (polls first ∷ hs) r =
      stop_now-signal_of hs (poll tokio first r) (stop_at-wait hs (poll tokio first r).1)

module _ {L : Type 0} (p : Process L) where
  open p use {tokio}

  on_stop-first_of :
      (trace : List ProcessEvent) (hs : List Happening) (a : Option (ℕ × Exit)) (work : Future Exit)
      (x : Option StopSignal × Recv tokio)
      → select p trace hs work x.1 ≡ first_of trace a (stop_at tokio hs x.1)
      → on_stop p trace x (select p trace hs work)
        ≡ first_of trace (delayed a) (stop_now tokio x (stop_at tokio hs))
  on_stop-first_of trace hs a work (some g, r) h = sym (first_of_stopped trace a g)
  on_stop-first_of trace hs a work (none, r) h =
      h ∙ sym (first_of-delayed trace a (stop_at tokio hs r))

  ready_at_never : {A : Type 0} (k : ℕ) → delayed (ready_at {A = A} never k) ≡ none
  ready_at_never zero = refl
  ready_at_never (suc k) = refl

  pub select-first_of :
      (trace : List ProcessEvent) (hs : List Happening) (work : Future Exit) (r : Recv tokio)
      → select p trace hs work r ≡ first_of trace (ready_at work (polls_in hs)) (stop_at tokio hs r)
  unfolding select
  select-first_of trace [] work r = refl
  select-first_of trace (arrives g ∷ hs) work r = select-first_of trace hs work (receive tokio g r)
  select-first_of trace (polls first ∷ hs) (now x) r =
      sym (first_of_ready trace x (stop_at tokio (polls first ∷ hs) r))
  select-first_of trace (polls first ∷ hs) (later work) r =
      on_stop-first_of trace hs (ready_at work (polls_in hs)) work (poll tokio first r)
        (select-first_of trace hs work (poll tokio first r).1)
  select-first_of trace (polls first ∷ hs) never r =
      on_stop-first_of trace hs (ready_at never (polls_in hs)) never (poll tokio first r)
        (select-first_of trace hs never (poll tokio first r).1)
      ∙ ap (λ a. first_of trace a (stop_at tokio (polls first ∷ hs) r))
          (ready_at_never (polls_in hs))

  -- Once its arguments are read, its telemetry is started and the handlers are installed, `run` goes
  -- the way of whichever comes first: the poll that finds the server done, whose result it then
  -- returns, or the poll at which `recv`, driven alone, would resolve, upon which it ends the
  -- process. If one poll finds both, the server's own result is returned.
  pub run-first_of :
      (c : ServerConfig) (build : L → Future (Result Built)) (hs : List Happening)
      (common : CommonServeArgs) (local : L) (stop : StopSignals tokio)
      → p.get_matches c.name c.version ≡ matched common local
      → p.init c.name ≡ none
      → install tokio ≡ ok stop
      → run p c build hs
        ≡ first_of
            (subscribed ∷ listening ∷ [])
            (ready_at (served p c common (build local)) (polls_in hs))
            (stop_at tokio hs (recv tokio stop))
  unfolding run after_matches after_init after_install
  run-first_of c build hs common local stop m i s =
      rw (m, run)
        (rw (i, after_matches)
          (rw (s, after_init)
            (select-first_of (subscribed ∷ listening ∷ []) hs (served p c common (build local))
              (recv tokio stop))))
