-- ===== src/Shutdown.antt =====
-- src/shutdown.rs: the signals that stop a server. tokio's signal streams are a parameter; a
-- future is what its polls make of it.
pub mod Polls
pub mod Arrivals
pub mod Delivery
pub mod Tests
use mcp_core.Common.{
  ℕ, Bool, true, false, Option, none, some, List, [], ◌∷◌, ◌++◌, Text, codes, if◌then◌else◌,
}
use mcp_core.Error.{IoError, io, Result, ok, err}

pub data StopSignal : Type 0 where
  terminate interrupt : StopSignal

unfoldable pub as_str : StopSignal → Text
as_str terminate = codes "SIGTERM"
as_str interrupt = codes "SIGINT"

-- What a poll of `Signal::recv` gives: `Ready(Some(()))`, `Ready(None)` or `Pending`.
pub data Polled : Type 0 where
  arrived closed pending : Polled

-- `tokio::signal::unix::signal`
pub data Registered (S : Type 0) : Type 0 where
  registered : S → Registered S
  refused : IoError → Registered S

-- tokio's signal streams; `deliver` is what the arrival of its signal does to a registered one.
pub record SignalLibrary : Type 1 where
  pub Signal : Type 0
  pub signal : StopSignal → Registered Signal
  pub poll_recv : Signal → Polled × Signal
  pub deliver : Signal → Signal

abbrev pub try_register : {S B : Type 0} → Registered S → (S → Result B) → Result B
try_register (registered s) f = f s
try_register (refused e) f = err (io e)

-- What happens to a process that listens: a signal arrives, or the runtime polls the future, whose
-- `select!` begins with the branch of the signal named.
pub data Happening : Type 0 where
  arrives : StopSignal → Happening
  polls : StopSignal → Happening

-- What `run` and `flush_and_exit` do to the process, in order.
pub data ProcessEvent : Type 0 where
  -- `telemetry::init`, and the handlers of the stop signals
  subscribed listening : ProcessEvent
  -- `info!(%signal, "stopping")`
  stopping : Text → ProcessEvent
  -- the drop of the telemetry guard
  flushed : ProcessEvent
  exited : ℕ → ProcessEvent

module _ (tokio : SignalLibrary) where
  open tokio use {Signal, signal, poll_recv, deliver}

  pub record StopSignals : Type 0 where
    pub terminate : Signal
    pub interrupt : Signal

  unfoldable pub install : Result StopSignals
  install =
      try_register (signal terminate)
        λ t. try_register (signal interrupt) λ i. ok (record { terminate = t; interrupt = i })

  -- The future of `recv`: the streams, and which branches of its `select!` are not disabled.
  pub record Recv : Type 0 where
    pub signals : StopSignals
    pub terminate_on : Bool
    pub interrupt_on : Bool

  abbrev pub stream : StopSignal → StopSignals → Signal
  stream terminate s = s.terminate
  stream interrupt s = s.interrupt

  abbrev pub set_stream : StopSignal → Signal → StopSignals → StopSignals
  set_stream terminate x s = record s { terminate = x }
  set_stream interrupt x s = record s { interrupt = x }

  abbrev pub enabled : StopSignal → Recv → Bool
  enabled terminate r = r.terminate_on
  enabled interrupt r = r.interrupt_on

  abbrev pub keep : StopSignal → Signal → Recv → Recv
  keep g x r = record r { signals = set_stream g x r.signals }

  abbrev pub disable : StopSignal → Recv → Recv
  disable terminate r = record r { terminate_on = false }
  disable interrupt r = record r { interrupt_on = false }

  unfoldable pub recv : StopSignals → Recv
  recv s = record { signals = s; terminate_on = true; interrupt_on = true }

  -- A branch whose stream is not `Some(())` is disabled once the stream has said so.
  unfoldable pub after_poll : StopSignal → Polled × Signal → Recv → Option StopSignal × Recv
  after_poll g (arrived, x) r = (some g, keep g x r)
  after_poll g (closed, x) r = (none, disable g (keep g x r))
  after_poll g (pending, x) r = (none, keep g x r)

  unfoldable pub poll_branch : StopSignal → Recv → Option StopSignal × Recv
  unfolding after_poll
  poll_branch g r =
      if enabled g r then after_poll g (poll_recv (stream g r.signals)) r else (none, r)

  abbrev pub other : StopSignal → StopSignal
  other terminate = interrupt
  other interrupt = terminate

  abbrev pub or_poll : StopSignal → Option StopSignal × Recv → Option StopSignal × Recv
  or_poll g (some x, r) = (some x, r)
  or_poll g (none, r) = poll_branch g r

  -- A poll of `recv`, which begins with the branch of `first`. With both branches disabled it
  -- stays pending.
  unfoldable pub poll : StopSignal → Recv → Option StopSignal × Recv
  unfolding poll_branch
  poll first r = or_poll (other first) (poll_branch first r)

  abbrev pub receive : StopSignal → Recv → Recv
  receive g r = keep g (deliver (stream g r.signals)) r

  abbrev pub or_else : {A : Type 0} → Option A × Recv → (Recv → Option A × Recv) → Option A × Recv
  or_else (some x, r) f = (some x, r)
  or_else (none, r) f = f r

  -- The future, driven until it resolves.
  unfoldable pub wait : List Happening → Recv → Option StopSignal × Recv
  unfolding poll
  wait [] r = (none, r)
  wait (arrives g ∷ hs) r = wait hs (receive g r)
  wait (polls first ∷ hs) r = or_else (poll first r) (wait hs)

unfoldable pub flush_and_exit : StopSignal → List ProcessEvent → List ProcessEvent
unfolding as_str
flush_and_exit g trace = trace ++ stopping (as_str g) ∷ flushed ∷ exited 0 ∷ []
