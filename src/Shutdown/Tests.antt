-- ===== src/Shutdown/Tests.antt =====
-- src/shutdown.rs on signal streams that hold one flag.
use mcp_core.Common.{
  ap, sym, ◌∙◌, Option, none, some, Bool, true, false, is_some, [], ◌∷◌, ◌≡◌, refl, if◌then◌else◌,
}
use mcp_core.Shutdown.{
  StopSignal, Polled, closed, Registered, refused, terminate, interrupt, arrived, pending,
  registered, SignalLibrary, arrives, polls, StopSignals, install, recv, wait,
}
use mcp_core.Shutdown.Polls.{SignalLaws}
use mcp_core.Shutdown.Arrivals.{ArrivalLaws, came, recv-came}
use mcp_core.Shutdown.Delivery.{recv-due}

-- A stream is whether its signal has arrived; it is never closed.
abbrev pub flags : SignalLibrary
flags = record {
  Signal = Bool;
  signal = λ g. registered false;
  poll_recv = λ b. (if b then arrived else pending, false);
  deliver = λ b. true;
}

new_flag : (x : Bool) → registered false ≡ registered x → (x ≡ false) × (true ≡ true)
new_flag false e = (refl, refl)
new_flag true e = cc

pub flag_laws : SignalLaws flags
flag_laws = record {
  raised = λ b. b;
  open_still = λ b. true;
  poll_says = λ b. refl;
  poll_takes = λ b. refl;
  poll_keeps = λ b. refl;
  deliver_raises = λ b. refl;
  deliver_keeps = λ b. refl;
  signal_new = λ g x e. new_flag x e;
}

abbrev quiet : StopSignals flags
quiet = record { terminate = false; interrupt = false }

-- The stream of one signal is closed from the start.
abbrev open_for : StopSignal → Option Bool
open_for terminate = none
open_for interrupt = some false

abbrev polled : Option Bool → Polled × Option Bool
polled none = (closed, none)
polled (some true) = (arrived, some false)
polled (some false) = (pending, some false)

-- A stream that may be closed: `none` is a closed one.
abbrev closable : SignalLibrary
closable = record {
  Signal = Option Bool;
  signal = λ g. registered (open_for g);
  poll_recv = λ x. polled x;
  deliver = λ x. elim x [ none ↦ none | some b ↦ some true ];
}

abbrev flag_of : Option Bool → Bool
flag_of none = false
flag_of (some b) = b

polled_arrived : (x : Option Bool) → (polled x).0 ≡ arrived → flag_of x ≡ true
polled_arrived none h = cc
polled_arrived (some true) h = refl
polled_arrived (some false) h = cc

polled_raised : (x : Option Bool) → flag_of (polled x).1 ≡ true → flag_of x ≡ true
polled_raised none h = h
polled_raised (some true) h = refl
polled_raised (some false) h = h

open_unraised :
    (g : StopSignal) (x : Option Bool) → registered (open_for g) ≡ registered x → flag_of x ≡ false
open_unraised g x h = ap flag_in (sym h) ∙ unraised g
  where
    flag_in : Registered (Option Bool) → Bool
    flag_in (registered x) = flag_of x
    flag_in (refused e) = false

    unraised : (g : StopSignal) → flag_of (open_for g) ≡ false
    unraised terminate = refl
    unraised interrupt = refl

closable_laws : ArrivalLaws closable
closable_laws = record {
  raised = flag_of;
  poll_arrived = λ x. polled_arrived x;
  poll_raised = λ x. polled_raised x;
  new_unraised = λ g x h. open_unraised g x h;
}

-- The stream of the one signal has been closed, and the other has arrived.
abbrev half_closed : StopSignals closable
half_closed = record { terminate = none; interrupt = some false }

recv-came_example : came interrupt (arrives interrupt ∷ polls terminate ∷ []) ≡ true
unfolding install wait recv
recv-came_example =
    recv-came closable closable_laws half_closed (arrives interrupt ∷ polls terminate ∷ [])
      interrupt refl refl

recv-due_example :
    is_some (wait flags (arrives terminate ∷ polls interrupt ∷ []) (recv flags quiet)).0 ≡ true
unfolding install
recv-due_example =
    recv-due flags flag_laws quiet (arrives terminate ∷ polls interrupt ∷ []) terminate refl refl
