-- ===== src/Shutdown/Arrivals.antt =====
-- With which signals the future of `StopSignals::recv` in src/shutdown.rs resolves, on streams that
-- may close.
use mathlib.Core.Path.{subst}
use mcp_core.Common.{
  Bool, Bool-cases, inl, inr, true, false, ◌||◌, Option, none, some, List, [], ◌∷◌, ◌≡◌, refl, sym,
  arith,
}
use mcp_core.Error.{ok}
use mcp_core.Shutdown.{
  StopSignal, terminate, interrupt, Polled, arrived, closed, pending, Registered, registered,
  refused, SignalLibrary, try_register, Happening, arrives, polls, StopSignals, install, Recv,
  stream, enabled, recv, after_poll, poll_branch, other, or_poll, poll, receive, or_else, wait,
}
use mcp_core.Shutdown.Polls.{SignalLaws, same}

-- What a stream promises of arrivals, whether it closes or not: a poll gives one only if the signal
-- has arrived, no poll makes one up, and a new stream has none.
pub record ArrivalLaws (tokio : SignalLibrary) : Type 0 where
  pub raised : tokio.Signal → Bool
  pub poll_arrived : (x : tokio.Signal) → (tokio.poll_recv x).0 ≡ arrived → raised x ≡ true
  pub poll_raised : (x : tokio.Signal) → raised (tokio.poll_recv x).1 ≡ true → raised x ≡ true
  pub new_unraised :
      (g : StopSignal) (x : tokio.Signal) → tokio.signal g ≡ registered x → raised x ≡ false

-- The laws of the streams that stay open are stronger.
pub arrival_laws : {tokio : SignalLibrary} → SignalLaws tokio → ArrivalLaws tokio
arrival_laws laws = record {
  raised = laws.raised;
  poll_arrived = λ x h. ground (arith, laws.poll_says x);
  poll_raised = λ x h. ground (arith, laws.poll_takes x);
  new_unraised = λ g x h. (laws.signal_new g x h).0;
}

-- Whether the signal arrives.
abbrev pub came : StopSignal → List Happening → Bool
came g [] = false
came g (arrives g' ∷ hs) = same g' g || came g hs
came g (polls first ∷ hs) = came g hs

module _ (tokio : SignalLibrary) (laws : ArrivalLaws tokio) where
  open tokio use {Signal, poll_recv}
  open laws use {raised}

  abbrev raised_at : StopSignal → Recv tokio → Bool
  raised_at g r = raised (stream tokio g r.signals)

  -- What a poll may do, for one of the signals: it resolves with that only if it has arrived, and it
  -- makes no arrival up.
  abbrev Honest : Recv tokio → Option StopSignal × Recv tokio → StopSignal → Type 0
  Honest r x g =
      (x.0 ≡ some g → raised_at g r ≡ true) × (raised_at g x.1 ≡ true → raised_at g r ≡ true)

  after_poll-Honest :
      (g : StopSignal) (p : Polled) (x : Signal) (r : Recv tokio) (k : StopSignal)
      → (p ≡ arrived → raised_at g r ≡ true)
      → (raised x ≡ true → raised_at g r ≡ true)
      → Honest r (after_poll tokio g (p, x) r) k
  unfolding after_poll
  after_poll-Honest terminate arrived x r terminate h i = ground (arith, h refl)
  after_poll-Honest terminate arrived x r interrupt h i = ground arith
  after_poll-Honest terminate closed x r terminate h i = ground arith
  after_poll-Honest terminate closed x r interrupt h i = ground arith
  after_poll-Honest terminate pending x r terminate h i = ground arith
  after_poll-Honest terminate pending x r interrupt h i = ground arith
  after_poll-Honest interrupt arrived x r terminate h i = ground arith
  after_poll-Honest interrupt arrived x r interrupt h i = ground (arith, h refl)
  after_poll-Honest interrupt closed x r terminate h i = ground arith
  after_poll-Honest interrupt closed x r interrupt h i = ground arith
  after_poll-Honest interrupt pending x r terminate h i = ground arith
  after_poll-Honest interrupt pending x r interrupt h i = ground arith

  poll_branch-Honest :
      (g : StopSignal) (r : Recv tokio) (k : StopSignal) → Honest r (poll_branch tokio g r) k
  unfolding poll_branch
  poll_branch-Honest g r k = elim (Bool-cases (enabled tokio g r)) [
    | inr e ↦ rw (e, poll_branch) (λ h. ground arith, λ h. h)
    | inl e ↦
        let x = stream tokio g r.signals in
        rw (e, poll_branch)
          (after_poll-Honest g (poll_recv x).0 (poll_recv x).1 r k (laws.poll_arrived x)
            (laws.poll_raised x))
  ]

  or_poll-Honest :
      (g : StopSignal) (r : Recv tokio) (x : Option StopSignal × Recv tokio) (k : StopSignal)
      → Honest r x k
      → Honest r (or_poll tokio g x) k
  or_poll-Honest g r (some s, r') k h = h
  or_poll-Honest g r (none, r') k (a, b) =
      let (a', b') = poll_branch-Honest g r' k in (λ e. b (a' e), λ e. b (b' e))

  poll-Honest :
      (first : StopSignal) (r : Recv tokio) (g : StopSignal) → Honest r (poll tokio first r) g
  unfolding poll
  poll-Honest first r g = or_poll-Honest (other tokio first) r _ g (poll_branch-Honest first r g)

  -- A signal leaves the stream of the other as it was.
  receive-raised :
      (g k : StopSignal) (r : Recv tokio)
      → raised_at k (receive tokio g r) ≡ true
      → (same g k || raised_at k r) ≡ true
  receive-raised terminate terminate r h = refl
  receive-raised interrupt interrupt r h = refl
  receive-raised terminate interrupt r h = h
  receive-raised interrupt terminate r h = h

  or_else-resolved :
      (x : Option StopSignal × Recv tokio) (hs : List Happening) (r : Recv tokio) (g : StopSignal)
      → Honest r x g
      → ((wait tokio hs x.1).0 ≡ some g → (raised_at g x.1 || came g hs) ≡ true)
      → (or_else tokio x (wait tokio hs)).0 ≡ some g
      → (raised_at g r || came g hs) ≡ true
  or_else-resolved (some s, r') hs r g (a, b) f e = ground (arith, a e)
  or_else-resolved (none, r') hs r g (a, b) f e = ground (arith, f e, b)

  wait-resolved :
      (hs : List Happening) (r : Recv tokio) (g : StopSignal)
      → (wait tokio hs r).0 ≡ some g
      → (raised_at g r || came g hs) ≡ true
  unfolding wait
  wait-resolved [] r g e = ground arith
  wait-resolved (arrives k ∷ hs) r g e =
      ground (arith, wait-resolved hs (receive tokio k r) g e, receive-raised k g r)
  wait-resolved (polls first ∷ hs) r g e =
      or_else-resolved (poll tokio first r) hs r g (poll-Honest first r g)
        (wait-resolved hs (poll tokio first r).1 g) e

  install-unraised :
      (s : StopSignals tokio) (g : StopSignal)
      → install tokio ≡ ok s
      → raised (stream tokio g s) ≡ false
  unfolding install
  install-unraised s g e =
      go (tokio.signal terminate) (tokio.signal interrupt) (laws.new_unraised terminate)
        (laws.new_unraised interrupt) e
    where
      both :
          (g : StopSignal) (x y : Signal)
          → raised x ≡ false
          → raised y ≡ false
          → raised (stream tokio g (record { terminate = x; interrupt = y })) ≡ false
      both terminate x y h k = h
      both interrupt x y h k = k

      go :
          (t i : Registered Signal)
          → ((x : Signal) → t ≡ registered x → raised x ≡ false)
          → ((x : Signal) → i ≡ registered x → raised x ≡ false)
          → try_register t (λ x. try_register i (λ y. ok (record { terminate = x; interrupt = y })))
            ≡ ok s
          → raised (stream tokio g s) ≡ false
      go (registered x) (registered y) h k e =
          let q : s ≡ record { terminate = x; interrupt = y } = cc in
          subst (λ s. raised (stream tokio g s) ≡ false) (sym q) (both g x y (h x refl) (k y refl))
      go (registered x) (refused w) h k e = ground arith
      go (refused w) i h k e = ground arith

  -- `recv` resolves only with a signal that has arrived since the streams were installed. The streams
  -- may close at any time, and a closed stream is never taken for a signal.
  pub recv-came :
      (s : StopSignals tokio) (hs : List Happening) (g : StopSignal)
      → install tokio ≡ ok s
      → (wait tokio hs (recv tokio s)).0 ≡ some g
      → came g hs ≡ true
  unfolding recv
  recv-came s hs g i e = ground (arith, wait-resolved hs (recv tokio s) g e, install-unraised s g i)
