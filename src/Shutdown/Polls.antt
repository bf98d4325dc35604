-- ===== src/Shutdown/Polls.antt =====
-- One poll of the future of `StopSignals::recv` in src/shutdown.rs, under what tokio documents of its
-- signal streams.
use mcp_core.Common.{
  Bool, Bool-cases, inl, inr, true, false, ◌&&◌, ◌||◌, Option, none, some, ◌≡◌, refl, ◌∙◌, sym, ap,
  arith, if◌then◌else◌,
}
use mcp_core.Shutdown.{
  StopSignal, terminate, interrupt, Polled, arrived, closed, pending, registered, SignalLibrary,
  Recv, stream, enabled, after_poll, poll_branch, other, or_poll, poll, receive,
}

-- What tokio documents of a signal stream: a poll takes a signal that has arrived and was not
-- taken yet, and else finds the stream closed or pending; a new stream is open, and stays so.
pub record SignalLaws (tokio : SignalLibrary) : Type 0 where
  pub raised : tokio.Signal → Bool
  pub open_still : tokio.Signal → Bool
  pub poll_says :
      (x : tokio.Signal)
      → (tokio.poll_recv x).0
        ≡ (if raised x then arrived else if open_still x then pending else closed)
  pub poll_takes : (x : tokio.Signal) → raised (tokio.poll_recv x).1 ≡ false
  pub poll_keeps : (x : tokio.Signal) → open_still (tokio.poll_recv x).1 ≡ open_still x
  pub deliver_raises : (x : tokio.Signal) → raised (tokio.deliver x) ≡ true
  pub deliver_keeps : (x : tokio.Signal) → open_still (tokio.deliver x) ≡ open_still x
  pub signal_new :
      (g : StopSignal) (x : tokio.Signal)
      → tokio.signal g ≡ registered x
      → (raised x ≡ false) × (open_still x ≡ true)

abbrev pub same : StopSignal → StopSignal → Bool
same terminate terminate = true
same interrupt interrupt = true
same _ _ = false

module _ (tokio : SignalLibrary) (laws : SignalLaws tokio) where
  open tokio use {Signal, poll_recv}
  open laws use {raised, open_still}

  abbrev pub raised_at : StopSignal → Recv tokio → Bool
  raised_at g r = raised (stream tokio g r.signals)

  abbrev pub open_at : StopSignal → Recv tokio → Bool
  open_at g r = open_still (stream tokio g r.signals)

  abbrev pub listens : StopSignal → Recv tokio → Bool
  listens g r = enabled tokio g r && open_at g r

  -- What a poll may do, for one of the signals: it resolves with that only if it has arrived, it
  -- makes no arrival up, and while it resolves with nothing it goes on listening.
  abbrev pub Fair : Recv tokio → Option StopSignal × Recv tokio → StopSignal → Type 0
  Fair r x g =
      (x.0 ≡ some g → raised_at g r ≡ true)
      × (raised_at g x.1 ≡ true → raised_at g r ≡ true)
      × (x.0 ≡ none → listens g r ≡ true → listens g x.1 ≡ true)

  after_poll-Fair :
      (g : StopSignal) (p : Polled) (x : Signal) (r : Recv tokio) (k : StopSignal)
      → p ≡ (if raised_at g r then arrived else if open_at g r then pending else closed)
      → raised x ≡ false
      → open_still x ≡ open_at g r
      → Fair r (after_poll tokio g (p, x) r) k
  unfolding after_poll
  after_poll-Fair terminate arrived x r terminate h i j = ground arith
  after_poll-Fair terminate arrived x r interrupt h i j = ground arith
  after_poll-Fair terminate closed x r terminate h i j = ground arith
  after_poll-Fair terminate closed x r interrupt h i j = ground arith
  after_poll-Fair terminate pending x r terminate h i j = ground arith
  after_poll-Fair terminate pending x r interrupt h i j = ground arith
  after_poll-Fair interrupt arrived x r terminate h i j = ground arith
  after_poll-Fair interrupt arrived x r interrupt h i j = ground arith
  after_poll-Fair interrupt closed x r terminate h i j = ground arith
  after_poll-Fair interrupt closed x r interrupt h i j = ground arith
  after_poll-Fair interrupt pending x r terminate h i j = ground arith
  after_poll-Fair interrupt pending x r interrupt h i j = ground arith

  -- For a branch that is polled: it does not resolve with nothing while its signal has arrived.
  abbrev Hears : Recv tokio → Option StopSignal × Recv tokio → StopSignal → Type 0
  Hears r x g = open_at g r ≡ true → x.0 ≡ none → raised_at g r ≡ false

  after_poll-Hears :
      (g : StopSignal) (p : Polled) (x : Signal) (r : Recv tokio)
      → p ≡ (if raised_at g r then arrived else if open_at g r then pending else closed)
      → Hears r (after_poll tokio g (p, x) r) g
  unfolding after_poll
  after_poll-Hears g arrived x r h = ground arith
  after_poll-Hears g closed x r h = ground arith
  after_poll-Hears g pending x r h = ground arith

  poll_branch-Fair :
      (g : StopSignal) (r : Recv tokio) (k : StopSignal) → Fair r (poll_branch tokio g r) k
  unfolding poll_branch
  poll_branch-Fair g r k = elim (Bool-cases (enabled tokio g r)) [
    | inr e ↦ rw (e, poll_branch) (λ h. ground arith, λ h. h, λ h l. l)
    | inl e ↦
        let x = stream tokio g r.signals in
        rw (e, poll_branch)
          (after_poll-Fair g (poll_recv x).0 (poll_recv x).1 r k (laws.poll_says x)
            (laws.poll_takes x) (laws.poll_keeps x))
  ]

  poll_branch-Hears :
      (g : StopSignal) (r : Recv tokio)
      → enabled tokio g r ≡ true
      → Hears r (poll_branch tokio g r) g
  unfolding poll_branch
  poll_branch-Hears g r e =
      let x = stream tokio g r.signals in
      rw (e, poll_branch) (after_poll-Hears g (poll_recv x).0 (poll_recv x).1 r (laws.poll_says x))

  or_poll-Fair :
      (g : StopSignal) (r : Recv tokio) (x : Option StopSignal × Recv tokio) (k : StopSignal)
      → Fair r x k
      → Fair r (or_poll tokio g x) k
  or_poll-Fair g r (some s, r') k h = h
  or_poll-Fair g r (none, r') k (a, b, c) =
      let (a', b', c') = poll_branch-Fair g r' k in
      (λ e. b (a' e), λ e. b (b' e), λ e l. c' e (c refl l))

  pub poll-Fair :
      (first : StopSignal) (r : Recv tokio) (g : StopSignal) → Fair r (poll tokio first r) g
  unfolding poll
  poll-Fair first r g = or_poll-Fair (other tokio first) r _ g (poll_branch-Fair first r g)

  -- A poll of one branch leaves the stream of the other.
  abbrev Unmoved : Recv tokio → Option StopSignal × Recv tokio → StopSignal → Type 0
  Unmoved r x k = raised_at k x.1 ≡ raised_at k r

  poll_branch-Unmoved :
      (g k : StopSignal) (r : Recv tokio) → same g k ≡ false → Unmoved r (poll_branch tokio g r) k
  unfolding poll_branch after_poll
  poll_branch-Unmoved g k r n = elim (Bool-cases (enabled tokio g r)) [
    | inr e ↦ rw (e, poll_branch) refl
    | inl e ↦
        rw (e, poll_branch)
          (go g k (poll_recv (stream tokio g r.signals)).0 (poll_recv (stream tokio g r.signals)).1
            n)
  ]
    where
      go :
          (g k : StopSignal) (p : Polled) (x : Signal)
          → same g k ≡ false
          → Unmoved r (after_poll tokio g (p, x) r) k
      go terminate interrupt arrived x n = refl
      go terminate interrupt closed x n = refl
      go terminate interrupt pending x n = refl
      go interrupt terminate arrived x n = refl
      go interrupt terminate closed x n = refl
      go interrupt terminate pending x n = refl
      go terminate terminate p x n = absurd (ground arith)
      go interrupt interrupt p x n = absurd (ground arith)

  -- If a poll resolves with nothing, then neither of its branches does.
  or_poll-none :
      (g : StopSignal) (x : Option StopSignal × Recv tokio)
      → (or_poll tokio g x).0 ≡ none
      → (x.0 ≡ none) × ((poll_branch tokio g x.1).0 ≡ none)
  or_poll-none g (some s, r) e = ground arith
  or_poll-none g (none, r) e = (refl, e)

  -- A poll that resolves with nothing has missed no signal that the future listens for.
  pub poll-Hears :
      (first g : StopSignal) (r : Recv tokio)
      → listens g r ≡ true
      → (poll tokio first r).0 ≡ none
      → raised_at g r ≡ false
  unfolding poll
  poll-Hears first g r l e =
      let x = poll_branch tokio first r in
      let (a, b) = or_poll-none (other tokio first) x e in
      go first g ((poll_branch-Fair first r g).2 a l) a b l
    where
      at_once :
          (k : StopSignal)
          → listens k r ≡ true
          → (poll_branch tokio k r).0 ≡ none
          → raised_at k r ≡ false
      at_once k m a = poll_branch-Hears k r (ground arith) (ground arith) a

      later :
          (f k : StopSignal)
          → same f k ≡ false
          → listens k (poll_branch tokio f r).1 ≡ true
          → (poll_branch tokio k (poll_branch tokio f r).1).0 ≡ none
          → raised_at k r ≡ false
      later f k n m b =
          sym (poll_branch-Unmoved f k r n)
          ∙ poll_branch-Hears k (poll_branch tokio f r).1 (ground arith) (ground arith) b

      go :
          (f k : StopSignal)
          → listens k (poll_branch tokio f r).1 ≡ true
          → (poll_branch tokio f r).0 ≡ none
          → (poll_branch tokio (other tokio f) (poll_branch tokio f r).1).0 ≡ none
          → listens k r ≡ true
          → raised_at k r ≡ false
      go terminate terminate m a b l = at_once terminate l a
      go interrupt interrupt m a b l = at_once interrupt l a
      go terminate interrupt m a b l = later terminate interrupt refl m b
      go interrupt terminate m a b l = later interrupt terminate refl m b

  pub receive-raised :
      (g k : StopSignal) (r : Recv tokio)
      → raised_at k (receive tokio g r) ≡ (same g k || raised_at k r)
  receive-raised terminate terminate r = laws.deliver_raises r.signals.terminate
  receive-raised interrupt interrupt r = laws.deliver_raises r.signals.interrupt
  receive-raised terminate interrupt r = refl
  receive-raised interrupt terminate r = refl

  pub receive-listens :
      (g k : StopSignal) (r : Recv tokio) → listens k (receive tokio g r) ≡ listens k r
  receive-listens terminate terminate r =
      ap (λ b. r.terminate_on && b) (laws.deliver_keeps r.signals.terminate)
  receive-listens interrupt interrupt r =
      ap (λ b. r.interrupt_on && b) (laws.deliver_keeps r.signals.interrupt)
  receive-listens terminate interrupt r = refl
  receive-listens interrupt terminate r = refl
