-- ===== src/Runner/Unix/Isolation.antt =====
-- The connections of `serve_unix` in src/runner.rs: what one of them does to the session of another.
use mathlib.Core.Path.{subst}
use mcp_core.Common.{
  Option, none, some, Bool, true, arith, ℕ, Bool-cases, false, is_empty, trim, List, [], ◌++◌, ◌≡◌,
  refl, sym, ap, ◌∙◌, inl, inr, ◌==◌, Text, if◌then◌else◌,
}
use mcp_core.Json.{Value}
use mcp_core.Error.{
  transport, invalid_message, connection_closed, TransportError, Error, Result, ok, err,
}
use mcp_core.Config.{unix}
use mcp_core.Telemetry.{Record}
use mcp_core.Server.Session
use mcp_core.Server.Session.{Session, World, Env, bad_version, route, dispatch, on_transport}
use mcp_core.Transport.Stream.{Stream}
use mcp_core.Transport.Framed.State
use mcp_core.Transport.Framed.State.{FramedTransport, Writer}
use mcp_core.Transport.Framed.Read.{read_message}
use mcp_core.Runner.Pump.{
  Parsed, parsed, unparsed, Driver, Connection, Round, goes_on, ends, after_write, on_value,
  on_read, round,
}
use mcp_core.Runner.Unix.{
  Task, vacant, live, over, Hub, update, spawned, connection, after_round, accepts, turn, drifts,
  Reach, start, later,
}
use mcp_core.Runner.Opening.{flag_after, flag_after-append, parsed_value, handle_message-moved}

module _ (d : Driver) where
  abbrev heard_in : Result Text → List Value
  heard_in (ok raw) = if is_empty (trim raw) then [] else parsed_value d (d.from_str raw)
  heard_in (err e) = []

  -- The message that a round on this transport handles, if it reads one.
  abbrev pub heard : FramedTransport → List Value
  heard t = heard_in (read_message d.utf8_error t).0

  abbrev env_of : Round d → Env (World d.core)
  env_of (goes_on c) = c.env
  env_of (ends r c) = c.env

  after_write-env :
      (x : Result (Unit {0}) × FramedTransport) (e : Env (World d.core))
      → env_of (after_write d x e) ≡ e
  unfolding after_write
  after_write-env (ok x, t) e = refl
  after_write-env (err x, t) e = refl

  on_value-flag :
      (p : Parsed) (t : FramedTransport) (e : Env (World d.core))
      → (env_of (on_value d p t e)).session.initialized
        ≡ flag_after d (parsed_value d p) e.session.initialized
  unfolding on_value
  on_value-flag (unparsed s) t e = ap (λ e. e.session.initialized) (after_write-env _ e)
  on_value-flag (parsed v) t e =
      ap (λ e. e.session.initialized) (after_write-env _ _) ∙ handle_message-moved d v e

  on_read-flag :
      (r : Result Text) (t : FramedTransport) (e : Env (World d.core))
      → (env_of (on_read d (r, t) e)).session.initialized
        ≡ flag_after d (heard_in r) e.session.initialized
  unfolding on_read
  on_read-flag (err (transport connection_closed)) t e = refl
  on_read-flag (err (transport (invalid_message s))) t e = refl
  on_read-flag (err (transport (TransportError.io s))) t e = refl
  on_read-flag (err (Error.io s)) t e = refl
  on_read-flag (err (Error.json s)) t e = refl
  on_read-flag (err (Error.config s)) t e = refl
  on_read-flag (err (Error.telemetry s)) t e = refl
  on_read-flag (ok raw) t e = elim (Bool-cases (is_empty (trim raw))) [
    | inl b ↦ rw b refl
    | inr b ↦ rw b (on_value-flag (d.from_str raw) t e)
  ]

  round-flag :
      (c : Connection d)
      → (env_of (round d c)).session.initialized
        ≡ flag_after d (heard c.transport) c.env.session.initialized
  unfolding round
  round-flag c = on_read-flag _ _ c.env

  module _ (max : ℕ) where
    -- A connection as it would go alone, with the messages that it has read: rounds of `pump`, each
    -- with the service in some state.
    pub data Alone (r : Stream) (w : Writer) : List Value → FramedTransport → Session → Type 0 where
      fresh : Alone r w [] (State.new r w max) (on_transport Session.new unix)
      next :
          {ms : List Value} {t : FramedTransport} {s : Session} {c : Connection d}
          → Alone r w ms t s
          → (x : World d.core) (l : List Record) → round d (connection d max t s x l) ≡ goes_on c
          → Alone r w (ms ++ heard t) c.transport c.env.session

    Alone-flag :
        {r : Stream} {w : Writer} {ms : List Value} {t : FramedTransport} {s : Session}
        → Alone r w ms t s
        → s.initialized ≡ flag_after d ms false
    unfolding on_transport Session.new
    Alone-flag fresh = refl
    Alone-flag (next {ms} {t} {s} {c} a x l e) =
        ap (λ r. (env_of r).session.initialized) (sym e)
        ∙ round-flag (connection d max t s x l)
        ∙ ap (flag_after d (heard t)) (Alone-flag a)
        ∙ sym (flag_after-append d ms (heard t) false)

    -- The streams of the connection that a task runs for: those that were accepted for it.
    abbrev pub origin :
        {world : World d.core} {log : List Record} {h : Hub d max}
        → Reach d max world log h
        → ℕ
        → Option (Stream × Writer)
    origin start j = none
    origin (later {h} x (accepts r w)) j = if h.next == j then some (r, w) else origin x j
    origin (later x (turn i e)) j = origin x j
    origin (later x (drifts y)) j = origin x j

    -- The messages that the rounds of a task have read.
    abbrev pub heard_by :
        {world : World d.core} {log : List Record} {h : Hub d max}
        → Reach d max world log h
        → ℕ
        → List Value
    heard_by start j = []
    heard_by (later {h} x (accepts r w)) j = if h.next == j then [] else heard_by x j
    heard_by (later x (turn i {t} e)) j = if i == j then heard_by x j ++ heard t else heard_by x j
    heard_by (later x (drifts y)) j = heard_by x j

    -- What a live task has come from: the streams that were accepted for it, and the messages that
    -- it has read.
    abbrev IsAlone : Option (Stream × Writer) → List Value → Task d max → Type 0
    IsAlone o ms vacant = Unit
    IsAlone o ms (live t s) = (r : Stream) × (w : Writer) × (o ≡ some (r, w)) × Alone r w ms t s
    IsAlone o ms (over x t s) = Unit

    update-IsAlone :
        (f : ℕ → Task d max) (i j : ℕ) (x : Task d max) (o o' : Option (Stream × Writer))
        (ms ms' : List Value)
        → ((i == j) ≡ true → IsAlone o ms x)
        → IsAlone o' ms' (f j)
        → IsAlone (if i == j then o else o') (if i == j then ms else ms') (update d max f i x j)
    update-IsAlone f i j x o o' ms ms' h k = elim (Bool-cases (i == j)) [
      | inl e ↦ rw e (h e)
      | inr e ↦ rw e k
    ]

    abbrev task_after : Round d → Task d max
    task_after (goes_on c) = live c.transport c.env.session
    task_after (ends r c) = over r c.transport c.env.session

    after_round-task :
        (t : FramedTransport) (s : Session) (x : World d.core) (l : List Record) (q : Round d)
        (o : Option (Stream × Writer)) (ms : List Value)
        → round d (connection d max t s x l) ≡ q
        → IsAlone o ms (live t s)
        → IsAlone o (ms ++ heard t) (task_after q)
    after_round-task t s x l (goes_on c) o ms e (r, w, p, a) = (r, w, p, next a x l e)
    after_round-task t s x l (ends y c) o ms e a = tt

    after_round-tasks :
        (i j : ℕ) (h : Hub d max) (q : Round d)
        → (after_round d max i q h).tasks j ≡ update d max h.tasks i (task_after q) j
    unfolding after_round
    after_round-tasks i j h (goes_on c) = refl
    after_round-tasks i j h (ends y c) = refl

    same_option : (b : Bool) (o : Option (Stream × Writer)) → (if b then o else o) ≡ o
    same_option true o = refl
    same_option false o = refl

    Reach-IsAlone :
        {world : World d.core} {log : List Record} {h : Hub d max} (x : Reach d max world log h)
        (j : ℕ)
        → IsAlone (origin x j) (heard_by x j) (h.tasks j)
    unfolding spawned
    Reach-IsAlone start j = tt
    Reach-IsAlone (later {h} x (accepts r w)) j =
        update-IsAlone h.tasks h.next j _ (some (r, w)) (origin x j) [] (heard_by x j)
          (λ e. (r, w, refl, fresh)) (Reach-IsAlone x j)
    Reach-IsAlone (later x (drifts y)) j = Reach-IsAlone x j
    Reach-IsAlone (later {h} x (turn i {t} {s} e)) j =
        let q = round d (connection d max t s h.world h.log) in
        rw (after_round-tasks i j h q) (
          subst
            (λ o.
              IsAlone o (if i == j then heard_by x j ++ heard t else heard_by x j)
                (update d max h.tasks i (task_after q) j))
            (same_option (i == j) (origin x j))
            (update-IsAlone h.tasks i j (task_after q) (origin x j) (origin x j)
              (heard_by x j ++ heard t) (heard_by x j)
              (λ k.
                let same : i ≡ j = ground arith in
                after_round-task t s h.world h.log q (origin x j) (heard_by x j) refl (
                  subst (IsAlone (origin x j) (heard_by x j))
                    (subst (λ j. h.tasks j ≡ live t s) same e) (Reach-IsAlone x j)))
              (Reach-IsAlone x j)))

    -- However the connections of a server are interleaved, each goes as it would alone, on the
    -- streams that were accepted for it and with the messages that its own rounds have read, with the
    -- service in some state at each; and whether its session is initialized is settled by these
    -- messages: no connection opens another's session.
    pub Reach-Alone :
        {world : World d.core} {log : List Record} {h : Hub d max} (x : Reach d max world log h)
        (i : ℕ) (t : FramedTransport) (s : Session)
        → h.tasks i ≡ live t s
        → (r : Stream) × (w : Writer) × (origin x i ≡ some (r, w))
          × Alone r w (heard_by x i) t s
          × (s.initialized ≡ flag_after d (heard_by x i) false)
    Reach-Alone x i t s e =
        let (r, w, o, a) = subst (IsAlone (origin x i) (heard_by x i)) e (Reach-IsAlone x i) in
        (r, w, o, a, Alone-flag a)
