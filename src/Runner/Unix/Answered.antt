-- ===== src/Runner/Unix/Answered.antt =====
-- What the client of one of the connections of `serve_unix` in src/runner.rs is given.
use mathlib.Core.Path.{subst}
use mcp_core.Common.{
  none, Option, some, ℕ, List, [], ◌∷◌, ◌++◌, ◌≡◌, refl, sym, ap, ◌∙◌, inl, append_assoc, Text,
}
use mcp_core.Json.{Value}
use mcp_core.Config.{unix}
use mcp_core.Service.{done}
use mcp_core.Telemetry.{Record}
use mcp_core.Server.Session
use mcp_core.Server.Session.{Session, World, Env, on_transport}
use mcp_core.Transport.Stream.{Stream}
use mcp_core.Transport.Stream.Lines.{flatten, IsFaultless}
use mcp_core.Transport.Framed.State
use mcp_core.Transport.Framed.State.{FramedTransport, Writer}
use mcp_core.Transport.Framed.Style.{Style, in_style, in_style-append, AllSuit, Awaits}
use mcp_core.Runner.Pump.{Driver, Connection, goes_on, round}
use mcp_core.Runner.Pump.Turn.{Turn, round-Turn, round_end}
use mcp_core.Runner.Websocket.Transcript.{answered}
use mcp_core.Runner.Unix.{live, Hub, Reach, connection}
use mcp_core.Runner.Unix.Isolation.{origin, heard_by, Alone, fresh, next, Reach-Alone}

abbrev reader_in : Stream → Option (Stream × Writer) → Stream
reader_in r none = r
reader_in r (some x) = x.0

abbrev writer_in : Writer → Option (Stream × Writer) → Writer
writer_in w none = w
writer_in w (some x) = x.1

module _ (d : Driver) where
  -- Messages and the answers to them, of a session that begins with the first, with the service in
  -- some state at each message.
  pub data Conversation : List Text → List Text → Session → Type 0 where
    begun : Conversation [] [] (on_transport Session.new unix)
    said :
        {ms answers xs : List Text} {s : Session} {env : Env (World d.core)}
        → Conversation ms answers s
        → (m : Text) (world : World d.core) (log : List Record)
        → answered d (d.from_str m) (record { session = s; world = world; log = log }) ≡ (xs, env)
        → Conversation (ms ++ m ∷ []) (answers ++ xs) env.session

  module _ (prints : (v : Value) → (s : Text) × (d.to_string v ≡ done s)) (sort : Style)
      (max : ℕ) where
    -- A connection that has answered some of its client's messages.
    record Amid (ms : List Text) (t : FramedTransport) (s : Session) : Type 0 where
      heard : List Text
      coming : List Text
      answers : List Text
      split : ms ≡ heard ++ coming
      awaits : Awaits sort t (in_style sort coming)
      suits : AllSuit sort t.max_len coming
      events : t.writer.events ≡ []
      written : t.writer.written ≡ in_style sort answers
      talk : Conversation heard answers s

    Amid-said :
        (ms : List Text) (m : Text) (rest : List Text) (t : FramedTransport) (s : Session)
        (x : World d.core) (l : List Record) (a : Amid ms t s)
        → a.coming ≡ m ∷ rest
        → let env : Env (World d.core) = record { session = s; world = x; log = l } in
          let (xs, env') = answered d (d.from_str m) env in
          (y : Turn d prints sort (connection d max t s x l) (in_style sort rest) xs env')
          → AllSuit sort t.max_len rest
          → Amid ms y.after.transport y.after.env.session
    Amid-said ms m rest t s x l a h y q =
        let env : Env (World d.core) = record { session = s; world = x; log = l } in
        let xs = (answered d (d.from_str m) env).0 in
        record {
          heard = a.heard ++ m ∷ [];
          coming = rest;
          answers = a.answers ++ xs;
          split = a.split ∙ ap (λ z. a.heard ++ z) h ∙ sym (append_assoc a.heard (m ∷ []) rest);
          awaits = y.awaits;
          suits = subst (λ n. AllSuit sort n rest) (sym y.limit) q;
          events = y.events;
          written =
              y.written
              ∙ ap (λ z. z ++ in_style sort xs) a.written
              ∙ sym (in_style-append sort a.answers xs);
          talk =
              subst (λ z. Conversation (a.heard ++ m ∷ []) (a.answers ++ xs) z.session)
                (sym y.session) (said a.talk m x l refl);
        }

    Amid-next :
        (ms : List Text) (t : FramedTransport) (s : Session) (x : World d.core) (l : List Record)
        (c : Connection d)
        → round d (connection d max t s x l) ≡ goes_on c
        → Amid ms t s
        → Amid ms c.transport c.env.session
    Amid-next ms t s x l c e a = go a.coming refl
      where
        go : (coming : List Text) → a.coming ≡ coming → Amid ms c.transport c.env.session
        go [] h =
            let k =
              round_end d prints sort (connection d max t s x l)
                (subst (λ y. Awaits sort t (in_style sort y)) h a.awaits) in
            absurd (let q = sym k ∙ e in cc)
        go (m ∷ rest) h =
            let (p, q) = subst (AllSuit sort t.max_len) h a.suits in
            let y =
              round-Turn d prints sort (connection d max t s x l) m (in_style sort rest)
                (subst (λ y. Awaits sort t (in_style sort y)) h a.awaits) a.events p in
            let same : y.after ≡ c = let q = sym y.went_on ∙ e in cc in
            subst (λ c. Amid ms c.transport c.env.session) same
              (Amid-said ms m rest t s x l a h y q)

    Alone-Amid :
        (ms : List Text) (r : Stream) (w : Writer) {vs : List Value} {t : FramedTransport}
        {s : Session}
        → w ≡ record { written = []; events = [] }
        → IsFaultless r
        → flatten r ≡ in_style sort ms
        → AllSuit sort max ms
        → Alone d max r w vs t s
        → Amid ms t s
    unfolding State.new
    Alone-Amid ms r w e f b l fresh = record {
      heard = [];
      coming = ms;
      answers = [];
      split = refl;
      awaits = record { framing = inl refl; desync = refl; faultless = f; bytes_left = b };
      suits = l;
      events = ap (λ x. x.events) e;
      written = ap (λ x. x.written) e;
      talk = begun;
    }
    Alone-Amid ms r w e f b l (next {ms = vs} {t} {s} {c} a x log h) =
        Amid-next ms t s x log c h (Alone-Amid ms r w e f b l a)

    -- However the connections of a server are interleaved: if the client of one sends messages of a
    -- style, over a stream that does not fail, then these are the messages that have been read, whose
    -- bytes are gone from the stream, and those that are still to come, whose bytes are what is left
    -- of it. What has been written to the client are the answers, in its own framing and in order, to
    -- all that have been read, each answered by the connection's own session with the service in some
    -- state; and these have brought the session to where it is.
    pub Reach-Conversation :
        {world : World d.core} {log : List Record} {h : Hub d max} (x : Reach d max world log h)
        (i : ℕ) (t : FramedTransport) (s : Session) (ms : List Text) (r : Stream) (w : Writer)
        → h.tasks i ≡ live t s
        → origin d max x i ≡ some (r, w)
        → w ≡ record { written = []; events = [] }
        → IsFaultless r
        → flatten r ≡ in_style sort ms
        → AllSuit sort max ms
        → (heard coming answers : List Text) × (ms ≡ heard ++ coming)
          × (flatten t.reader ≡ in_style sort coming)
          × (t.writer.written ≡ in_style sort answers)
          × Conversation heard answers s
    Reach-Conversation x i t s ms r w e o b f q l =
        let (r', w', o', a, _) = Reach-Alone d max x i t s e in
        let same_r : r' ≡ r = ap (reader_in r) (sym o' ∙ o) in
        let same_w : w' ≡ w = ap (writer_in w) (sym o' ∙ o) in
        let y = Alone-Amid ms r w b f q l (
          subst (λ r. Alone d max r w (heard_by d max x i) t s) same_r
            (subst (λ w. Alone d max r' w (heard_by d max x i) t s) same_w a)) in
        (y.heard, y.coming, y.answers, y.split, y.awaits.bytes_left, y.written, y.talk)
