-- ===== src/Runner/Run/Serves.antt =====
-- `run` of src/runner.rs over standard input: from the process to the answers.
use mcp_core.Common.{
  ℕ, zero, suc, ◌+◌, ◌<◌, none, some, List, [], ◌∷◌, ◌≡◌, refl, ap, ◌∙◌, arith, map, Text,
}
use mcp_core.Json.{Value}
use mcp_core.Config.{ServerConfig}
use mcp_core.Error.{Result, ok}
use mcp_core.Service.{done}
use mcp_core.Shutdown.{StopSignals, Happening, subscribed, listening, flushed, install, recv}
use mcp_core.Transport.Stream.Lines.{flatten, IsFaultless}
use mcp_core.Transport.Framed.Style.{Style, in_style, AllSuit}
use mcp_core.Runner.Pump.{Driver}
use mcp_core.Runner.Serve.{CommonServeArgs, on_stdio, serve}
use mcp_core.Runner.Stdio.{session_of, serve_stdio, serve_stdio-transcript}
use mcp_core.Runner.Websocket.{text}
use mcp_core.Runner.Websocket.Transcript.{transcript}
use mcp_core.Runner.Run.{
  Exit, aloud, Future, now, later, await, matched, returned, Built, Surroundings, Process,
  after_polls, driver, serving, go_in, served, run,
}
use mcp_core.Runner.Run.Race.{delayed, ready_at, polls_in, first_of, stop_at, run-first_of}

-- A service that takes so many polls to build.
abbrev pub built_after : ℕ → Built → Future (Result Built)
built_after zero b = now (ok b)
built_after (suc n) b = later (built_after n b)

-- The server of this process for a service.
abbrev pub server : Surroundings → ServerConfig → Built → Driver
server a c b = driver a (record { config = c; service = b.service })

-- The client of the process: what standard input brings are messages of a style, standard output
-- takes what it is given, and values can be printed.
pub record IsServed (a : Surroundings) (c : ServerConfig) (sort : Style) (ms : List Text)
    : Type 0 where
  pub prints : (v : Value) → (s : Text) × (a.to_string v ≡ done s)
  pub faultless : IsFaultless a.stdin
  pub messages : flatten a.stdin ≡ in_style sort ms
  pub suits : AllSuit sort c.max_content_length ms
  pub stdout : a.stdout ≡ record { written = []; events = [] }

ready_at-after_polls :
    (n m : ℕ) (x : Exit) → n < m → ready_at (after_polls n (some x)) m ≡ some (n, x)
ready_at-after_polls n zero x h = absurd (omega arith)
ready_at-after_polls zero (suc m) x h = refl
ready_at-after_polls (suc n) (suc m) x h = ap delayed (ready_at-after_polls n m x (omega arith))

ready_at-await :
    (k n m : ℕ) (b : Built) (f : Result Built → Future Exit) (x : Exit)
    → f (ok b) ≡ after_polls n (some x)
    → k + n < m
    → ready_at (await (built_after k b) f) m ≡ some (k + n, x)
ready_at-await k n zero b f x e h = absurd (omega arith)
ready_at-await zero n (suc m) b f x e h =
    let i : n ≡ zero + n = omega arith in
    ap (λ y. ready_at y (suc m)) e
    ∙ ready_at-after_polls n (suc m) x (omega arith)
    ∙ ap (λ y. some (y, x)) i
ready_at-await (suc k) n (suc m) b f x e h =
    let i : suc (k + n) ≡ suc k + n = omega arith in
    let q : delayed (ready_at (await (built_after k b) f) m) ≡ some (suc (k + n), x) =
      ap (delayed {A = Exit}) (ready_at-await k n m b f x e (omega arith)) in
    q ∙ ap (λ y. some (y, x)) i

-- What `serve_stdio` comes to for that client.
serve_stdio-served :
    (a : Surroundings) (c : ServerConfig) (b : Built) (sort : Style) (ms : List Text)
    → IsServed a c sort ms
    → let x = serve_stdio (server a c b) a.stdin a.stdout b.world [] in
      let (answers, env) =
        transcript (server a c b) (map text ms) (session_of (server a c b) b.world []) in
      (x.0 ≡ ok tt) × (x.1.transport.writer.written ≡ in_style sort answers) × (x.1.env ≡ env)
serve_stdio-served a c b sort ms s = rw s.stdout (
    serve_stdio-transcript (server a c b) sort a.stdin ms b.world [] s.prints s.faultless s.messages
      s.suits)

module _ {L : Type 0} (p : Process L) where
  open p use {tokio, around}

  -- A process whose arguments choose standard input, whose telemetry is started, whose handlers
  -- are installed and whose service is built after some polls, to which no stop signal comes, and
  -- which is polled often enough, returns success and has flushed its telemetry. By then it has
  -- written to standard output, for a client which sends messages that suit one of the framings, over
  -- streams that do not fail and to a server whose values can be printed, the answers of one session
  -- of the configured server to them all, in order and in the client's own framing.
  pub run-serves :
      (c : ServerConfig) (build : L → Future (Result Built)) (hs : List Happening)
      (common : CommonServeArgs) (local : L) (stop : StopSignals tokio) (k : ℕ) (b : Built)
      (sort : Style) (ms : List Text)
      → p.get_matches c.name c.version ≡ matched common local
      → p.init c.name ≡ none
      → install tokio ≡ ok stop
      → serve around.features c common ≡ on_stdio
      → build local ≡ built_after k b
      → stop_at tokio hs (recv tokio stop) ≡ none
      → k + around.polls_taken < polls_in hs
      → IsServed around c sort ms
      → let answers =
          (transcript
            (server around c b)
            (map text ms)
            (session_of (server around c b) b.world [])).0 in
        run p c build hs
        ≡ (returned (ok tt, in_style sort answers), subscribed ∷ listening ∷ flushed ∷ [])
  unfolding served go_in serving
  run-serves c build hs common local stop k b sort ms m i s d e n h client =
      let (x, y, _) = serve_stdio-served around c b sort ms client in
      let answers =
        (transcript (server around c b) (map text ms)
          (session_of (server around c b) b.world [])).0 in
      let exit : Exit = (ok tt, in_style sort answers) in
      let q : aloud (serve_stdio (server around c b) around.stdin around.stdout b.world []) ≡ exit =
        λ j. (x j, y j) in
      let r : ready_at (served p c common (build local)) (polls_in hs)
          ≡ some (k + around.polls_taken, exit) =
        ap (λ z. ready_at (served p c common z) (polls_in hs)) e
        ∙ ready_at-await k around.polls_taken (polls_in hs) b _ exit
            (ap (go_in around c b) d ∙ ap (λ z. after_polls around.polls_taken (some z)) q) h in
      run-first_of p c build hs common local stop m i s
      ∙ ap (λ z. first_of (subscribed ∷ listening ∷ []) z (stop_at tokio hs (recv tokio stop))) r
      ∙ ap (first_of (subscribed ∷ listening ∷ []) (some (k + around.polls_taken, exit))) n
