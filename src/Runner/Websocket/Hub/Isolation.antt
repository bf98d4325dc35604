-- ===== src/Runner/Websocket/Hub/Isolation.antt =====
-- The websockets of src/runner.rs: who has one, and what one of them does to the session of another.
use mathlib.Core.Path.{subst}
use mcp_core.Common.{
  if◌then◌else◌, Option-cases, ℕ, Bool, Bool-cases, true, false, Option, none, some, List, [], ◌∷◌,
  ◌++◌, ◌≡◌, refl, sym, ap, ◌∙◌, inl, inr, ◌==◌, Text, arith,
}
use mcp_core.Config.{WsAuth, WsClaimBindings, websocket}
use mcp_core.Error.{ok}
use mcp_core.Telemetry.{Record}
use mcp_core.Auth.{Libraries, Kind, from, check}
use mcp_core.Auth.Admission.{
  Header, IsAdmitted, IsSame, check-Grants, IsSame-ready, IsSame-trans, IsReady, from-IsReady,
}
use mcp_core.Auth.Configured.{Admits, from-Admits}
use mcp_core.Server.Session
use mcp_core.Server.Session.{Session, World, Env, on_transport}
use mcp_core.Runner.Pump.{Driver}
use mcp_core.Runner.Opening.{flag_after, flag_after-append}
use mcp_core.Runner.Upgrade.{Reply, unauthorized, upgrade, WsState, ws_handler}
use mcp_core.Runner.Upgrade.Guard.{IsLetIn, reply_to-IsLetIn}
use mcp_core.Runner.Websocket.{Incoming, Socket}
use mcp_core.Runner.Websocket.Hub.{
  on_incoming, Peer, live, greeted, socket_of, update, went_on, Hub, asks, hears, drifts, Reach,
  start, later,
}
use mcp_core.Runner.Websocket.Hub.Flag.{heard, heard_all, on_incoming-flag}

module _ (d : Driver) where
  -- A websocket as it would go alone, with what has arrived at it: steps of `ws_connection`, each
  -- with the service in some state.
  pub data Alone (bs : List Bool) : List Incoming → List Text → List Bool → Session → Type 0 where
    fresh : Alone bs [] [] bs (on_transport Session.new websocket)
    next :
        {ms : List Incoming} {sent : List Text} {broken : List Bool} {s : Session} {w : Socket d}
        → Alone bs ms sent broken s
        → (m : Incoming) (x : World d.core) (l : List Record)
        → on_incoming d m (socket_of d sent broken s x l) ≡ (false, w)
        → Alone bs (ms ++ m ∷ []) w.sent w.broken w.env.session

  heard_all-append :
      (ms : List Incoming) (m : Incoming) (b : Bool)
      → flag_after d (heard_all d (ms ++ m ∷ [])) b
        ≡ flag_after d (heard d m) (flag_after d (heard_all d ms) b)
  heard_all-append [] m b = flag_after-append d (heard d m) [] b
  heard_all-append (n ∷ ms) m b =
      flag_after-append d (heard d n) (heard_all d (ms ++ m ∷ [])) b
      ∙ heard_all-append ms m (flag_after d (heard d n) b)
      ∙ ap (flag_after d (heard d m)) (sym (flag_after-append d (heard d n) (heard_all d ms) b))

  Alone-flag :
      {bs : List Bool} {ms : List Incoming} {sent : List Text} {broken : List Bool} {s : Session}
      → Alone bs ms sent broken s
      → s.initialized ≡ flag_after d (heard_all d ms) false
  unfolding on_transport Session.new
  Alone-flag fresh = refl
  Alone-flag (next {ms} {sent} {broken} {s} a m x l e) =
      ap (λ r. r.1.env.session.initialized) (sym e)
      ∙ on_incoming-flag d m (socket_of d sent broken s x l)
      ∙ ap (flag_after d (heard d m)) (Alone-flag a)
      ∙ sym (heard_all-append ms m false)

  module _ (lib : Libraries) (k : Kind lib) where
    -- The request that a peer sent, and which sends of its websocket will fail.
    abbrev pub request_of :
        {max : ℕ} {world : World d.core} {log : List Record} {h : Hub d lib}
        → Reach d lib max k world log h
        → ℕ
        → Option (Header × List Bool)
    request_of start j = none
    request_of (later {h} x (asks header bs)) j =
        if h.next == j then some (header, bs) else request_of x j
    request_of (later x (hears i m e)) j = request_of x j
    request_of (later x (drifts y)) j = request_of x j

    -- What has arrived at its websocket.
    abbrev pub arrived_at :
        {max : ℕ} {world : World d.core} {log : List Record} {h : Hub d lib}
        → Reach d lib max k world log h
        → ℕ
        → List Incoming
    arrived_at start j = []
    arrived_at (later {h} x (asks header bs)) j = if h.next == j then [] else arrived_at x j
    arrived_at (later x (hears i m e)) j =
        if i == j then arrived_at x j ++ m ∷ [] else arrived_at x j
    arrived_at (later x (drifts y)) j = arrived_at x j

    -- Whoever has a websocket sent a request that was admitted, and its connection goes as it would
    -- alone with what has arrived at it.
    abbrev IsWelcome : Option (Header × List Bool) → List Incoming → Peer d → Type 0
    IsWelcome o ms (live header sent broken s) =
        IsAdmitted lib k header
        × (bs : List Bool) × (o ≡ some (header, bs))
        × Alone bs ms sent broken s
    IsWelcome o ms _ = Unit

    abbrev IsGuarded : Option (Kind lib) → Type 0
    IsGuarded none = false ≡ true
    IsGuarded (some k') = IsSame lib k k'

    ws_handler-IsGuarded :
        (st : WsState lib) (header : Header)
        → IsGuarded st.auth
        → IsGuarded (ws_handler lib st header).1.auth
          × IsLetIn lib k st.max_content_length header (ws_handler lib st header).0
    unfolding ws_handler
    ws_handler-IsGuarded st header g = elim (Option-cases st.auth) [
      | inl e ↦ absurd (let h = rw e at g in ground arith)
      | inr (k', e) ↦
          let h = rw e at g in
          let (a, b) = check-Grants lib k' header (IsSame-ready lib k k' h) in
          rw (e, ws_handler)
            (
              IsSame-trans lib k k' (check lib k' header).1 h b,
              reply_to-IsLetIn lib k k' st.max_content_length header (check lib k' header).0 h a,
            )
    ]

    greeted-IsWelcome :
        (max : ℕ) (header : Header) (bs : List Bool) (reply : Reply)
        → IsLetIn lib k max header reply
        → IsWelcome (some (header, bs)) [] (greeted d header bs reply)
    unfolding greeted
    greeted-IsWelcome max header bs (unauthorized e) h = tt
    greeted-IsWelcome max header bs (upgrade n) h = (h.1, bs, refl, fresh)

    update-IsWelcome :
        (f : ℕ → Peer d) (i j : ℕ) (x : Peer d) (o o' : Option (Header × List Bool))
        (ms ms' : List Incoming)
        → ((i == j) ≡ true → IsWelcome o ms x)
        → IsWelcome o' ms' (f j)
        → IsWelcome (if i == j then o else o') (if i == j then ms else ms') (update d f i x j)
    update-IsWelcome f i j x o o' ms ms' h g = elim (Bool-cases (i == j)) [
      | inl e ↦ rw e (h e)
      | inr e ↦ rw e g
    ]

    went_on-IsWelcome :
        (m : Incoming) (header : Header) (sent : List Text) (broken : List Bool) (s : Session)
        (x : World d.core) (l : List Record) (r : Bool × Socket d) (o : Option (Header × List Bool))
        (ms : List Incoming)
        → on_incoming d m (socket_of d sent broken s x l) ≡ r
        → IsWelcome o ms (live header sent broken s)
        → IsWelcome o (ms ++ m ∷ []) (went_on d header r)
    unfolding went_on
    went_on-IsWelcome m header sent broken s x l (true, w) o ms e h = tt
    went_on-IsWelcome m header sent broken s x l (false, w) o ms e (a, bs, q, h) =
        (a, bs, q, next h m x l e)

    same_option : (b : Bool) (o : Option (Header × List Bool)) → (if b then o else o) ≡ o
    same_option true o = refl
    same_option false o = refl

    Reach-IsGuarded :
        {max : ℕ} {world : World d.core} {log : List Record} {h : Hub d lib}
        → IsSame lib k k
        → Reach d lib max k world log h
        → IsGuarded h.state.auth
    Reach-IsGuarded g start = g
    Reach-IsGuarded g (later {h} x (asks header bs)) =
        (ws_handler-IsGuarded h.state header (Reach-IsGuarded g x)).0
    Reach-IsGuarded g (later x (hears i m e)) = Reach-IsGuarded g x
    Reach-IsGuarded g (later x (drifts y)) = Reach-IsGuarded g x

    Reach-IsWelcome :
        {max : ℕ} {world : World d.core} {log : List Record} {h : Hub d lib}
        → IsSame lib k k
        → (x : Reach d lib max k world log h) (j : ℕ)
        → IsWelcome (request_of x j) (arrived_at x j) (h.peers j)
    Reach-IsWelcome g start j = tt
    Reach-IsWelcome g (later {h} x (asks header bs)) j =
        let (b, c) = ws_handler-IsGuarded h.state header (Reach-IsGuarded g x) in
        update-IsWelcome h.peers h.next j _ (some (header, bs)) (request_of x j) [] (arrived_at x j)
          (λ e. greeted-IsWelcome h.state.max_content_length header bs _ c) (Reach-IsWelcome g x j)
    Reach-IsWelcome g (later {h} x (hears i m {header} {sent} {broken} {s} e)) j =
        let q = on_incoming d m (socket_of d sent broken s h.world h.log) in
        subst
          (λ o.
            IsWelcome o (if i == j then arrived_at x j ++ m ∷ [] else arrived_at x j)
              (update d h.peers i (went_on d header q) j))
          (same_option (i == j) (request_of x j))
          (update-IsWelcome h.peers i j (went_on d header q) (request_of x j) (request_of x j)
            (arrived_at x j ++ m ∷ []) (arrived_at x j)
            (λ y.
              let same : i ≡ j = ground arith in
              went_on-IsWelcome m header sent broken s h.world h.log q (request_of x j)
                (arrived_at x j) refl
                (subst (IsWelcome (request_of x j) (arrived_at x j))
                  (subst (λ j. h.peers j ≡ live header sent broken s) same e)
                  (Reach-IsWelcome g x j)))
            (Reach-IsWelcome g x j))
    Reach-IsWelcome g (later x (drifts y)) j = Reach-IsWelcome g x j

  -- However the websockets of a server are interleaved, with one another and with requests for new
  -- ones, whoever has one has itself sent a request that the configured strategy and claim bindings
  -- admit; its connection goes as it would alone, with what has arrived at it and the service in some
  -- state at each message; and whether its session is initialized is settled by these messages.
  pub Reach-IsAdmitted :
      (lib : Libraries) (auth : WsAuth) (bindings : WsClaimBindings) (k : Kind lib) {max : ℕ}
      {world : World d.core} {log : List Record} {h : Hub d lib}
      → from lib auth bindings ≡ ok k
      → (x : Reach d lib max k world log h) (i : ℕ) (header : Header) (sent : List Text)
        (broken : List Bool) (s : Session)
      → h.peers i ≡ live header sent broken s
      → Admits lib auth bindings header
        × (bs : List Bool) × (request_of lib k x i ≡ some (header, bs))
        × Alone bs (arrived_at lib k x i) sent broken s
        × (s.initialized ≡ flag_after d (heard_all d (arrived_at lib k x i)) false)
  Reach-IsAdmitted lib auth bindings k made x i header sent broken s e =
      let g : IsSame lib k k = subst (IsReady lib) made (from-IsReady lib auth bindings) in
      let (a, bs, o, y) =
        subst (IsWelcome lib k (request_of lib k x i) (arrived_at lib k x i)) e
          (Reach-IsWelcome lib k g x i) in
      (from-Admits lib auth bindings k header made a, bs, o, y, Alone-flag y)
