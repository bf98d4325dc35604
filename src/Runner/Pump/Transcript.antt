-- ===== src/Runner/Pump/Transcript.antt =====
-- What `pump` of src/runner.rs writes for the messages that it reads.
use mcp_core.Runner.Pump.Turn.{round_end, round-Turn}
use mcp_core.Transport.Framed.Style.{Style, AllSuit, in_style, in_style-append, Awaits}
use mathlib.Core.Path.{subst}
use mcp_core.Common.{
  ap, ◌∙◌, sym, append_assoc, append-nil, List, [], ◌∷◌, ◌++◌, ◌≡◌, refl, map, Text,
}
use mcp_core.Json.{Value}
use mcp_core.Error.{Result, ok}
use mcp_core.Service.{done}
use mcp_core.Server.Session.{World, Env}
use mcp_core.Runner.Pump.{Driver, Connection, pump}
use mcp_core.Runner.Pump.Loop.{follow, pump-follow}
use mcp_core.Runner.Websocket.{text, Socket, ws_connection}
use mcp_core.Runner.Websocket.Transcript.{ws_connection-transcript, answered, transcript}

module _ (d : Driver) (sort : Style) where
  -- What a connection ends with: success, these texts written in a style, and this session.
  abbrev pub Finishes :
      Connection d → List Text → Env (World d.core) → Result (Unit {0}) × Connection d → Type 0
  Finishes c xs e x =
      (x.0 ≡ ok tt)
      × (x.1.transport.writer.written ≡ c.transport.writer.written ++ in_style sort xs)
      × (x.1.env ≡ e)

module _ (d : Driver) (prints : (v : Value) → (s : Text) × (d.to_string v ≡ done s))
    (sort : Style) where
  -- What has been written before and after.
  written_both :
      (c a : Connection d) (xs ys : List Text)
      → a.transport.writer.written ≡ c.transport.writer.written ++ in_style sort xs
      → a.transport.writer.written ++ in_style sort ys
        ≡ c.transport.writer.written ++ in_style sort (xs ++ ys)
  written_both c a xs ys h =
      ap (λ v. v ++ in_style sort ys) h
      ∙ append_assoc c.transport.writer.written (in_style sort xs) (in_style sort ys)
      ∙ ap (λ v. c.transport.writer.written ++ v) (sym (in_style-append sort xs ys))

  -- Over the messages of a client, and a writer that does not fail, `pump` returns success when they
  -- have ended, and has written, in the client's style, the answers to them all, in order.
  pub pump-transcript :
      (ms : List Text) (c : Connection d)
      → Awaits sort c.transport (in_style sort ms)
      → c.transport.writer.events ≡ []
      → AllSuit sort c.transport.max_len ms
      → Finishes d sort c
          (transcript d (map text ms) c.env).0
          (transcript d (map text ms) c.env).1
          (pump d c)
  pump-transcript [] c r e l =
      subst (Finishes d sort c [] c.env)
        (sym (pump-follow d c ∙ ap (follow d (pump d)) (round_end d prints sort c r)))
        (refl, sym (append-nil _), refl)
  pump-transcript (m ∷ ms) c r e (l, ls) =
      let x = round-Turn d prints sort c m (in_style sort ms) r e l in
      let xs = (answered d (d.from_str m) c.env).0 in
      let rest = transcript d (map text ms) in
      let (p, q, s) =
        pump-transcript ms x.after x.awaits x.events
          (subst (λ n. AllSuit sort n ms) (sym x.limit) ls) in
      subst (Finishes d sort c _ _) (sym (pump-follow d c ∙ ap (follow d (pump d)) x.went_on)) (
        p,
        q
            ∙ ap (λ v. x.after.transport.writer.written ++ in_style sort (rest v).0) x.session
            ∙ written_both c x.after xs (rest (answered d (d.from_str m) c.env).1).0 x.written,
        s ∙ ap (λ v. (rest v).1) x.session,
      )

  -- Over such a stream `pump` writes, in the client's style, the texts that a websocket connection with
  -- the same session sends for the same texts, and leaves the session as that does.
  pub pump-ws_connection :
      (ms : List Text) (c : Connection d) (w : Socket d)
      → Awaits sort c.transport (in_style sort ms)
      → c.transport.writer.events ≡ []
      → AllSuit sort c.transport.max_len ms
      → w.sent ≡ []
      → w.broken ≡ []
      → w.env ≡ c.env
      → Finishes d sort c
          (ws_connection d (map text ms) w).sent
          (ws_connection d (map text ms) w).env
          (pump d c)
  pump-ws_connection ms c w r e l s b v =
      let (p, q, t) = pump-transcript ms c r e l in
      let (x, y) = ws_connection-transcript d (map text ms) w b in
      let sent : (ws_connection d (map text ms) w).sent ≡ (transcript d (map text ms) c.env).0 =
        x
        ∙ ap (λ z. z ++ (transcript d (map text ms) w.env).0) s
        ∙ ap (λ z. (transcript d (map text ms) z).0) v in
      (
        p,
        q ∙ ap (λ z. c.transport.writer.written ++ in_style sort z) (sym sent),
        t ∙ ap (λ z. (transcript d (map text ms) z).1) (sym v) ∙ sym y,
      )
