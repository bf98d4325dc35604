-- ===== src/Runner/Pump/Loop.antt =====
-- The loop of `pump` in src/runner.rs: it ends with the stream, and how.
use mcp_core.Common.{
  ℕ, zero, suc, ◌<◌, Option, none, some, List, [], ◌∷◌, ◌≡◌, refl, sym, ap, ◌∙◌, inl, inr, arith,
  Bool-cases, is_empty, trim, Text,
}
use mcp_core.Json.{Value}
use mcp_core.Error.{
  Error, transport, invalid_message, connection_closed, TransportError, Result, ok, err,
}
use mcp_core.Service.{Serialized, done, failed}
use mcp_core.Server.Response.{Dispatch}
use mcp_core.Server.Session.{World, Env}
use mcp_core.Transport.Stream.{stream_size}
use mcp_core.Transport.Framed.State.{FramedTransport, M, continue}
use mcp_core.Transport.Framed.Write.{write_message}
use mcp_core.Transport.Framed.Desync.{write_message-SameReading}
use mcp_core.Transport.Framed.Progress.{left_of, IsWithin, read_message-IsWithin}
use mcp_core.Runner.Pump.{
  Parsed, parsed, unparsed, Driver, Connection, Round, goes_on, ends, write_value, write_response,
  write_all_values, deliver, after_write, on_value, on_read, round, rounds, pump,
}

module _ (d : Driver) where
  write_value-left_of :
      (v : Value) (t : FramedTransport) → left_of (write_value d v t).1 ≡ left_of t
  unfolding write_value
  write_value-left_of v t = go (d.to_string v)
    where
      go :
          (s : Serialized Text)
          → left_of
              (elim s as (λ _. Result (Unit {0}) × FramedTransport) [
                | failed e ↦ (err (Error.json e), t)
                | done s ↦ write_message s t
              ]).1
            ≡ left_of t
      go (failed e) = refl
      go (done s) = ap stream_size (write_message-SameReading s t).reader

  continue-left_of :
      (r : Result (Unit {0})) (f : Unit {0} → M (Unit {0})) (t : FramedTransport)
      → ((u : FramedTransport) → left_of (f tt u).1 ≡ left_of u)
      → left_of (continue r f t).1 ≡ left_of t
  continue-left_of (ok x) f t h = h t
  continue-left_of (err e) f t h = refl

  write_all_values-left_of :
      (vs : List Value) (t : FramedTransport) → left_of (write_all_values d vs t).1 ≡ left_of t
  unfolding write_all_values
  write_all_values-left_of [] t = refl
  write_all_values-left_of (v ∷ vs) t =
      continue-left_of (write_value d v t).0 (λ _. write_all_values d vs) (write_value d v t).1
        (λ u. write_all_values-left_of vs u)
      ∙ write_value-left_of v t

  write_response-left_of :
      (r : Option Value) (t : FramedTransport) → left_of (write_response d r t).1 ≡ left_of t
  unfolding write_response
  write_response-left_of none t = refl
  write_response-left_of (some v) t = write_value-left_of v t

  deliver-left_of : (x : Dispatch) (t : FramedTransport) → left_of (deliver d x t).1 ≡ left_of t
  unfolding deliver
  deliver-left_of x t =
      continue-left_of (write_response d x.response t).0 (λ _. write_all_values d x.notifications)
        (write_response d x.response t).1 (λ u. write_all_values-left_of x.notifications u)
      ∙ write_response-left_of x.response t

  -- A round that goes on leaves less than `n` to come.
  abbrev pub Advances : ℕ → Round d → Type 0
  Advances n (goes_on c) = left_of c.transport < n
  Advances n (ends r c) = Unit

  after_write-Advances :
      (n : ℕ) (x : Result (Unit {0}) × FramedTransport) (e : Env (World d.core))
      → left_of x.1 < n
      → Advances n (after_write d x e)
  unfolding after_write
  after_write-Advances n (ok x, t) e h = h
  after_write-Advances n (err x, t) e h = tt

  on_value-Advances :
      (n : ℕ) (p : Parsed) (t : FramedTransport) (e : Env (World d.core))
      → left_of t < n
      → Advances n (on_value d p t e)
  unfolding on_value
  on_value-Advances n (unparsed s) t e h =
      after_write-Advances n _ e (omega (arith, write_value-left_of _ t))
  on_value-Advances n (parsed v) t e h =
      after_write-Advances n _ _ (omega (arith, deliver-left_of _ t))

  on_read-Advances :
      (n : ℕ) (r : Result Text) (t : FramedTransport) (e : Env (World d.core))
      → IsWithin n r t
      → Advances n (on_read d (r, t) e)
  unfolding on_read
  on_read-Advances n (err (transport connection_closed)) t e h = tt
  on_read-Advances n (err (transport (invalid_message s))) t e h = tt
  on_read-Advances n (err (transport (TransportError.io s))) t e h = tt
  on_read-Advances n (err (Error.io s)) t e h = tt
  on_read-Advances n (err (Error.json s)) t e h = tt
  on_read-Advances n (err (Error.config s)) t e h = tt
  on_read-Advances n (err (Error.telemetry s)) t e h = tt
  on_read-Advances n (ok raw) t e h = elim (Bool-cases (is_empty (trim raw))) [
    | inl b ↦ rw b h
    | inr b ↦ rw b (on_value-Advances n (d.from_str raw) t e h)
  ]

  pub round-Advances : (c : Connection d) → Advances (left_of c.transport) (round d c)
  unfolding round
  round-Advances c = on_read-Advances _ _ _ c.env (read_message-IsWithin d.utf8_error c.transport)

  -- What `pump` returns after a round, `again` standing for its going on.
  abbrev pub follow :
      (Connection d → Result (Unit {0}) × Connection d) → Round d → Result (Unit {0}) × Connection d
  follow again (goes_on c) = again c
  follow again (ends r c) = (r, c)

  follow_cong :
      (f g : Connection d → Result (Unit {0}) × Connection d) (n : ℕ) (r : Round d)
      → Advances n r
      → ((c : Connection d) → left_of c.transport < n → f c ≡ g c)
      → follow f r ≡ follow g r
  follow_cong f g n (goes_on c) h k = k c h
  follow_cong f g n (ends r c) h k = refl

  rounds-suc : (n : ℕ) (c : Connection d) → rounds d (suc n) c ≡ follow (rounds d n) (round d c)
  unfolding rounds
  rounds-suc n c = go (round d c)
    where
      go :
          (r : Round d)
          → (elim r as (λ _. Result (Unit {0}) × Connection d) [
            | goes_on c' ↦ rounds d n c'
            | ends x c' ↦ (x, c')
          ])
            ≡ follow (rounds d n) r
      go (goes_on c) = refl
      go (ends r c) = refl

  rounds_enough :
      (n m : ℕ) (c : Connection d)
      → left_of c.transport < n
      → left_of c.transport < m
      → rounds d n c ≡ rounds d m c
  rounds_enough zero m c h k = absurd (omega arith)
  rounds_enough (suc n) zero c h k = absurd (omega arith)
  rounds_enough (suc n) (suc m) c h k =
      rounds-suc n c
      ∙ follow_cong (rounds d n) (rounds d m) (left_of c.transport) (round d c) (round-Advances c)
          (λ c' l. rounds_enough n m c' (omega arith) (omega arith))
      ∙ sym (rounds-suc m c)

  -- The fuel of the loop never runs out: `pump` is a round and then, if that goes on, `pump` again.
  pub pump-follow : (c : Connection d) → pump d c ≡ follow (pump d) (round d c)
  unfolding pump
  pump-follow c =
      rounds-suc (left_of c.transport) c
      ∙ follow_cong _ _ (left_of c.transport) (round d c) (round-Advances c) (λ c' l.
        rounds_enough (left_of c.transport) (suc (left_of c'.transport)) c' l (omega arith))
