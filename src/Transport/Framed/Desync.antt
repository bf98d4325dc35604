-- ===== src/Transport/Framed/Desync.antt =====
-- src/transport.rs: a transport that has lost its framing does not read again.
use mcp_core.Common.{some, List, [], ◌∷◌, ◌++◌, ◌≡◌, refl, ap, ◌∙◌, Text, codes}
use mcp_core.Error.{transport, invalid_message, Result, ok, err}
use mcp_core.Utf8.{Bytes}
use mcp_core.Transport.Framed.State.{
  Framing, auto, newline, content_length, FramedTransport, M, continue, WriteEvent, accepted,
  broken,
}
use mcp_core.Transport.Framed.Read.{read_unless, read_message}
use mcp_core.Transport.Framed.Write.{write_next, write_all, write_in, flush, write_message}

-- A call on a transport.
pub data Call : Type 0 where
  receive : Call
  send : Text → Call

-- A transport and another with the same state but for its writer.
pub record SameReading (t u : FramedTransport) : Type 0 where
  pub reader : u.reader ≡ t.reader
  pub framing : u.framing ≡ t.framing
  pub max_len : u.max_len ≡ t.max_len
  pub desync : u.desync ≡ t.desync

pub SameReading-trans :
    {t u v : FramedTransport} → SameReading t u → SameReading u v → SameReading t v
SameReading-trans h k = record {
  reader = k.reader ∙ h.reader;
  framing = k.framing ∙ h.framing;
  max_len = k.max_len ∙ h.max_len;
  desync = k.desync ∙ h.desync;
}

write_next-SameReading :
    (es : List WriteEvent) (bs : Bytes) (t : FramedTransport) → SameReading t (write_next es bs t).1
unfolding write_next
write_next-SameReading [] bs t = record {
  reader = refl;
  framing = refl;
  max_len = refl;
  desync = refl;
}
write_next-SameReading (accepted ∷ es) bs t = record {
  reader = refl;
  framing = refl;
  max_len = refl;
  desync = refl;
}
write_next-SameReading (broken n e ∷ es) bs t = record {
  reader = refl;
  framing = refl;
  max_len = refl;
  desync = refl;
}

write_all-SameReading : (bs : Bytes) (t : FramedTransport) → SameReading t (write_all bs t).1
unfolding write_all
write_all-SameReading bs t = write_next-SameReading t.writer.events bs t

continue-SameReading :
    {A B : Type 0} (r : Result A) (f : A → M B) (t u : FramedTransport)
    → SameReading t u
    → ((a : A) (v : FramedTransport) → SameReading v (f a v).1)
    → SameReading t (continue r f u).1
continue-SameReading (ok a) f t u h k = SameReading-trans h (k a u)
continue-SameReading (err e) f t u h k = h

write_in-SameReading :
    (f : Framing) (message : Text) (t : FramedTransport) → SameReading t (write_in f message t).1
unfolding write_in
write_in-SameReading auto message t =
    continue-SameReading _ _ t _ (write_all-SameReading _ t) (λ a v. write_all-SameReading _ v)
write_in-SameReading newline message t =
    continue-SameReading _ _ t _ (write_all-SameReading _ t) (λ a v. write_all-SameReading _ v)
write_in-SameReading content_length message t =
    continue-SameReading _ _ t _ (write_all-SameReading _ t) (λ a v. write_all-SameReading _ v)

pub write_message-SameReading :
    (message : Text) (t : FramedTransport) → SameReading t (write_message message t).1
unfolding write_message flush
write_message-SameReading message t =
    continue-SameReading _ _ t _ (write_in-SameReading t.framing message t)
      (λ a v. write_all-SameReading [] v)

module _ (utf8_error : Bytes → Text) where
  abbrev pub called : Call → FramedTransport → FramedTransport
  called receive t = (read_message utf8_error t).1
  called (send message) t = (write_message message t).1

  -- The transport after a sequence of calls.
  abbrev pub after : List Call → FramedTransport → FramedTransport
  after [] t = t
  after (c ∷ cs) t = after cs (called c t)

  read_message_lost :
      (t : FramedTransport) (reason : Text)
      → t.desync ≡ some reason
      → read_message utf8_error t ≡ (
        err (
            transport (
              invalid_message (
                codes "transport desynchronised by an earlier framing violation ("
                ++ (reason ++ codes ") and cannot be resynchronised")))),
        t,
      )
  unfolding read_message read_unless
  read_message_lost t reason h = ap (λ o. read_unless utf8_error o t) h

  called-SameReading :
      (c : Call) (t : FramedTransport) (reason : Text)
      → t.desync ≡ some reason
      → SameReading t (called c t)
  called-SameReading receive t reason h =
      rw (read_message_lost t reason h, called)
        (record { reader = refl; framing = refl; max_len = refl; desync = refl })
  called-SameReading (send message) t reason h = write_message-SameReading message t

  after-SameReading :
      (cs : List Call) (t : FramedTransport) (reason : Text)
      → t.desync ≡ some reason
      → SameReading t (after cs t)
  after-SameReading [] t reason h = record {
    reader = refl;
    framing = refl;
    max_len = refl;
    desync = refl;
  }
  after-SameReading (c ∷ cs) t reason h =
      let s = called-SameReading c t reason h in
      SameReading-trans s (after-SameReading cs (called c t) reason (s.desync ∙ h))

  -- Once framing has been lost, then after any sequence of calls of `read_message` and
  -- `write_message` no byte more has been read, the reason is the first one, and a read is refused
  -- with that reason.
  pub after_lost :
      (cs : List Call) (t : FramedTransport) (reason : Text)
      → t.desync ≡ some reason
      → ((after cs t).reader ≡ t.reader)
        × ((after cs t).desync ≡ some reason)
        × (read_message utf8_error (after cs t) ≡ (
          err (
              transport (
                invalid_message (
                  codes "transport desynchronised by an earlier framing violation ("
                  ++ (reason ++ codes ") and cannot be resynchronised")))),
          after cs t,
        ))
  after_lost cs t reason h =
      let s = after-SameReading cs t reason h in
      (s.reader, s.desync ∙ h, read_message_lost (after cs t) reason (s.desync ∙ h))
