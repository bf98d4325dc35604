-- ===== src/Shutdown/Delivery.antt =====
-- When the future of `StopSignals::recv` in src/shutdown.rs resolves.
use mathlib.Core.Path.{subst}
use mcp_core.Common.{
  Bool, true, false, ◌&&◌, ◌||◌, Option, none, some, is_some, List, [], ◌∷◌, ◌≡◌, refl, ◌∙◌, sym,
  arith, any,
}
use mcp_core.Error.{ok}
use mcp_core.Shutdown.{
  StopSignal, terminate, interrupt, Registered, registered, refused, SignalLibrary, try_register,
  Happening, arrives, polls, StopSignals, install, Recv, stream, recv, poll, receive, or_else, wait,
}
use mcp_core.Shutdown.Polls.{
  SignalLaws, same, raised_at, listens, poll-Fair, poll-Hears, receive-raised, receive-listens,
}

abbrev pub is_poll : Happening → Bool
is_poll (arrives g) = false
is_poll (polls g) = true

-- Whether it arrives and a poll follows.
abbrev pub due : StopSignal → List Happening → Bool
due g [] = false
due g (arrives g' ∷ hs) = (same g' g && any is_poll hs) || due g hs
due g (polls first ∷ hs) = due g hs

module _ (tokio : SignalLibrary) (laws : SignalLaws tokio) where
  open tokio use {Signal}
  open laws use {raised, open_still}

  abbrev IsNew : Signal → Type 0
  IsNew x = (raised x ≡ false) × (open_still x ≡ true)

  install-IsNew :
      (s : StopSignals tokio) (g : StopSignal) → install tokio ≡ ok s → IsNew (stream tokio g s)
  unfolding install
  install-IsNew s g e =
      go (tokio.signal terminate) (tokio.signal interrupt) (laws.signal_new terminate)
        (laws.signal_new interrupt) e
    where
      both :
          (g : StopSignal) (x y : Signal)
          → IsNew x
          → IsNew y
          → IsNew (stream tokio g (record { terminate = x; interrupt = y }))
      both terminate x y h k = h
      both interrupt x y h k = k

      go :
          (t i : Registered Signal)
          → ((x : Signal) → t ≡ registered x → IsNew x)
          → ((x : Signal) → i ≡ registered x → IsNew x)
          → try_register t (λ x. try_register i (λ y. ok (record { terminate = x; interrupt = y })))
            ≡ ok s
          → IsNew (stream tokio g s)
      go (registered x) (registered y) h k e =
          let q : s ≡ record { terminate = x; interrupt = y } = cc in
          subst (λ s. IsNew (stream tokio g s)) (sym q) (both g x y (h x refl) (k y refl))
      go (registered x) (refused w) h k e = ground arith
      go (refused w) i h k e = ground arith

  or_else-due :
      (x : Option StopSignal × Recv tokio) (hs : List Happening)
      → (x.0 ≡ none → is_some (wait tokio hs x.1).0 ≡ true)
      → is_some (or_else tokio x (wait tokio hs)).0 ≡ true
  or_else-due (some s, r') hs h = refl
  or_else-due (none, r') hs h = h refl

  wait-due :
      (hs : List Happening) (r : Recv tokio) (g : StopSignal)
      → listens tokio laws g r ≡ true
      → ((raised_at tokio laws g r && any is_poll hs) || due g hs) ≡ true
      → is_some (wait tokio hs r).0 ≡ true
  unfolding wait
  wait-due [] r g l h = ground arith
  wait-due (arrives k ∷ hs) r g l h =
      wait-due hs (receive tokio k r) g (receive-listens tokio laws k g r ∙ l)
        (ground (arith, receive-raised tokio laws k g r))
  wait-due (polls first ∷ hs) r g l h = or_else-due (poll tokio first r) hs λ e.
      wait-due hs (poll tokio first r).1 g ((poll-Fair tokio laws first r g).2 e l)
        (ground (arith, poll-Hears tokio laws first g r l e))

  -- A signal that arrives while the streams are installed, before `recv` is awaited or after,
  -- resolves the future at a later poll: the future waits no longer than the next poll after it.
  pub recv-due :
      (s : StopSignals tokio) (hs : List Happening) (g : StopSignal)
      → install tokio ≡ ok s
      → due g hs ≡ true
      → is_some (wait tokio hs (recv tokio s)).0 ≡ true
  unfolding recv
  recv-due s hs g i h = wait-due hs (recv tokio s) g (listens_new g) (ground arith)
    where
      listens_new : (g : StopSignal) → listens tokio laws g (recv tokio s) ≡ true
      listens_new terminate = (install-IsNew s terminate i).1
      listens_new interrupt = (install-IsNew s interrupt i).1
