-- ===== src/Runner/Unix/Socket.antt =====
-- The socket of `serve_unix` in src/runner.rs: what it replaces, and who may connect to it.
use mathlib.Core.Path.{subst}
use mcp_core.Common.{
  ap, ◌∙◌, ◌++◌, any, any, ◌&&◌, Bool, true, false, Option, none, some, List, [], ◌∷◌, ◌≡◌, refl,
  arith, ◌==◌, Text, if◌then◌else◌,
}
use mcp_core.Error.{IoError, io, Result, ok, err}
use mcp_core.Transport.Stream.{Stream}
use mcp_core.Transport.Framed.State.{Writer}
use mcp_core.Runner.Serve.{Metadata, socket, no_socket, unknown, prepare_unix_socket_path}
use mcp_core.Runner.Unix.{
  removal, SocketPath, Accepted, accepted, accept_failed, Act, remove_file, bind, listening,
  set_permissions, spawn, tried, Served, try_after, restrict_socket_perms, accept_loop, serve_unix,
}

-- How far the socket is: not there, open to what the umask allows, or its owner's alone.
pub data Guard : Type 0 where
  unbound exposed restricted : Guard

abbrev pub guard_after : Guard → Act → Guard
guard_after g bind = exposed
guard_after exposed (set_permissions mode) = if mode == 0o600 then restricted else exposed
guard_after g _ = g

abbrev pub may_spawn : Guard → Act → Bool
may_spawn restricted a = true
may_spawn g (spawn r w) = false
may_spawn g _ = true

-- Whether every connection that is spawned is one to a socket that is its owner's alone.
abbrev pub guarded : Guard → List Act → Bool
guarded g [] = true
guarded g (a ∷ acts) = may_spawn g a && guarded (guard_after g a) acts

abbrev pub is_removal : Act → Bool
is_removal remove_file = true
is_removal _ = false

abbrev pub is_spawn : Act → Bool
is_spawn (spawn r w) = true
is_spawn _ = false

-- What a run of `serve_unix` keeps to, from when the socket has got so far.
abbrev pub Keeps : Guard → SocketPath → List Act → Type 0
Keeps g path acts =
    (guarded g acts ≡ true)
    × (any is_removal acts ≡ true → path.symlink_metadata ≡ socket)
    × (any is_spawn acts ≡ true → (path.bind ≡ none) × (path.set_permissions ≡ none))

accept_loop-guarded :
    (xs : List Accepted)
    → (guarded restricted (accept_loop xs).1 ≡ true) × (any is_removal (accept_loop xs).1 ≡ false)
unfolding accept_loop
accept_loop-guarded [] = (refl, refl)
accept_loop-guarded (accepted r w ∷ xs) = accept_loop-guarded xs
accept_loop-guarded (accept_failed e ∷ xs) = (refl, refl)

after_bind-Keeps :
    (path : SocketPath) (xs : List Accepted) (o : Option IoError)
    → path.bind ≡ none
    → path.set_permissions ≡ o
    → Keeps exposed path
        (try_after
          (set_permissions 0o600 ∷ [])
          (tried o)
          ((accept_loop xs).0, listening ∷ (accept_loop xs).1)).1
after_bind-Keeps path xs none b e =
    let (g, r) = accept_loop-guarded xs in (g, λ h. ground arith, λ h. (b, e))
after_bind-Keeps path xs (some x) b e = (refl, λ h. ground arith, λ h. ground arith)

after_prepare-Keeps :
    (path : SocketPath) (xs : List Accepted) (o : Option IoError)
    → path.bind ≡ o
    → Keeps unbound path
        (try_after (bind ∷ []) (tried o) (
          try_after
            (set_permissions 0o600 ∷ [])
            (tried path.set_permissions)
            ((accept_loop xs).0, listening ∷ (accept_loop xs).1))).1
after_prepare-Keeps path xs none e = after_bind-Keeps path xs path.set_permissions e refl
after_prepare-Keeps path xs (some x) e = (refl, λ h. ground arith, λ h. ground arith)

-- After the path has been prepared, with what that did.
prepared-Keeps :
    (path : SocketPath) (prepared : Result (Unit {0})) (removes : Bool) (rest : Served)
    → (removes ≡ true → path.symlink_metadata ≡ socket)
    → Keeps unbound path rest.1
    → Keeps unbound path (try_after (removal removes) prepared rest).1
prepared-Keeps path (ok x) true rest h (a, b, c) = (a, λ k. h refl, c)
prepared-Keeps path (ok x) false rest h k = k
prepared-Keeps path (err e) true rest h k = (refl, λ k. h refl, λ k. ground arith)
prepared-Keeps path (err e) false rest h k = (refl, λ k. ground arith, λ k. ground arith)

prepare_removes :
    (name : Text) (m : Metadata) (o : Option IoError)
    → (prepare_unix_socket_path name m o).1 ≡ true
    → m ≡ socket
unfolding prepare_unix_socket_path
prepare_removes name socket o h = refl
prepare_removes name no_socket o h = ground arith
prepare_removes name (unknown e) o h = ground arith

-- What `accept` gives: connections, and then, if it does, a failure, with what would come after it.
abbrev pub arrivals : List (Stream × Writer) → Option (IoError × List Accepted) → List Accepted
arrivals [] none = []
arrivals [] (some (e, xs)) = accept_failed e ∷ xs
arrivals ((r, w) ∷ cs) end = accepted r w ∷ arrivals cs end

abbrev pub failure : Option (IoError × List Accepted) → Option (Result (Unit {0}))
failure none = none
failure (some (e, xs)) = some (err (io e))

-- The connections that tasks run for, in order.
abbrev pub tasks_of : List Act → List (Stream × Writer)
tasks_of [] = []
tasks_of (spawn r w ∷ acts) = (r, w) ∷ tasks_of acts
tasks_of (_ ∷ acts) = tasks_of acts

abbrev first_error : Result (Unit {0}) → Result (Unit {0}) → Result (Unit {0})
first_error (ok x) r = r
first_error (err e) r = err e

-- Whether the socket can be prepared, bound and restricted, and else why not.
abbrev pub opening : Text → SocketPath → Result (Unit {0})
opening name path =
    first_error (prepare_unix_socket_path name path.symlink_metadata path.remove_file).0
      (first_error (tried path.bind) (tried path.set_permissions))

-- A server that opens its socket runs a task for each connection that it accepts, in order, and
-- returns when it fails to accept one; one that does not returns why.
abbrev pub Serves :
    List (Stream × Writer) → Option (IoError × List Accepted) → Result (Unit {0}) → Served → Type 0
Serves cs end (ok x) served = (served.0 ≡ failure end) × (tasks_of served.1 ≡ cs)
Serves cs end (err e) served = (served.0 ≡ some (err e)) × (tasks_of served.1 ≡ [])

accept_loop-Serves :
    (cs : List (Stream × Writer)) (end : Option (IoError × List Accepted))
    → Serves cs end (ok tt) (accept_loop (arrivals cs end))
unfolding accept_loop
accept_loop-Serves [] none = (refl, refl)
accept_loop-Serves [] (some (e, xs)) = (refl, refl)
accept_loop-Serves ((r, w) ∷ cs) end =
    let (a, b) = accept_loop-Serves cs end in (a, ap (λ x. (r, w) ∷ x) b)

-- A step that may fail, before the others.
try_after-Serves :
    (cs : List (Stream × Writer)) (end : Option (IoError × List Accepted)) (acts : List Act)
    (r later : Result (Unit {0})) (rest : Served)
    → tasks_of acts ≡ []
    → ((xs : List Act) → tasks_of (acts ++ xs) ≡ tasks_of xs)
    → Serves cs end later rest
    → Serves cs end (first_error r later) (try_after acts r rest)
try_after-Serves cs end acts (ok x) (ok y) rest h k (a, b) = (a, k rest.1 ∙ b)
try_after-Serves cs end acts (ok x) (err e) rest h k (a, b) = (a, k rest.1 ∙ b)
try_after-Serves cs end acts (err e) later rest h k s = (refl, h)

removal-tasks :
    (b : Bool)
    → (tasks_of (removal b) ≡ []) × ((xs : List Act) → tasks_of (removal b ++ xs) ≡ tasks_of xs)
removal-tasks true = (refl, λ xs. refl)
removal-tasks false = (refl, λ xs. refl)

first_error-ok : (r : Result (Unit {0})) → first_error r (ok tt) ≡ r
first_error-ok (ok x) = refl
first_error-ok (err e) = refl

serve_unix-Serves :
    (name : Text) (path : SocketPath) (cs : List (Stream × Writer))
    (end : Option (IoError × List Accepted))
    → Serves cs end (opening name path) (serve_unix name path (arrivals cs end))
unfolding serve_unix restrict_socket_perms
serve_unix-Serves name path cs end =
    let (prepared, removes) =
      prepare_unix_socket_path name path.symlink_metadata path.remove_file in
    let xs = arrivals cs end in
    let looped : Served = ((accept_loop xs).0, listening ∷ (accept_loop xs).1) in
    let restricted =
      try_after-Serves cs end (set_permissions 0o600 ∷ []) (tried path.set_permissions) (ok tt)
        looped refl (λ xs. refl) (accept_loop-Serves cs end) in
    let after : Serves cs end (tried path.set_permissions)
        (try_after (set_permissions 0o600 ∷ []) (tried path.set_permissions) looped) =
      subst
        (λ r.
          Serves cs end r
            (try_after (set_permissions 0o600 ∷ []) (tried path.set_permissions) looped))
        (first_error-ok (tried path.set_permissions)) restricted in
    try_after-Serves cs end (removal removes) prepared
      (first_error (tried path.bind) (tried path.set_permissions)) _ (removal-tasks removes).0
      (removal-tasks removes).1
      (try_after-Serves cs end (bind ∷ []) (tried path.bind) (tried path.set_permissions) _ refl
        (λ xs. refl) after)

-- `serve_unix` never removes what is not a socket; it runs no task for a connection before the
-- socket's permissions have been set to 0600 after the bind. If the socket cannot be prepared, bound
-- or restricted, it returns why and runs no task. Else it runs a task for every connection that is
-- accepted, in order, however these connections end, and returns only when it fails to accept one,
-- with that failure: it never returns success.
pub serve_unix-Keeps :
    (name : Text) (path : SocketPath) (cs : List (Stream × Writer))
    (end : Option (IoError × List Accepted))
    → Keeps unbound path (serve_unix name path (arrivals cs end)).1
      × Serves cs end (opening name path) (serve_unix name path (arrivals cs end))
unfolding serve_unix restrict_socket_perms
serve_unix-Keeps name path cs end = (
  prepared-Keeps path _ _ _ (prepare_removes name path.symlink_metadata path.remove_file)
      (after_prepare-Keeps path (arrivals cs end) path.bind refl),
  serve_unix-Serves name path cs end,
)
