-- ===== src/Runner/Run/Tests.antt =====
-- `run` of src/runner.rs with a server that never returns on its own, or does after one poll.
use mcp_core.Common.{arith, map, trim}
use mcp_core.Utf8.{encode}
use mcp_core.Transport.Stream.{unread, newline_at}
use mcp_core.Transport.Header.{trim_crlf, content_length_value}
use mcp_core.Transport.Framed.Style.{by_lines, in_style}
use mcp_core.Runner.Stdio.{session_of}
use mcp_core.Runner.Websocket.{text}
use mcp_core.Runner.Websocket.Transcript.{transcript}
use mcp_core.Runner.Run.Serves.{IsServed, server, run-serves}
use mcp_core.Common.{some, false, List, none, [], ◌∷◌, ◌≡◌, ◌≢◌, refl, true, codes}
use mcp_core.Config
use mcp_core.Config.{ServerConfig, unix, with_unix}
use mcp_core.Error.{Result, ok}
use mcp_core.Service.{McpService, text_reply}
use mcp_core.Service
use mcp_core.Shutdown.{
  poll, Happening, terminate, interrupt, arrives, polls, install, recv, subscribed, listening,
  flushed,
}
use mcp_core.Shutdown.Arrivals.{arrival_laws}
use mcp_core.Shutdown.Tests.{flags, flag_laws}
use mcp_core.Auth.Tests.{one_token}
use mcp_core.Runner.Serve.{serve, socket, CommonServeArgs, default_args}
use mcp_core.Runner.Tests.{pinged, untraced, all_features}
use mcp_core.Runner.Upgrade.{requests}
use mcp_core.Runner.Run.{
  Future, now, later, matched, running, returned, Process, Surroundings, Built, served, run,
}
use mcp_core.Runner.Run.Race.{first_of, ready_at, polls_in, stop_at, run-first_of}
use mcp_core.Runner.Run.Ends.{IsOrderly, run-IsOrderly, run-due}

abbrev idle : McpService
idle = record {
  World = Unit {0};
  tools = λ w. [];
  call_tool = λ w name arguments. (Service.CallResult.ok (text_reply name), w);
  shutdown = λ w. w;
}

-- A standard input that has ended, and a unix socket that nobody connects to.
abbrev quiet : Surroundings
quiet = record {
  features = all_features;
  auth_feature = true;
  trace = untraced;
  from_str = pinged.from_str;
  to_string = pinged.to_string;
  utf8_error = pinged.utf8_error;
  stdin = [];
  stdout = record { written = []; events = [] };
  socket = record {
    symlink_metadata = socket;
    remove_file = none;
    bind = none;
    set_permissions = none;
  };
  accepts = [];
  auth = one_token;
  listener = requests [] none;
  polls_taken = 0;
}

abbrev started : CommonServeArgs → Process (Unit {0})
started args = record {
  get_matches = λ name version. matched args tt;
  init = λ name. none;
  tokio = flags;
  around = quiet;
}

abbrev on_socket : CommonServeArgs
on_socket = record default_args {
  transport = some unix;
  socket_path = some (codes "/run/mcp.sock");
}

abbrev demo : ServerConfig
demo = with_unix (Config.new (codes "demo") (codes "1.0"))

abbrev idle_built : Built
idle_built = record { service = idle; world = tt }

abbrev building : Unit {0} → Future (Result Built)
building local = later (now (ok idle_built))

-- A server of standard input is done at the second poll, before which the signal arrives as well.
abbrev both_at_once : List Happening
both_at_once = polls terminate ∷ arrives interrupt ∷ polls terminate ∷ []

run-first_of_example :
    run (started default_args) demo building both_at_once
    ≡ first_of
        (subscribed ∷ listening ∷ [])
        (ready_at
          (served (started default_args) demo default_args (building tt))
          (polls_in both_at_once))
        (stop_at flags both_at_once (recv flags (record { terminate = false; interrupt = false })))
unfolding install
run-first_of_example =
    run-first_of (started default_args) demo building both_at_once default_args tt
      (record { terminate = false; interrupt = false }) refl refl refl

run-IsOrderly_example : IsOrderly both_at_once (run (started on_socket) demo building both_at_once)
run-IsOrderly_example =
    run-IsOrderly (started on_socket) (arrival_laws flag_laws) demo building both_at_once

run-due_example : (run (started on_socket) demo building both_at_once).0 ≢ running
run-due_example = run-due (started on_socket) flag_laws demo building both_at_once interrupt refl

-- A client that types one line.
abbrev typing : Process (Unit {0})
typing = record (started default_args) {
  around = record quiet { stdin = unread (codes "one\n") [] };
}

one_line-IsServed : IsServed typing.around demo by_lines (codes "one" ∷ [])
unfolding Config.new with_unix encode newline_at trim_crlf content_length_value trim
one_line-IsServed = record {
  prints = λ v. (codes "{}", refl);
  faultless = tt;
  messages = refl;
  suits = (
    record {
      is_text = ground arith;
      one_line = refl;
      trimmed = refl;
      not_blank = refl;
      no_header = refl;
      short = omega arith;
    },
    tt,
  );
  stdout = refl;
}

run-serves_example : run typing demo building (polls terminate ∷ polls terminate ∷ []) ≡ (
  returned (
    ok tt,
    in_style by_lines
        (transcript
          (server typing.around demo idle_built)
          (map text (codes "one" ∷ []))
          (session_of (server typing.around demo idle_built) tt [])).0,
  ),
  subscribed ∷ listening ∷ flushed ∷ [],
)
unfolding install serve Config.allows default_args with_unix Config.new poll recv
run-serves_example =
    run-serves typing demo building (polls terminate ∷ polls terminate ∷ []) default_args tt
      (record { terminate = false; interrupt = false }) 1 idle_built by_lines (codes "one" ∷ [])
      refl refl refl refl refl refl (omega arith) one_line-IsServed
