-- ===== src/Server/Initialized.antt =====
-- The `initialize` request of src/server.rs, from the message to the response and the session.
use mcp_core.Common.{
  ◌∙◌, ap, and_then, unwrap_or, true, none, some, [], ◌≡◌, ◌≢◌, refl, Text, codes, str_eq,
}
use mathlib.Core.Option
use mcp_core.Json.{Value, null, bool, string, object, Fields, lookup, get, get_str}
use mcp_core.Config.{ServerConfig}
use mcp_core.Server.Response.{success_response, finish}
use mcp_core.Server.Initialize.{
  negotiate_version, server_info, requested_version, initialize_result,
}
use mcp_core.Server.Negotiation.{
  supports, negotiate_version_supported, initialize_result_lem, server_info_lem,
  shown_from_2025_11_25,
}
use mcp_core.Server.Session.{
  ServerCore, World, Env, set_initialized, handle_method, bad_version, route_object, route,
}
use mcp_core.Server.Tools.{result_member}

-- A request to initialize, of a version that is not refused.
pub record IsInitializeRequest (core : ServerCore) (fs : Fields) (id : Value) : Type 0 where
  pub has_id : lookup fs (codes "id") ≡ some id
  pub version : bad_version core (object fs) ≡ none
  pub method : get_str (object fs) (codes "method") ≡ some (codes "initialize")

-- The parameters of a message.
abbrev pub params_of : Fields → Value
params_of fs = unwrap_or (lookup fs (codes "params")) null

-- What a client reads in the answer: the agreed version, the server's name and version, the texts
-- that describe it where the agreed version has them, whether the list of tools may change, and the
-- instructions if there are any.
pub record Introduces (config : ServerConfig) (v : Text) (answer : Value) : Type 0 where
  pub version : result_member answer (codes "protocolVersion") ≡ some (string v)
  pub info : result_member answer (codes "serverInfo") ≡ some (object (server_info config v))
  pub name : lookup (server_info config v) (codes "name") ≡ some (string config.name)
  pub revision : lookup (server_info config v) (codes "version") ≡ some (string config.version)
  pub title : lookup (server_info config v) (codes "title") ≡ shown_from_2025_11_25 v config.title
  pub tools :
      and_then
        (result_member answer (codes "capabilities"))
        (λ c. and_then (get c (codes "tools")) (λ t. get t (codes "listChanged")))
      ≡ some (bool config.tools_list_changed)
  pub instructions :
      result_member answer (codes "instructions") ≡ Option.map string config.instructions

module _ (core : ServerCore) where
  open core use {config}

  route_object_initialize :
      (fs : Fields) (id : Value) (e : Env (World core))
      → IsInitializeRequest core fs id
      → route core (object fs) e ≡ record {
        env = set_initialized e true;
        dispatch = record {
          response = some (success_response (some id) (initialize_result config (params_of fs)));
          notifications = [];
        };
        method_label = codes "initialize";
      }
  unfolding route route_object handle_method finish str_eq
  route_object_initialize fs id e h = rw (h.version, route_object) (rw h.method (rw h.has_id refl))

  result_member_success :
      (id r : Value) (k : Text) → result_member (success_response (some id) r) k ≡ get r k
  unfolding success_response lookup str_eq
  result_member_success id r k = refl

  success-id : (id r : Value) → get (success_response (some id) r) (codes "id") ≡ some id
  unfolding success_response lookup str_eq
  success-id id r = refl

  answer-Introduces :
      (id params : Value)
      → Introduces config
          (negotiate_version config (requested_version config params))
          (success_response (some id) (initialize_result config params))
  answer-Introduces id params =
      let r = initialize_result config params in
      let v = negotiate_version config (requested_version config params) in
      let (_, b, c, d, e) = initialize_result_lem config params in
      let (n, w, s, _, _) = server_info_lem config v in
      record {
        version = result_member_success id r (codes "protocolVersion") ∙ b;
        info = result_member_success id r (codes "serverInfo") ∙ c;
        name = n;
        revision = w;
        title = s;
        tools =
            ap
              (λ x.
                and_then x
                  (λ c. and_then (get c (codes "tools")) (λ t. get t (codes "listChanged"))))
              (result_member_success id r (codes "capabilities"))
            ∙ d;
        instructions = result_member_success id r (codes "instructions") ∙ e;
      }

  -- A request to initialize is answered, to its id, by a result that introduces the server: with a
  -- version that the server supports, which is the version asked for exactly if the server supports
  -- that one; with the server's name and version, and its title if the agreed version shows one; with
  -- whether the list of tools may change, and with the instructions exactly if there are any. It
  -- opens the session and does not call the service. The server supports some version.
  pub route_initialize :
      (fs : Fields) (id : Value) (e : Env (World core))
      → config.protocol_versions ≢ []
      → IsInitializeRequest core fs id
      → let r = route core (object fs) e in
        let asked = requested_version config (params_of fs) in
        ((v : Text) × (x : Value) × (r.dispatch.response ≡ some x)
          × (get x (codes "id") ≡ some id)
          × Introduces config v x
          × (supports config v ≡ true)
          × (str_eq v asked ≡ supports config asked))
        × (r.dispatch.notifications ≡ [])
        × (r.env ≡ set_initialized e true)
  route_initialize fs id e ne h =
      let params = params_of fs in
      let (p, q) = negotiate_version_supported config (requested_version config params) ne in
      rw (route_object_initialize fs id e h) (
        (
          negotiate_version config (requested_version config params),
          success_response (some id) (initialize_result config params),
          refl,
          success-id id (initialize_result config params),
          answer-Introduces id params,
          p,
          q,
        ),
        refl,
        refl,
      )
