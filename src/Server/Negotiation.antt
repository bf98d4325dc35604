-- ===== src/Server/Negotiation.antt =====
-- The handshake of src/server.rs: the version that is agreed on, and what the answer carries.
use mathlib.Core.Option
use mcp_core.Common.{
  and_then, Bool, true, Option, none, some, List, [], ◌∷◌, ◌≡◌, ◌≢◌, refl, inl, inr, Bool-cases,
  any, arith, Text, codes, str_eq, str_eq_iff, str_eq_refl, str_ge, if◌then◌else◌,
}
use mcp_core.Json.{Value, string, object, lookup, insert, get, bool}
use mcp_core.Config.{ServerConfig, last, latest_protocol_version}
use mcp_core.Server.Initialize.{
  negotiate_version, server_info, requested_version, initialize_result,
}

abbrev pub supports : ServerConfig → Text → Bool
supports config v = any (λ w. str_eq w v) config.protocol_versions

any-last : (v : Text) (vs : List Text) → last vs ≡ some v → any (λ w. str_eq w v) vs ≡ true
unfolding last
any-last v [] h = cc
any-last v (w ∷ []) h = ground (arith, str_eq_iff w v)
any-last v (w ∷ x ∷ xs) h = ground (arith, any-last v (x ∷ xs) h)

last-eq-some : (vs : List Text) → vs ≢ [] → (v : Text) × (last vs ≡ some v)
unfolding last
last-eq-some [] ne = absurd (ne refl)
last-eq-some (v ∷ []) ne = (v, refl)
last-eq-some (v ∷ w ∷ ws) ne = last-eq-some (w ∷ ws) (λ e. cc)

latest_supported :
    (config : ServerConfig)
    → config.protocol_versions ≢ []
    → supports config (latest_protocol_version config) ≡ true
unfolding latest_protocol_version
latest_supported config ne =
    let (v, e) = last-eq-some config.protocol_versions ne in
    rw (e, latest_protocol_version) (any-last v config.protocol_versions e)

-- Whatever is asked for, a server that supports any version agrees to one that it supports, and
-- that is the version asked for exactly if the server supports that one.
pub negotiate_version_supported :
    (config : ServerConfig) (requested : Text)
    → config.protocol_versions ≢ []
    → (supports config (negotiate_version config requested) ≡ true)
      × (str_eq (negotiate_version config requested) requested ≡ supports config requested)
unfolding negotiate_version
negotiate_version_supported config requested ne =
    let l = latest_supported config ne in
    let e = str_eq_iff (latest_protocol_version config) requested in
    elim (Bool-cases (supports config requested)) [
      | inl h ↦ rw h (h, str_eq_refl requested)
      | inr h ↦ rw h (
        l,
        elim (Bool-cases (str_eq (latest_protocol_version config) requested)) [
          | inl k ↦ absurd (let c = rw (e.0 k) at l in cc)
          | inr k ↦ k
        ],
      )
    ]

-- What `serverInfo` shows of an optional text: only from the revision that defined it, and only if
-- it is set.
abbrev pub shown_from_2025_11_25 : Text → Option Text → Option Value
shown_from_2025_11_25 negotiated none = none
shown_from_2025_11_25 negotiated (some s) =
    if str_ge negotiated (codes "2025-11-25") then some (string s) else none

-- `serverInfo` always has the name and the version of the configuration; title, description and
-- websiteUrl stand in it exactly if they are set and the agreed version is at least 2025-11-25.
pub server_info_lem :
    (config : ServerConfig) (v : Text)
    → (lookup (server_info config v) (codes "name") ≡ some (string config.name))
      × (lookup (server_info config v) (codes "version") ≡ some (string config.version))
      × (lookup (server_info config v) (codes "title") ≡ shown_from_2025_11_25 v config.title)
      × (lookup (server_info config v) (codes "description")
          ≡ shown_from_2025_11_25 v config.description)
      × (lookup (server_info config v) (codes "websiteUrl")
          ≡ shown_from_2025_11_25 v config.website_url)
unfolding server_info lookup insert str_eq
server_info_lem config v = (ground arith, ground arith, ground arith, ground arith, ground arith)

-- The result of `initialize` has no top-level `tools`; it carries the agreed version, the server's
-- description of itself for that version, whether the list of tools may change, and the
-- instructions exactly if there are any.
pub initialize_result_lem :
    (config : ServerConfig) (params : Value)
    → let r : Value = initialize_result config params in
      let v : Text = negotiate_version config (requested_version config params) in
      (get r (codes "tools") ≡ none)
      × (get r (codes "protocolVersion") ≡ some (string v))
      × (get r (codes "serverInfo") ≡ some (object (server_info config v)))
      × (and_then
            (get r (codes "capabilities"))
            (λ c. and_then (get c (codes "tools")) (λ t. get t (codes "listChanged")))
          ≡ some (bool config.tools_list_changed))
      × (get r (codes "instructions") ≡ Option.map string config.instructions)
unfolding initialize_result lookup insert str_eq
initialize_result_lem config params =
    (ground arith, ground arith, ground arith, ground arith, ground arith)
