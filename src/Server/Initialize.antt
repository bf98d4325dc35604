-- ===== src/Server/Initialize.antt =====
-- src/server.rs: the `initialize` handshake, which reads only the configuration.
use mcp_core.Common.{Option, none, some, any, Text, codes, str_eq, str_ge, if◌then◌else◌}
use mcp_core.Json.{Value, bool, string, object, Fields, end, field, insert, get_str}
use mcp_core.Config.{ServerConfig, latest_protocol_version}

unfoldable pub negotiate_version : ServerConfig → Text → Text
negotiate_version config requested =
    if any (λ v. str_eq v requested) config.protocol_versions
    then requested
    else latest_protocol_version config

-- `if let Some(value) = value { server_info[key] = json!(value) }`
abbrev pub insert_text : Fields → Text → Option Text → Fields
insert_text fs k none = fs
insert_text fs k (some s) = insert fs k (string s)

unfoldable pub server_info : ServerConfig → Text → Fields
server_info config negotiated =
    let base : Fields =
      field (codes "name") (string config.name)
        (field (codes "version") (string config.version) end) in
    if str_ge negotiated (codes "2025-11-25")
    then insert_text
        (insert_text (insert_text base (codes "title") config.title) (codes "description")
          config.description)
        (codes "websiteUrl") config.website_url
    else base

-- The version that the client asks for, or the newest.
unfoldable pub requested_version : ServerConfig → Value → Text
requested_version config params = elim (get_str params (codes "protocolVersion")) [
  | none ↦ latest_protocol_version config
  | some v ↦ v
]

unfoldable pub initialize_result : ServerConfig → Value → Value
unfolding requested_version
initialize_result config params =
    let negotiated = negotiate_version config (requested_version config params) in
    let tools : Value = object (field (codes "listChanged") (bool config.tools_list_changed) end) in
    let result : Fields = field (codes "protocolVersion") (string negotiated) (
      field (codes "serverInfo") (object (server_info config negotiated))
        (field (codes "capabilities") (object (field (codes "tools") tools end)) end)) in
    object (insert_text result (codes "instructions") config.instructions)
