-- ===== src/Config.antt =====
-- internal/server/config.go: the server's settings, their normal form and the listen address.
pub mod Ports
mod Tests
use xcloud.Prelude.{
  ℕ, String, Bool, true, false, not, ◌&&◌, ◌||◌, Option, none, some, ◌==◌, if◌then◌else◌, ℤ, pos,
  leb_ℤ, ltb_ℤ, trim_space, starts_with_char, split_host_port, atoi, trim_prefix, trim_last,
}
use xcloud.Result.{Result, ok, err, invalid_address, invalid_listen_port}

pub record RuntimeConfig : Type 0 where
  pub path : String
  pub domain : String
  pub port : ℤ
  pub data_dir : String
  pub listen_host : String

-- DefaultRuntimeConfig
unfoldable pub default_runtime_config : String → RuntimeConfig
unfolding trim_space
default_runtime_config path = record {
  path = if trim_space path == "" then "xcloud-server.json" else path;
  domain = "ixxmi.com";
  port = pos 18002;
  data_dir = "server-data";
  listen_host = "";
}

abbrev or_default : String → String → String
or_default text default = if text == "" then default else text

-- The domain without a scheme and without a slash at its end.
abbrev bare_domain : String → String
bare_domain domain =
    trim_last 47
      (trim_prefix (trim_prefix (or_default (trim_space domain) "ixxmi.com") "https://") "http://")

abbrev parsed_port : Option ℤ → ℤ → ℤ
parsed_port none port = port
parsed_port (some parsed) port = if leb_ℤ parsed (pos 0) then port else parsed

abbrev domain_and_port : String → ℤ → Option (String × String) → String × ℤ
domain_and_port domain port none = (domain, port)
domain_and_port domain port (some (host, text)) = (host, parsed_port (atoi text) port)

abbrev pub is_port : ℤ → Bool
is_port port = not (leb_ℤ port (pos 0)) && leb_ℤ port (pos 65535)

abbrev pub port_or_default : ℤ → ℤ
port_or_default port = if is_port port then port else pos 18002

-- Normalize up to the test of the port.
unfoldable pub domain_port : RuntimeConfig → String × ℤ
unfolding trim_space trim_prefix trim_last split_host_port atoi
domain_port cfg =
    let bare = bare_domain cfg.domain in domain_and_port bare cfg.port (split_host_port bare)

-- Normalize
unfoldable pub normalize_config : RuntimeConfig → RuntimeConfig
unfolding trim_space
normalize_config cfg = record cfg {
  domain = (domain_port cfg).0;
  port = port_or_default (domain_port cfg).1;
  data_dir = or_default (trim_space cfg.data_dir) "server-data";
  listen_host = trim_space cfg.listen_host;
}

-- strings.TrimPrefix(addr, ":") of an address that begins with a colon
abbrev behind_colon : String → String
behind_colon String.[] = ""
behind_colon (String.◌∷◌ c s) = s

abbrev pub host_and_port : String → Option (String × String) → Option (String × String)
host_and_port addr (some split) = some split
host_and_port addr none = if starts_with_char 58 addr then some ("", behind_colon addr) else none

unfoldable pub apply_port : RuntimeConfig → String → Option ℤ → Result RuntimeConfig
apply_port cfg host none = err invalid_listen_port
apply_port cfg host (some port) =
    if is_port port
    then ok (record cfg { listen_host = host; port = port })
    else err invalid_listen_port

unfoldable pub apply_split : RuntimeConfig → Option (String × String) → Result RuntimeConfig
unfolding atoi
apply_split cfg none = err invalid_address
apply_split cfg (some (host, text)) = apply_port cfg host (atoi text)

-- ApplyListenAddr: the settings behind it, or its error, with which they stay as they are
unfoldable pub apply_listen_addr : RuntimeConfig → String → Result RuntimeConfig
unfolding trim_space split_host_port starts_with_char
apply_listen_addr cfg addr =
    if trim_space addr == ""
    then ok cfg
    else apply_split cfg (host_and_port (trim_space addr) (split_host_port (trim_space addr)))
