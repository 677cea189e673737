-- ===== src/Config/Tests.antt =====
-- Settings as they are entered.
use xcloud.Prelude.{
  String, ◌≡◌, ◌↔◌, refl, false, ◌==◌, pos, trim_space, starts_with_char, contains_char, cut_first,
  cut_last, read_digits, atoi, split_host_port, behind, trim_prefix, trim_last,
}
use xcloud.Result.{Result, ok, err, invalid_listen_port}
use xcloud.Config.{
  RuntimeConfig, host_and_port, domain_port, normalize_config, apply_port, apply_split,
  apply_listen_addr,
}
use xcloud.Config.Ports.{IsListenPort, IsApplied, config_ports}

abbrev sample : RuntimeConfig
sample = record {
  path = "c.json";
  domain = "x.org";
  port = pos 80;
  data_dir = "d";
  listen_host = "";
}

normalize_run : RuntimeConfig → RuntimeConfig
unfolding normalize_config domain_port trim_space trim_prefix behind trim_last split_host_port
    cut_first cut_last contains_char atoi read_digits
normalize_run = normalize_config

with_scheme :
    normalize_run (record sample { domain = " https://x.org:8443/ " })
    ≡ record sample { domain = "x.org"; port = pos 8443 }
unfolding normalize_run
with_scheme = refl

-- A scheme alone leaves no domain at all.
no_domain : normalize_run (record sample { domain = "https://" }) ≡ record sample { domain = "" }
unfolding normalize_run
no_domain = refl

apply_run : String → Result RuntimeConfig
unfolding apply_listen_addr apply_split apply_port trim_space split_host_port cut_first cut_last
    contains_char starts_with_char atoi read_digits
apply_run addr = apply_listen_addr sample addr

too_big : apply_run ":70000" ≡ err invalid_listen_port
unfolding apply_run
too_big = refl

six :
    apply_listen_addr sample "[::1]:8080"
    ≡ ok (record sample { listen_host = "::1"; port = pos 8080 })
unfolding apply_run
six = refl

named : (trim_space "[::1]:8080" == "") ≡ false
unfolding trim_space
named = refl

config_ports_example :
    IsListenPort (normalize_config sample).port
    × ((normalize_config sample).path ≡ "c.json")
    × ((apply_listen_addr sample "[::1]:8080"
          ≡ ok (record sample { listen_host = "::1"; port = pos 8080 }))
        ↔ IsApplied sample
            (host_and_port (trim_space "[::1]:8080") (split_host_port (trim_space "[::1]:8080")))
            (record sample { listen_host = "::1"; port = pos 8080 }))
config_ports_example =
    config_ports sample (record sample { listen_host = "::1"; port = pos 8080 }) "[::1]:8080" named
