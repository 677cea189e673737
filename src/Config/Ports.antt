-- ===== src/Config/Ports.antt =====
-- internal/server/config.go: the ports that the settings can have.
use xcloud.Prelude.{
  ℕ, ◌≤◌, String, ◌≡◌, refl, sym, ap, ◌∙◌, inl, inr, true, false, Option, none, some, ◌==◌, ℤ, pos,
  negsuc, ◌↔◌, arith, Bool-cases, trim_space, split_host_port, atoi,
}
use xcloud.Result.{Result, ok, err, invalid_listen_port, ok_inj}
use xcloud.Config.{
  RuntimeConfig, is_port, port_or_default, domain_port, normalize_config, host_and_port, apply_port,
  apply_split, apply_listen_addr,
}

-- A port that a server can listen at.
pub record IsListenPort (port : ℤ) : Type 0 where
  pub number : ℕ
  pub same : port ≡ pos number
  pub positive : 1 ≤ number
  pub bounded : number ≤ 65535

IsListenPort-is_port : (port : ℤ) → is_port port ≡ true → IsListenPort port
IsListenPort-is_port (pos n) h = record {
  number = n;
  same = refl;
  positive = ground arith;
  bounded = ground arith;
}
IsListenPort-is_port (negsuc n) h =
    let negative : is_port (negsuc n) ≡ false = ground arith in
    let no : true ≡ false = sym h ∙ negative in cc

is_port_of_range : (n : ℕ) → 1 ≤ n → n ≤ 65535 → is_port (pos n) ≡ true
is_port_of_range n positive bounded = ground arith

in_range : (port : ℤ) → IsListenPort (port_or_default port)
in_range port = elim (Bool-cases (is_port port)) [
  | inl e ↦ rw e (IsListenPort-is_port port e)
  | inr e ↦ rw e (IsListenPort-is_port (pos 18002) refl)
]

-- The address, in its two parts, names a port to listen at, and the settings are those before with
-- this host and this port.
pub record IsApplied (before : RuntimeConfig) (parts : Option (String × String))
    (after : RuntimeConfig) : Type 0 where
  pub host : String
  pub text : String
  pub split : parts ≡ some (host, text)
  pub port : ℤ
  pub number : atoi text ≡ some port
  pub listens : IsListenPort port
  pub set : after ≡ record before { listen_host = host; port = port }

module _ (cfg after : RuntimeConfig) where
  port-IsApplied :
      (host text : String) (o : Option ℤ)
      → atoi text ≡ o
      → apply_port cfg host o ≡ ok after
      → IsApplied cfg (some (host, text)) after
  unfolding apply_port
  port-IsApplied host text none e h = cc
  port-IsApplied host text (some port) e h = elim (Bool-cases (is_port port)) [
    | inl p ↦
        let same : ◌≡◌ {A = Result RuntimeConfig}
            (ok (record cfg { listen_host = host; port = port })) (ok after) =
          rw p at h in
        record {
          host = host;
          text = text;
          split = refl;
          port = port;
          number = e;
          listens = IsListenPort-is_port port p;
          set = sym (ok_inj same);
        }
    | inr p ↦
        let refused : ◌≡◌ {A = Result RuntimeConfig} (err invalid_listen_port) (ok after) =
          rw p at h in
        cc
  ]

  split-IsApplied :
      (o : Option (String × String)) → apply_split cfg o ≡ ok after → IsApplied cfg o after
  unfolding apply_split
  split-IsApplied none h = cc
  split-IsApplied (some (host, text)) h = port-IsApplied host text (atoi text) refl h

  split_of_IsApplied :
      (o : Option (String × String)) → IsApplied cfg o after → apply_split cfg o ≡ ok after
  unfolding apply_split apply_port
  split_of_IsApplied o a = rw (a.split, a.number, listened) (ap ok (sym a.set))
    where
      listened : is_port a.port ≡ true
      listened =
          ap is_port a.listens.same
          ∙ is_port_of_range a.listens.number a.listens.positive a.listens.bounded

-- The normal form of any settings names a port of 1 to 65535 and keeps the path. ApplyListenAddr
-- accepts an address that is not blank exactly where it splits into a host and the decimal number
-- of such a port, and then sets this host and this port and nothing else.
pub config_ports :
    (cfg after : RuntimeConfig) (addr : String)
    → (trim_space addr == "") ≡ false
    → IsListenPort (normalize_config cfg).port
      × ((normalize_config cfg).path ≡ cfg.path)
      × ((apply_listen_addr cfg addr ≡ ok after)
          ↔ IsApplied cfg
              (host_and_port (trim_space addr) (split_host_port (trim_space addr)))
              after)
unfolding normalize_config apply_listen_addr
config_ports cfg after addr named = (
  in_range (domain_port cfg).1,
  refl,
  rw named (split-IsApplied cfg after _, split_of_IsApplied cfg after _),
)
