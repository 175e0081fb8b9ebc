-- ===== src/Isolation.antt =====
-- webtor/src/isolation.rs: `IsolationKey::from_url`. A text is a native string. The getters of the
-- url crate are the fields of `Url`, and the public suffix list of the psl crate is a parameter, as is
-- the parser of addresses.
pub mod Groups
pub mod Circuits
mod Runs
use Prim.Native.String.{◌++◌ as ◌<>◌}
use text.Mathlib.Text.{◌==◌ as str_eq}
use webtor_rs.Base.{
  ℕ, zero, suc, ◌/◌, ◌%◌, Bool, true, false, ◌&&◌, ◌||◌, Option, none, some, String, ltb, ◌==◌,
  if◌then◌else◌,
}

pub data StreamIsolationPolicy : Type 0 where
  per_domain per_subdomain per_origin no_isolation : StreamIsolationPolicy

abbrev pub default : StreamIsolationPolicy
default = per_domain

-- `url::Url`: `scheme`, `host_str`, `port_or_known_default`, `path` and `query`.
pub record Url : Type 0 where
  pub scheme : String
  pub host_str : Option String
  pub port_or_known_default : Option ℕ
  pub path : String
  pub query : Option String

-- `host.parse::<IpAddr>().is_ok()`; the test of brackets at both ends; `psl::domain`, which is none
-- also where its bytes are no text.
pub record Hosts : Type 0 where
  pub is_ip_addr : String → Bool
  pub in_brackets : String → Bool
  pub psl_domain : String → Option String

unfoldable pub digit : ℕ → String
digit n =
    if n == 0
    then "0"
    else if n == 1
    then "1"
    else if n == 2
    then "2"
    else if n == 3
    then "3"
    else if n == 4
    then "4"
    else if n == 5
    then "5"
    else if n == 6
    then "6"
    else if n == 7
    then "7"
    else if n == 8
    then "8"
    else "9"

-- A number of at most as many digits as the fuel, in decimal.
unfoldable pub digits : ℕ → ℕ → String
digits zero n = ""
digits (suc fuel) n =
    let before = digits fuel (n / 10) in if ltb n 10 then digit n else before <> digit (n % 10)

-- `format!("{}", port)` for a u16.
abbrev pub port_text : ℕ → String
port_text = digits 5

unfoldable pub host_of : Url → String
host_of url = elim url.host_str [ none ↦ "" | some host ↦ host ]

unfoldable pub port_of : Url → ℕ
port_of url = elim url.port_or_known_default [ none ↦ 0 | some port ↦ port ]

module _ (hosts : Hosts) where
  unfoldable pub extract_domain : String → String
  extract_domain host =
      if str_eq host ""
      then ""
      else if hosts.is_ip_addr host
      then host
      else if hosts.in_brackets host
      then host
      else elim (hosts.psl_domain host) [ none ↦ host | some domain ↦ domain ]

  unfoldable pub from_url : Url → StreamIsolationPolicy → Option String
  from_url url per_origin =
      some (url.scheme <> ("://" <> (host_of url <> (":" <> port_text (port_of url)))))
  from_url url per_subdomain = some (host_of url)
  from_url url per_domain = some (extract_domain (host_of url))
  from_url url no_isolation = none
