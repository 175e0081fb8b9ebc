-- ===== src/Relay/Criteria.antt =====
-- webtor/src/relay.rs: `Relay`, `RelayCriteria` and the common criteria. A `HashSet<String>` is a
-- list that holds each string once; its order is nowhere observed.
use text.Mathlib.Text.{◌==◌ as str_eq}
use webtor_rs.Base.{
  ℕ, Bool, true, false, not, ◌&&◌, ◌||◌, List, [], ◌∷◌, Option, none, some, String, leb,
  if◌then◌else◌,
}

pub record Relay : Type 0 where
  pub fingerprint : String
  pub nickname : String
  pub address : String
  pub or_port : ℕ
  pub dir_port : Option ℕ
  pub flags : List String
  pub bandwidth : ℕ
  pub consensus_weight : ℕ
  pub version : String
  pub microdescriptor_hash : String
  pub ed25519_identity : Option String
  pub ntor_onion_key : Option String

abbrev pub new_relay : String → String → String → ℕ → List String → String → Relay
new_relay fingerprint nickname address or_port flags ntor_onion_key = record {
  fingerprint = fingerprint;
  nickname = nickname;
  address = address;
  or_port = or_port;
  dir_port = none;
  flags = flags;
  bandwidth = 0;
  consensus_weight = 0;
  version = "";
  microdescriptor_hash = "";
  ed25519_identity = none;
  ntor_onion_key = some ntor_onion_key;
}

unfoldable pub contains : List String → String → Bool
contains [] x = false
contains (y ∷ ys) x = str_eq y x || contains ys x

abbrev pub insert : String → List String → List String
insert x xs = if contains xs x then xs else x ∷ xs

pub record RelayCriteria : Type 0 where
  pub need_flags : List String
  pub exclude_flags : List String
  pub exclude_fingerprints : List String
  pub min_bandwidth : ℕ
  pub max_selection : ℕ

abbrev pub default : RelayCriteria
default = record {
  need_flags = [];
  exclude_flags = [];
  exclude_fingerprints = [];
  min_bandwidth = 0;
  max_selection = 10;
}

abbrev pub with_flag : RelayCriteria → String → RelayCriteria
with_flag c flag = record c { need_flags = insert flag c.need_flags }

abbrev pub without_flag : RelayCriteria → String → RelayCriteria
without_flag c flag = record c { exclude_flags = insert flag c.exclude_flags }

abbrev pub without_fingerprint : RelayCriteria → String → RelayCriteria
without_fingerprint c fingerprint = record c {
  exclude_fingerprints = insert fingerprint c.exclude_fingerprints;
}

abbrev pub without_fingerprints : RelayCriteria → List String → RelayCriteria
without_fingerprints c [] = c
without_fingerprints c (fp ∷ fps) = without_fingerprints (without_fingerprint c fp) fps

abbrev pub with_min_bandwidth : RelayCriteria → ℕ → RelayCriteria
with_min_bandwidth c bandwidth = record c { min_bandwidth = bandwidth }

abbrev pub with_max_selection : RelayCriteria → ℕ → RelayCriteria
with_max_selection c max = record c { max_selection = max }

unfoldable pub has_all : List String → List String → Bool
has_all [] flags = true
has_all (need ∷ needs) flags = contains flags need && has_all needs flags

unfoldable pub has_none : List String → List String → Bool
has_none [] flags = true
has_none (flag ∷ rest) flags = not (contains flags flag) && has_none rest flags

-- The closure of `filter` in `select_relays`.
unfoldable pub eligible : RelayCriteria → Relay → Bool
eligible c r =
    not (contains c.exclude_fingerprints r.fingerprint)
    && has_all c.need_flags r.flags
    && has_none c.exclude_flags r.flags
    && leb c.min_bandwidth r.bandwidth

abbrev pub middle_relays : RelayCriteria
middle_relays = with_flag (with_flag (with_flag default "Fast") "Stable") "V2Dir"

abbrev pub exit_relays : RelayCriteria
exit_relays =
    without_flag (with_flag (with_flag (with_flag default "Fast") "Stable") "Exit") "BadExit"

abbrev pub guard_relays : RelayCriteria
guard_relays = with_flag (with_flag (with_flag default "Fast") "Stable") "Guard"
