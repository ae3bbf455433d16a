-- ===== src/Booter/Config/Load.antt =====
-- `readConfig`, `GetDiscovery` and `GetLogger` of cmd/cable/config.go, and `GetNodeId` of
-- cluster/options.go. The file system, the YAML library, the host's name, the parser of numbers, the random
-- numbers and the local address are parameters.
use mathlib.Core.Path.{subst}
use cable.Prelude.{
  ℕ, ◌+◌, ◌%◌, ◌^◌, ◌≡◌, ◌≢◌, refl, Bool, List, [], ◌∷◌, ◌++◌, Option, none, some, ◌⊎◌, inl, inr,
  if◌then◌else◌, ◌==◌, Option-cases, if_elim, option_elim,
}
use cable.Errors.{Result, ok, panic}
use cable.GoMap.{Bytes}
use cable.Booter.Config.{
  Config, DiscoveryType, Level, Format, LoggerConfig, Invalid, is_empty, validate,
}
use cable.Booter.Config.Requirements.{ArePorts, IsValid}
use cable.Booter.Config.Valid.{validate-IsValid}

pub data ReadError : Type 0 where
  no_file bad_yaml : ReadError
  invalid : Invalid → ReadError

pub record Host : Type 0 where
  pub read_file : Bytes → Option Bytes
  pub unmarshal_yaml : Bytes → Option Config
  pub hostname : Option Bytes
  -- `strconv.ParseUint(_, 10, 64)`
  pub parse_uint : Bytes → Option ℕ
  pub rand_uint64 : ℕ
  -- `getLocalIP`, none for an error
  pub local_ip : Option Bytes

-- The parts of a name after its first hyphen, and the last of them: `strs[len(strs)-1]` of
-- `strings.Split(_, "-")` where there is more than one part.
unfoldable pub last_part : Option Bytes → Bytes → Option Bytes
last_part part [] = part
last_part none (c ∷ cs) = last_part (if c == 45 then some [] else none) cs
last_part (some part) (c ∷ cs) = last_part (some (if c == 45 then [] else part ++ c ∷ [])) cs

module _ (h : Host) where
  unfoldable pub id_of : Option Bytes → Option ℕ
  id_of none = none
  id_of (some part) = h.parse_uint part

  unfoldable pub host_id : Option Bytes → Option ℕ
  host_id none = none
  host_id (some name) = id_of (last_part none name)

  -- `GetNodeId`
  unfoldable pub get_node_id : ℕ
  get_node_id = elim (host_id h.hostname) [ none ↦ h.rand_uint64 | some id ↦ (id + 10000) % 2 ^ 64 ]

  unfoldable pub with_node_id : Config → Config
  with_node_id c = if c.node_id == 0 then record c { node_id = get_node_id } else c

  unfoldable pub checked : Config → ReadError ⊎ Config
  checked c = elim (validate c) [ none ↦ inr (with_node_id c) | some e ↦ inl (invalid e) ]

  unfoldable pub parsed : Option Config → ReadError ⊎ Config
  parsed none = inl bad_yaml
  parsed (some c) = checked c

  -- `readConfig`
  unfoldable pub read_config : Bytes → ReadError ⊎ Config
  read_config path = elim (h.read_file path) [
    | none ↦ inl no_file
    | some bytes ↦ parsed (h.unmarshal_yaml bytes)
  ]

-- What finds the other nodes: its node, the port that it announces, and the endpoints of etcd.
pub data Finder : Type 0 where
  by_multicast : ℕ → ℕ → Finder
  by_etcd : ℕ → ℕ → List Bytes → Finder

-- The discovery that the configuration names, none where the type is neither of the two.
unfoldable pub find_by : Config → Option Finder
find_by c = elim c.discovery.discovery_type [
  | DiscoveryType.multicast ↦ some (by_multicast c.node_id c.peer_port)
  | DiscoveryType.etcd ↦ some (by_etcd c.node_id c.peer_port c.discovery.endpoints)
  | DiscoveryType.other_type ↦ none
]

-- `NewMuticast` and `newEtcdDiscovery`, which panic where `getLocalIP` fails.
unfoldable pub found_at : Option Bytes → Finder → Result (Option Finder)
found_at none f = panic
found_at (some ip) f = ok (some f)

-- `GetDiscovery`, nil where the type is neither of the two, with the address that `getLocalIP` returns.
unfoldable pub get_discovery : Option Bytes → Config → Result (Option Finder)
get_discovery ip c = elim (find_by c) [ none ↦ ok none | some f ↦ found_at ip f ]

-- A logger: one that writes to the console, in JSON or as text, or one over a logger of the library zap, which
-- may be nil.
pub data Logger : Type 0 where
  json_logger text_logger : Level → Logger
  zap_logger : Option Level → Logger

unfoldable pub console_logger : LoggerConfig → Logger
console_logger l = elim l.format [
  | Format.json ↦ json_logger l.level
  | Format.console ↦ text_logger l.level
  | Format.other_format ↦ text_logger l.level
]

-- `otlpLogger`, where the flag says whether there is an exporter for the endpoint.
unfoldable pub otlp_logger : Bool → LoggerConfig → Option Level
otlp_logger exporter l = if exporter then some l.level else none

-- `GetLogger`, with the logger that an earlier call has kept: what it returns is what it keeps.
unfoldable pub get_logger : Bool → Option Logger → LoggerConfig → Logger
get_logger exporter (some kept) l = kept
get_logger exporter none l =
    if is_empty l.otlp_endpoint then console_logger l else zap_logger (otlp_logger exporter l)

-- A valid configuration names a discovery.
pub find_by-IsValid : (c : Config) → IsValid c → (f : Finder) × (find_by c ≡ some f)
unfolding find_by IsValid
find_by-IsValid c (_, (_, (_, (_, (_, (_, (known, _))))))) =
    found c.discovery.discovery_type known refl
  where
    found :
        (t : DiscoveryType)
        → t ≢ DiscoveryType.other_type
        → c.discovery.discovery_type ≡ t
        → (f : Finder) × (find_by c ≡ some f)
    found DiscoveryType.multicast k e = (by_multicast c.node_id c.peer_port, rw (find_by, e) refl)
    found DiscoveryType.etcd k e =
        (by_etcd c.node_id c.peer_port c.discovery.endpoints, rw (find_by, e) refl)
    found DiscoveryType.other_type k e = absurd (k refl)

module _ (h : Host) where
  IsReady : ReadError ⊎ Config → Type 0
  IsReady (inl _) = Unit
  IsReady (inr c) = IsValid c × ((f : Finder) × (find_by c ≡ some f))

  with_node_id-IsReady : (c : Config) → IsValid c → IsReady (inr (with_node_id h c))
  unfolding IsReady with_node_id IsValid ArePorts
  with_node_id-IsReady c v =
      if_elim (λ (d : Config). IsReady (inr d)) (c.node_id == 0) _ _
        (λ _.
          let named : Config = record c { node_id = get_node_id h } in (v, find_by-IsValid named v))
        (λ _. (v, find_by-IsValid c v))

  checked-IsReady : (c : Config) → IsReady (checked h c)
  unfolding IsReady checked
  checked-IsReady c = elim (Option-cases (validate c)) [
    | inl e ↦ rw (checked, e) (with_node_id-IsReady c ((validate-IsValid c).0 e))
    | inr (_, e) ↦ rw (checked, e) tt
  ]

  parsed-IsReady : (o : Option Config) → IsReady (parsed h o)
  unfolding IsReady parsed
  parsed-IsReady none = tt
  parsed-IsReady (some c) = checked-IsReady c

  read-IsReady : (path : Bytes) → IsReady (read_config h path)
  unfolding IsReady read_config
  read-IsReady path =
      option_elim IsReady (h.read_file path) _ _ (λ _. tt)
        (λ bytes _. parsed-IsReady (h.unmarshal_yaml bytes))

  -- What `readConfig` returns meets the requirements of IsValid, and it names a discovery.
  pub read_config-IsValid :
      (path : Bytes) (c : Config)
      → read_config h path ≡ inr c
      → IsValid c × ((f : Finder) × (find_by c ≡ some f))
  unfolding IsReady
  read_config-IsValid path c e = subst IsReady e (read-IsReady path)
