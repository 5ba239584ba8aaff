-- ===== src/Discovery/Hosts.antt =====
-- backend/internal/discovery/manager.go: the networks of a scan. An IPv4 address is its 32-bit
-- number; net/netip's parsers are parameters, and so is the trimming of spaces before them.
use device_management_platfo.Base.{
  ℕ, zero, suc, ◌+◌, ◌-◌, ◌%◌, ◌^◌, String, Bool, true, Option, none, some, List, [], ◌∷◌, ◌++◌,
  if◌then◌else◌,
}
use device_management_platfo.Store.{DiscoveryPort}

pub data Addr : Type 0 where
  v4 : ℕ → Addr
  v6 : ℕ → Addr

pub record Prefix : Type 0 where
  pub addr : ℕ
  pub bits : ℕ

-- Prefix.Masked, of an IPv4 prefix.
unfoldable pub masked : Prefix → Prefix
masked p = record p { addr = p.addr - p.addr % 2 ^ (32 - p.bits) }

-- The loop over the addresses: those that fn was called on. It ends when fn returns false.
unfoldable pub visited : (ℕ → Bool) → ℕ → ℕ → List ℕ
visited fn address zero = []
visited fn address (suc n) =
    let rest = visited fn (address + 1) n in address ∷ (if fn address then rest else [])

pub record Probe : Type 0 where
  pub host : ℕ
  pub port : DiscoveryPort

unfoldable pub probes_of : ℕ → List DiscoveryPort → List Probe
probes_of host [] = []
probes_of host (port ∷ ports) = record { host = host; port = port } ∷ probes_of host ports

unfoldable pub probes_on : List ℕ → List DiscoveryPort → List Probe
unfolding probes_of
probes_on [] ports = []
probes_on (host ∷ hosts) ports = probes_of host ports ++ probes_on hosts ports

module _ (trim : String → String) (parse_addr : String → Option Addr)
    (parse_prefix : String → Option (Addr × ℕ)) where
  unfoldable pub parse_discovery_prefix : String → Option Prefix
  unfolding masked
  parse_discovery_prefix value = elim (parse_addr (trim value)) [
    | some (v4 a) ↦ some (record { addr = a; bits = 32 })
    | _ ↦ elim (parse_prefix (trim value)) [
      | some (v4 a, bits) ↦ some (masked (record { addr = a; bits = bits }))
      | _ ↦ none
    ]
  ]

  unfoldable pub count_hosts : List String → Option ℕ
  unfolding parse_discovery_prefix
  count_hosts [] = some 0
  count_hosts (cidr ∷ cidrs) =
      let rest = count_hosts cidrs in
      elim (parse_discovery_prefix cidr) [
        | none ↦ none
        | some prefix ↦ elim rest [ none ↦ none | some n ↦ some (2 ^ (32 - prefix.bits) + n) ]
      ]

  -- The hosts that fn was called on; none for a network that is not one.
  unfoldable pub for_each_host : String → (ℕ → Bool) → List ℕ
  unfolding parse_discovery_prefix masked visited
  for_each_host cidr fn = elim (parse_discovery_prefix cidr) [
    | none ↦ []
    | some prefix ↦ visited fn (masked prefix).addr (2 ^ (32 - prefix.bits))
  ]

  -- The probes that a run hands to its workers, as long as it is not canceled.
  unfoldable pub scope : List String → List DiscoveryPort → List Probe
  unfolding for_each_host probes_on
  scope [] ports = []
  scope (cidr ∷ cidrs) ports = probes_on (for_each_host cidr (λ _. true)) ports ++ scope cidrs ports
