-- ===== src/Discovery/Scope.antt =====
-- The addresses and the probes of a scan.
use Prim.Native.Nat.{◌*◌, ◌/◌}
use Prim.Native.Nat.mul
use native.Mathlib.Nat.{mod-add-div', mod-lt, one-le-pow, mul-le-mul_right, add-mul}
use device_management_platfo.Base.{
  ℕ, zero, suc, ◌+◌, ◌-◌, ◌%◌, ◌^◌, ◌≤◌, ◌<◌, ◌≡◌, refl, sym, arith, inl, inr, String, true, ◌&&◌,
  Option, some, List, [], ◌∷◌, ◌++◌, length, exists, eqb, leb, ltb, Option-cases,
}
use device_management_platfo.Store.{DiscoveryPort}
use device_management_platfo.Discovery.Hosts.{
  Addr, Prefix, masked, visited, probes_of, probes_on, parse_discovery_prefix, count_hosts,
  for_each_host, scope,
}

length-visited : (address n : ℕ) → length (visited (λ _. true) address n) ≡ n
unfolding visited
length-visited address zero = refl
length-visited address (suc n) = rw (length-visited (address + 1) n) refl

length-append : {A : Type 0} (xs ys : List A) → length (xs ++ ys) ≡ length xs + length ys
length-append [] ys = omega arith
length-append (x ∷ xs) ys = ground (arith, length-append xs ys)

length-probes_of :
    (host : ℕ) (ports : List DiscoveryPort) → length (probes_of host ports) ≡ length ports
unfolding probes_of
length-probes_of host [] = refl
length-probes_of host (port ∷ ports) = rw (length-probes_of host ports) refl

length-probes_on :
    (hosts : List ℕ) (ports : List DiscoveryPort)
    → length (probes_on hosts ports) ≡ length hosts * length ports
unfolding probes_on
length-probes_on [] ports = omega arith
length-probes_on (host ∷ hosts) ports =
    rw
      (
        length-append (probes_of host ports) (probes_on hosts ports),
        length-probes_of host ports,
        length-probes_on hosts ports,
      )
      (omega (arith, mul.suc (length hosts) (length ports)))

exists-visited :
    (a address n : ℕ)
    → exists (λ h. eqb h a) (visited (λ _. true) address n) ≡ (leb address a && ltb a (address + n))
unfolding exists visited
exists-visited a address zero = ground arith
exists-visited a address (suc n) = ground (arith, exists-visited a (address + 1) n)

next_block : (p q w : ℕ) → p < q → p * w + w ≤ q * w
next_block p q w h =
    omega (arith, mul-le-mul_right {m = p + 1} {n = q} w (omega arith), add-mul p 1 w)

some-inj : {x y : ℕ} → some x ≡ some y → x ≡ y
some-inj e = ground (arith, e)

-- The block of addresses that begins at a masked address.
in_block : (w a b : ℕ) → 0 < w → (leb (b - b % w) a && ltb a (b - b % w + w)) ≡ eqb (a / w) (b / w)
in_block w a b up = ground (
  arith,
  mod-add-div' a w,
  mod-add-div' b w,
  mod-lt a up,
  mod-lt b up,
  next_block (a / w) (b / w) w,
  next_block (b / w) (a / w) w,
)

module _ (trim : String → String) (parse_addr : String → Option Addr)
    (parse_prefix : String → Option (Addr × ℕ)) where
  -- For a network that parses, the loop calls its function, as long as it returns true, on exactly
  -- the addresses that have the first bits of the network in common with it.
  pub exists-for_each_host :
      (cidr : String) (prefix : Prefix) (a : ℕ)
      → parse_discovery_prefix trim parse_addr parse_prefix cidr ≡ some prefix
      → exists (λ h. eqb h a) (for_each_host trim parse_addr parse_prefix cidr (λ _. true))
        ≡ eqb (a / 2 ^ (32 - prefix.bits)) (prefix.addr / 2 ^ (32 - prefix.bits))
  unfolding for_each_host masked
  exists-for_each_host cidr prefix a parsed =
      rw
        (
          for_each_host,
          parsed,
          exists-visited a (prefix.addr - prefix.addr % 2 ^ (32 - prefix.bits))
              (2 ^ (32 - prefix.bits)),
        )
        (in_block (2 ^ (32 - prefix.bits)) a prefix.addr
          (omega (arith, one-le-pow (32 - prefix.bits) 2 (omega arith))))

  -- The number of probes that a run hands out is the number of hosts, as Start counts them, times
  -- the number of ports.
  pub length-scope :
      (cidrs : List String) (ports : List DiscoveryPort) (n : ℕ)
      → count_hosts trim parse_addr parse_prefix cidrs ≡ some n
      → length (scope trim parse_addr parse_prefix cidrs ports) ≡ n * length ports
  unfolding count_hosts scope for_each_host
  length-scope [] ports n e = ground (arith, mul.zero (length ports))
  length-scope (cidr ∷ cidrs) ports n e =
      elim (Option-cases (parse_discovery_prefix trim parse_addr parse_prefix cidr)) [
        | inl failed ↦ cc (rw (count_hosts, failed) at e)
        | inr (prefix, parsed) ↦
            elim (Option-cases (count_hosts trim parse_addr parse_prefix cidrs)) [
              | inl failed ↦ cc (rw (count_hosts, parsed, failed) at e)
              | inr (m, counted) ↦
                  (let sum : 2 ^ (32 - prefix.bits) + m ≡ n =
                      some-inj (rw (count_hosts, parsed, counted) at e) in
                    let first = (masked prefix).addr in
                    rw
                      (
                        for_each_host,
                        parsed,
                        length-append
                            (probes_on (visited (λ _. true) first (2 ^ (32 - prefix.bits))) ports)
                            (scope trim parse_addr parse_prefix cidrs ports),
                        length-probes_on (visited (λ _. true) first (2 ^ (32 - prefix.bits))) ports,
                        length-visited first (2 ^ (32 - prefix.bits)),
                        length-scope cidrs ports m counted,
                        sym sum,
                      )
                      (sym (add-mul (2 ^ (32 - prefix.bits)) m (length ports))))
            ]
      ]
