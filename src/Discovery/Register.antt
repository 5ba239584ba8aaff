-- ===== src/Discovery/Register.antt =====
-- What a start promises, and what a saved result is.
use Prim.Native.Nat.{◌*◌}
use native.Mathlib.Nat.{mul-pos}
use device_management_platfo.Base.{
  ℕ, ◌≡◌, ◌≤◌, ◌<◌, refl, arith, String, false, Option, none, some, length, lookup, insert,
  lookup-insert_self, Option-cases, inl, inr, ok, ◌∙◌, sym,
}
use device_management_platfo.Store.{DiscoveryJob}
use device_management_platfo.Discovery.Hosts.{Addr, scope, count_hosts}
use device_management_platfo.Discovery.Scope.{length-scope}
use device_management_platfo.Discovery.Run.{DiscoveryManager, start}

start-cases :
    (job : DiscoveryJob) (client_id : ℕ) (hosts : Option ℕ) (m m' : DiscoveryManager) (total : ℕ)
    → start job client_id hosts m ≡ ok (m', total)
    → (n : ℕ) × (hosts ≡ some n)
      × (total ≡ n * length job.ports)
      × (0 < n)
      × (0 < length job.ports)
      × (total ≤ 2_000_000)
      × (0 < client_id)
      × (lookup job.id m.cancels ≡ none)
      × (m'.cancels ≡ insert job.id false m.cancels)
unfolding start
start-cases job client_id hosts m m' total e = elim (Option-cases hosts) [
  | inl failed ↦ ground (arith, failed)
  | inr (n, counted) ↦
      (let per = rw counted at e in
        (
          n,
          counted,
          ground arith,
          ground arith,
          ground arith,
          ground arith,
          ground arith,
          ground arith,
          ground arith,
        ))
]

module _ (trim : String → String) (parse_addr : String → Option Addr)
    (parse_prefix : String → Option (Addr × ℕ)) where
  -- A start that succeeds was given a bound client and a job with no run in progress, which is in
  -- progress from then on; its total is the number of probes that the run hands out for the networks
  -- and ports of the job, between 1 and 2000000.
  pub start_lem :
      (job : DiscoveryJob) (client_id : ℕ) (m m' : DiscoveryManager) (total : ℕ)
      → start job client_id (count_hosts trim parse_addr parse_prefix job.networks) m
        ≡ ok (m', total)
      → (0 < client_id)
        × (lookup job.id m.cancels ≡ none)
        × (lookup job.id m'.cancels ≡ some false)
        × (length (scope trim parse_addr parse_prefix job.networks job.ports) ≡ total)
        × (0 < total)
        × (total ≤ 2_000_000)
  start_lem job client_id m m' total e =
      let (n, counted, product, some_hosts, some_ports, bound, client, absent, entered) =
        start-cases job client_id (count_hosts trim parse_addr parse_prefix job.networks) m m' total
          e in
      (
        client,
        absent,
        rw (entered, lookup-insert_self job.id false m.cancels) refl,
        length-scope trim parse_addr parse_prefix job.networks job.ports n counted ∙ sym product,
        rw product (mul-pos some_hosts some_ports),
        bound,
      )
