-- ===== src/Examples/Scans.antt =====
-- The theorems on scans at concrete data.
use Prim.Native.Nat.{◌*◌, ◌/◌}
use device_management_platfo.Base.{
  ℕ, pos, ◌-◌, ◌^◌, ◌≡◌, ◌≤◌, ◌<◌, refl, String, Bool, true, false, ◌==◌, Option, some, none, [],
  ◌∷◌, if◌then◌else◌, find, exists, eqb, length, lookup, insert,
}
use device_management_platfo.Store.{Db, DiscoveryJob, DiscoveryPort, second}
use device_management_platfo.Store.Discovery.{
  DiscoveryProbeResult, is_open, is_final, discovery_job, set_discovery_job_state,
}
use device_management_platfo.Store.Discovery.Machine.{
  JobStep, Pairwise, set_discovery_job_state-JobStep,
}
use device_management_platfo.Discovery.Hosts.{
  Addr, v4, parse_discovery_prefix, for_each_host, count_hosts, scope,
}
use device_management_platfo.Discovery.Scope.{exists-for_each_host}
use device_management_platfo.Discovery.Run.{Outside, start, run}
use device_management_platfo.Discovery.Outcome.{Ended, run_lem}
use device_management_platfo.Discovery.Register.{start_lem}
use device_management_platfo.Examples.{sample}

abbrev port_22 : DiscoveryPort
port_22 = record { name = "SSH"; protocol = "ssh"; port = 22 }

abbrev job : DiscoveryJob
job = record {
  id = "j1";
  project_id = "p1";
  networks = "10.0.0.0/30" ∷ [];
  ports = port_22 ∷ [];
  status = "queued";
  progress = 0;
  created_at = 0;
  started_at = none;
  finished_at = none;
}

abbrev scans : Db
scans = record sample { discovery_jobs = job ∷ record job { id = "j2"; status = "failed" } ∷ [] }

-- The parsers on the one network of the job: 167772160 is 10.0.0.0.
abbrev same_text : String → String
same_text s = s

abbrev no_addr : String → Option Addr
no_addr s = none

abbrev slash_30 : String → Option (Addr × ℕ)
slash_30 s = if s == "10.0.0.0/30" then some (v4 167772161, 30) else none

abbrev ssh_found : DiscoveryProbeResult
ssh_found = record {
  host = "10.0.0.1";
  port = 22;
  protocol = "ssh";
  service_name = "SSH";
  fingerprint = "SSH-2.0-x";
  response_summary = "SSH-2.0-x";
  confidence = 98;
}

abbrev outside : Outside
outside = record {
  live = true;
  tunnel = true;
  route = true;
  deliveries =
      record { result = some ssh_found; result_id = "r1"; now = 2 * second }
      ∷ record { result = none; result_id = "r2"; now = 3 * second }
      ∷ [];
  canceled = true;
  started = second;
  finished = 4 * second;
}

exists-for_each_host_example :
    exists
      (λ h. eqb h 167772163)
      (for_each_host same_text no_addr slash_30 "10.0.0.0/30" (λ _. true))
    ≡ eqb (167772163 / 2 ^ (32 - 30)) (167772160 / 2 ^ (32 - 30))
unfolding parse_discovery_prefix
exists-for_each_host_example =
    exists-for_each_host same_text no_addr slash_30 "10.0.0.0/30"
      (record { addr = 167772160; bits = 30 }) 167772163 refl

start_lem_example :
    (0 < 7)
    × (lookup {V = Bool} "j1" [] ≡ none)
    × (lookup "j1" (("j1", false) ∷ []) ≡ some false)
    × (length (scope same_text no_addr slash_30 job.networks job.ports) ≡ 4)
    × (0 < 4)
    × (4 ≤ 2_000_000)
unfolding start count_hosts lookup insert
start_lem_example =
    start_lem same_text no_addr slash_30 job 7 (record { cancels = [] })
      (record { cancels = ("j1", false) ∷ [] }) 4 refl

set_discovery_job_state-JobStep_example :
    Pairwise JobStep scans.discovery_jobs
      (set_discovery_job_state "j1" "canceled" (pos 120) 9 scans).0.discovery_jobs
unfolding is_final
set_discovery_job_state-JobStep_example =
    set_discovery_job_state-JobStep "j1" "canceled" (pos 120) 9 scans refl

run_lem_example : Ended "j1" 4 outside job scans (run "j1" 4 outside scans)
unfolding discovery_job find is_open
run_lem_example = run_lem "j1" 4 outside scans job refl refl
