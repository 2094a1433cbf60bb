-- ===== src/Examples/Registry.antt =====
-- The agent registry at concrete inputs.
use asolaria_os.Prelude.{
  suc, ◌≡◌, refl, List, [], ◌∷◌, map, Bytes, bytes, same, false, ok, err, arith,
}
use asolaria_os.Access.{public_tier}
use asolaria_os.Agents.{invalid_state_transition}
use asolaria_os.Agents.Registry.{
  AgentRegistry, registry_new, hermes, acer, virtual_pointer, register, retire, retire_first,
  stamp_first, heartbeat, count, count_if, mint_agent_pid, fresh_entry,
}
use asolaria_os.Agents.Counts.{
  Call, spawn_call, real_call, heartbeat_call, launch_call, run, IsRegistry,
}
use asolaria_os.Agents.Bounded.{run-new-IsRegistry}
use asolaria_os.Agents.Lifecycle.{identity, Extends, run-Extends, heartbeat-retire, register-retire}
use asolaria_os.Agents.Race.{fresh, run_calls, IsFair}
use asolaria_os.Agents.Race.Fair.{run_calls-fresh-IsFair}

-- The first identifier, of a coordinator on one vantage.
abbrev first_pid : Bytes
unfolding mint_agent_pid
first_pid = mint_agent_pid 1 hermes acer public_tier

abbrev calls : List Call
calls =
    spawn_call hermes acer public_tier
    ∷ heartbeat_call first_pid 7
    ∷ real_call hermes acer public_tier false
    ∷ launch_call
    ∷ []

run-new-IsRegistry_example : IsRegistry (run calls registry_new)
run-new-IsRegistry_example = run-new-IsRegistry calls

abbrev one_agent : AgentRegistry
one_agent = record registry_new {
  entries = fresh_entry (bytes "AGT-ACER-HRM-H1") hermes acer public_tier virtual_pointer ∷ [];
}

run-Extends_example :
    Extends (map identity (registry_new).entries) (map identity (run calls registry_new).entries)
run-Extends_example = run-Extends calls registry_new

heartbeat-retire_example :
    heartbeat (bytes "AGT-ACER-HRM-H1") 9 (retire (bytes "AGT-ACER-HRM-H1") one_agent).1
    ≡ (err invalid_state_transition, (retire (bytes "AGT-ACER-HRM-H1") one_agent).1)
unfolding retire retire_first same
heartbeat-retire_example = heartbeat-retire (bytes "AGT-ACER-HRM-H1") 9 one_agent refl

register-retire_example :
    (suc (count (retire (bytes "AGT-ACER-HRM-H1") one_agent).1) ≡ count one_agent)
    × ((q : Bytes) × ((register hermes acer public_tier virtual_pointer
            (retire (bytes "AGT-ACER-HRM-H1") one_agent).1).0
          ≡ ok q))
unfolding heartbeat stamp_first same count count_if
register-retire_example =
    register-retire (bytes "AGT-ACER-HRM-H1") 9 one_agent hermes acer public_tier virtual_pointer
      (omega arith) refl

-- Two calls whose accesses interleave.
run_calls-fresh-IsFair_example : IsFair (run_calls (fresh 2) (0 ∷ 1 ∷ 0 ∷ []))
run_calls-fresh-IsFair_example = run_calls-fresh-IsFair 2 (0 ∷ 1 ∷ 0 ∷ []) (omega arith)
