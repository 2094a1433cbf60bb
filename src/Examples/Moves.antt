-- ===== src/Examples/Moves.antt =====
-- Moves between tiers, port labels and the fallback ranking at concrete inputs.
use asolaria_os.Prelude.{◌+◌, ◌<◌, ◌≡◌, List, [], ◌∷◌, length, ok, arith}
use asolaria_os.Prelude.{u64}
use asolaria_os.Access.{public_tier, restricted, sovereignty}
use asolaria_os.TierGate.{deny, check}
use asolaria_os.Highway.{TransitRequest, execute}
use asolaria_os.Highway.Moves.{issued, upward, issued-upward, execute_into_sovereignty}
use asolaria_os.BusFabric.{PortLabel}
use asolaria_os.Gnn.{fallback_score}
use asolaria_os.Gnn.Ranking.{fallback_score_wraps}

abbrev moves : List TransitRequest
moves =
    record { from_tier = public_tier; to_tier = restricted; envelope_size = 128 }
    ∷ record { from_tier = public_tier; to_tier = public_tier; envelope_size = 128 }
    ∷ record { from_tier = restricted; to_tier = public_tier; envelope_size = 64 }
    ∷ []

issued-upward_example : issued moves 1 ≡ upward 1 (length (issued moves 1))
issued-upward_example = issued-upward moves 1 (omega arith)

execute_into_sovereignty_example :
    (execute (record { from_tier = public_tier; to_tier = sovereignty; envelope_size = 128 }) 4
      ≡ (ok 4, u64 (4 + 1)))
    × (check public_tier sovereignty ≡ deny)
execute_into_sovereignty_example =
    execute_into_sovereignty public_tier 128 4 (λ e. cc) (omega arith)

abbrev port : PortLabel
port = record { levels = 3 ∷ 1023 ∷ [] }

fallback_score_wraps_example : fallback_score 0 < fallback_score 1001
fallback_score_wraps_example = fallback_score_wraps 1001 (omega arith) (omega arith)
