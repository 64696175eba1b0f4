-- ===== src/Tests/Recovery.antt =====
-- A run of RecoveryManager.ts: the sixth call succeeds, and two attempts are allowed.
use bunatv.Prelude.{ℕ, ◌≡◌, refl, [], arith, some, Bool, leb, lt→leb}
use bunatv.Recovery.{RecoveryManager, Options, new_manager, run_with_recovery}
use bunatv.Recovery.Attempts.{run_with_recovery_ends}

abbrev options : Options
options = record { max_attempts = 2; delay = 100 }

abbrev from_sixth : ℕ → Bool
from_sixth n = leb 5 n

run_with_recovery_ends_example :
    (r : RecoveryManager) × (run_with_recovery from_sixth options 12 new_manager ≡ some r)
    × (r.calls ≡ 6)
    × (r.attempts ≡ 0)
    × (r.errors ≡ [])
run_with_recovery_ends_example =
    run_with_recovery_ends from_sixth options 5 (λ n below. lt→leb 5 n below) refl (omega arith) 12
      (omega arith)
