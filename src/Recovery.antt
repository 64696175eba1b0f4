-- ===== src/Recovery.antt =====
-- RecoveryManager of core/utils/RecoveryManager.ts: a function is called again and again, after waits that
-- double. The timer that `reset` clears is never set, and is left out.
use bunatv.Prelude.{
  ℕ, zero, suc, ◌+◌, ◌-◌, ◌*◌, ◌^◌, List, [], ◌∷◌, ◌++◌, Option, none, some, Bool, true, false, leb,
  if◌then◌else◌,
}
pub mod Attempts

-- What `runWithRecovery` catches: the error of a call, by the number of the call, and the `RecoveryError`,
-- which does not keep the errors that it is given.
pub data Failure : Type 0 where
  call_failed : ℕ → Failure
  max_attempts_reached : Failure

-- The fields, the number of calls of the function so far, and the waits.
pub record RecoveryManager : Type 0 where
  pub attempts : ℕ
  pub errors : List Failure
  pub calls : ℕ
  pub waits : List ℕ

pub record Options : Type 0 where
  pub max_attempts : ℕ
  pub delay : ℕ

abbrev pub new_manager : RecoveryManager
new_manager = record { attempts = 0; errors = []; calls = 0; waits = [] }

unfoldable pub reset : RecoveryManager → RecoveryManager
reset r = record r { attempts = 0; errors = [] }

-- The wait and the call of one attempt.
unfoldable pub attempted : Options → RecoveryManager → RecoveryManager
attempted options r = record r {
  attempts = r.attempts + 1;
  calls = r.calls + 1;
  waits = r.waits ++ options.delay * 2 ^ (r.attempts + 1 - 1) ∷ [];
}

-- `this.errors.push(error)`
unfoldable pub push_error : Failure → RecoveryManager → RecoveryManager
push_error failure r = record r { errors = r.errors ++ failure ∷ [] }

-- `succeeds n` says whether call `n` of the function, counted from 0, resolves.
module _ (succeeds : ℕ → Bool) (options : Options) where
  -- The manager afterwards, and what was thrown.
  unfoldable pub run : RecoveryManager → RecoveryManager × Option Failure
  unfolding reset attempted
  run r =
      if leb options.max_attempts r.attempts
      then (reset r, some max_attempts_reached)
      else if succeeds r.calls
      then (reset (attempted options r), none)
      else (attempted options r, some (call_failed r.calls))

  -- For a number of rounds; `none` if they are used up. It never rejects.
  unfoldable pub run_with_recovery : ℕ → RecoveryManager → Option RecoveryManager
  unfolding push_error
  run_with_recovery zero r = none
  run_with_recovery (suc rounds) r =
      let (r', thrown) = run r in
      elim thrown [
        | none ↦ some r'
        | some failure ↦ run_with_recovery rounds (push_error failure r')
      ]
