-- ===== src/Recovery/Attempts.antt =====
-- When `runWithRecovery` of core/utils/RecoveryManager.ts ends.
use bunatv.Prelude.{
  ℕ, zero, suc, ◌+◌, ◌*◌, ◌≤◌, ◌<◌, ◌≡◌, refl, ap, ◌∙◌, [], arith, none, some, Bool, true, false,
  Bool-cases, inl, inr, leb, leb→le, le→leb, lt→leb,
}
use bunatv.Recovery.{
  Failure, call_failed, max_attempts_reached, RecoveryManager, Options, new_manager, reset,
  attempted, run, push_error, run_with_recovery,
}

module _ (succeeds : ℕ → Bool) (options : Options) where
  run_exhausted :
      (r : RecoveryManager)
      → options.max_attempts ≤ r.attempts
      → run succeeds options r ≡ (reset r, some max_attempts_reached)
  unfolding run
  run_exhausted r h = rw (le→leb options.max_attempts r.attempts h)

  run_succeeds :
      (r : RecoveryManager)
      → r.attempts < options.max_attempts
      → succeeds r.calls ≡ true
      → run succeeds options r ≡ (reset (attempted options r), none)
  unfolding run
  run_succeeds r h e = rw (lt→leb options.max_attempts r.attempts h, e)

  run_fails :
      (r : RecoveryManager)
      → r.attempts < options.max_attempts
      → succeeds r.calls ≡ false
      → run succeeds options r ≡ (attempted options r, some (call_failed r.calls))
  unfolding run
  run_fails r h e = rw (lt→leb options.max_attempts r.attempts h, e)

  round_caught :
      (rounds : ℕ) (r r' : RecoveryManager) (failure : Failure)
      → run succeeds options r ≡ (r', some failure)
      → run_with_recovery succeeds options (suc rounds) r
        ≡ run_with_recovery succeeds options rounds (push_error failure r')
  unfolding run_with_recovery
  round_caught rounds r r' failure e = rw (e, e, run_with_recovery)

  round_resolved :
      (rounds : ℕ) (r r' : RecoveryManager)
      → run succeeds options r ≡ (r', none)
      → run_with_recovery succeeds options (suc rounds) r ≡ some r'
  unfolding run_with_recovery
  round_resolved rounds r r' e = rw (e, e, run_with_recovery)

  module _ (k : ℕ) (failing : (n : ℕ) → n < k → succeeds n ≡ false) (success : succeeds k ≡ true)
      (allowed : 0 < options.max_attempts) where
    -- The function has been called up to its first success, and the manager is reset.
    abbrev Ends : ℕ → RecoveryManager → Type 0
    Ends rounds r =
        (r' : RecoveryManager) × (run_with_recovery succeeds options rounds r ≡ some r')
        × (r'.calls ≡ k + 1)
        × (r'.attempts ≡ 0)
        × (r'.errors ≡ [])

    -- With `d` calls to fail, from a state in which the next attempt is allowed, and from any state.
    abbrev EndsAllowed : ℕ → Type 0
    EndsAllowed d =
        (rounds : ℕ) (r : RecoveryManager)
        → r.attempts < options.max_attempts
        → r.calls + d ≡ k
        → 2 * d + 1 ≤ rounds
        → Ends rounds r

    any_state :
        (d : ℕ)
        → EndsAllowed d
        → (rounds : ℕ) (r : RecoveryManager) → r.calls + d ≡ k
        → 2 * d + 2 ≤ rounds
        → Ends rounds r
    unfolding push_error reset
    any_state d ends zero r e enough = absurd (omega arith)
    any_state d ends (suc rounds) r e enough =
        elim (Bool-cases (leb options.max_attempts r.attempts)) [
          | inl exhausted ↦
              let (r', f, calls, attempts, errors) =
                ends rounds (push_error max_attempts_reached (reset r)) allowed e (omega arith) in
              (
                r',
                round_caught rounds r (reset r) max_attempts_reached
                      (run_exhausted r (leb→le options.max_attempts r.attempts exhausted))
                    ∙ f,
                calls,
                attempts,
                errors,
              )
          | inr below ↦ ends (suc rounds) r (ground arith) e (omega arith)
        ]

    allowed_state : (d : ℕ) → EndsAllowed d
    unfolding push_error attempted reset
    allowed_state d zero r h e enough = absurd (omega arith)
    allowed_state zero (suc rounds) r h e enough = (
      reset (attempted options r),
      round_resolved rounds r (reset (attempted options r))
          (run_succeeds r h (ap succeeds (omega arith) ∙ success)),
      omega arith,
      refl,
      refl,
    )
    allowed_state (suc d) (suc rounds) r h e enough =
        let (r', f, calls, attempts, errors) =
          any_state d (allowed_state d) rounds
            (push_error (call_failed r.calls) (attempted options r)) (omega arith) (omega arith) in
        (
          r',
          round_caught rounds r (attempted options r) (call_failed r.calls)
                (run_fails r h (failing r.calls (omega arith)))
              ∙ f,
          calls,
          attempts,
          errors,
        )

    -- If at least one attempt is allowed, runWithRecovery goes on until the function first succeeds, however many
    -- attempts that takes, and resets the manager; two rounds for each of its calls are enough.
    pub run_with_recovery_ends :
        (rounds : ℕ)
        → 2 * k + 2 ≤ rounds
        → (r : RecoveryManager) × (run_with_recovery succeeds options rounds new_manager ≡ some r)
          × (r.calls ≡ k + 1)
          × (r.attempts ≡ 0)
          × (r.errors ≡ [])
    run_with_recovery_ends rounds enough =
        any_state k (allowed_state k) rounds new_manager (omega arith) enough
