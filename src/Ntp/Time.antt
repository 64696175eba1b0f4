-- ===== src/Ntp/Time.antt =====
-- Conversions of timestamps, core/encoding/ntp.ts.
use bunatv.Prelude.{ℕ, ◌+◌, ◌-◌, ◌*◌, ◌/◌, ◌%◌, ◌^◌, ◌<◌, ◌≡◌, ap, ap₂, ◌≤◌, ◌↔◌, ◌∙◌, arith}
use bunatv.Prelude.Int.{ℤ, pos, minus, minus_lem}
use bunatv.Ntp.{
  ntp_unix_epoch_offset, fraction_scale, from_unix_millis, remainder_millis, to_unix_millis, parts,
  combine,
}

remainder_millis-scaled : (r : ℕ) → r < 1000 → remainder_millis ((r * fraction_scale) / 1000) ≡ r
unfolding remainder_millis
remainder_millis-scaled r h = omega arith

-- A timestamp by its seconds and its fraction.
to_unix_millis-parts :
    (number : ℤ → ℤ) (seconds fraction millis rest : ℕ)
    → fraction < 2 ^ 32
    → remainder_millis fraction ≡ rest
    → seconds * 1000 + rest ≡ millis + ntp_unix_epoch_offset * 1000
    → to_unix_millis number (seconds * 2 ^ 32 + fraction) ≡ number (pos millis)
unfolding to_unix_millis
to_unix_millis-parts number seconds fraction millis rest h e f = ap number (
    ap₂ (λ s r. minus (s * 1000 + remainder_millis r) (ntp_unix_epoch_offset * 1000)) (omega arith)
      (omega arith)
    ∙ minus_lem (seconds * 1000 + remainder_millis fraction) (ntp_unix_epoch_offset * 1000) millis
        (omega arith))

-- Where `Number` is exact on the integers up to 2 ^ 53, every Unix time in milliseconds from 0 to 2 ^ 53
-- becomes an NTP timestamp and comes back as it was, the rounding of the fraction included; and the
-- timestamp has 64 bits exactly for the times before 2085978496000, in February 2036.
pub to_unix_millis-from_unix_millis :
    (number : ℤ → ℤ) (ms : ℕ)
    → ((n : ℕ) → n ≤ 2 ^ 53 → number (pos n) ≡ pos n)
    → ms ≤ 2 ^ 53
    → (to_unix_millis number (from_unix_millis ms) ≡ pos ms)
      × ((from_unix_millis ms < 2 ^ 64) ↔ (ms < 2085978496000))
unfolding from_unix_millis
to_unix_millis-from_unix_millis number ms exact h =
    let r = ms - ms / 1000 * 1000 in
    (
      to_unix_millis-parts number (ms / 1000 + ntp_unix_epoch_offset) (r * fraction_scale / 1000) ms
            r (omega arith) (remainder_millis-scaled r (omega arith)) (omega arith)
          ∙ exact ms h,
      (λ l. omega arith, λ l. omega arith),
    )

-- Splitting a 64-bit timestamp and combining its parts gives it back.
pub combine-parts : (ntp : ℕ) → ntp < 2 ^ 64 → combine ((parts ntp).0) ((parts ntp).1) ≡ ntp
unfolding combine parts
combine-parts ntp h = omega arith

-- The parts of a combined timestamp are the two numbers, cut to 32 bits.
pub parts-combine :
    (seconds fraction : ℕ)
    → parts (combine seconds fraction) ≡ (seconds % 2 ^ 32, fraction % 2 ^ 32)
unfolding combine parts
parts-combine seconds fraction = ap₂ (λ a b. (a, b)) (omega arith) (omega arith)
