-- ===== src/Encryption/Nonces.antt =====
-- The nonces of createNonce, core/encoding/buffer-utils.ts.
use bunatv.Prelude.{
  ℕ, ◌^◌, ◌<◌, ◌≡◌, ◌≢◌, sym, ap, ◌∙◌, List, [], ◌∷◌, arith, take, drop, take-append_left,
}
use bunatv.Prelude.Bytes.{to_le, of_le, of_le-to_le, length-to_le}
use bunatv.Encryption.{NonceFormat, companion, hap, create_nonce}

-- The counters that a format has room for.
abbrev pub room : NonceFormat → ℕ
room companion = 2 ^ 32
room hap = 2 ^ 64

-- The counter that is read back from a nonce.
counter_of : NonceFormat → List ℕ → ℕ
counter_of companion nonce = of_le (take 4 nonce)
counter_of hap nonce = of_le (drop 4 nonce)

counter_of-create_nonce :
    (format : NonceFormat) (n : ℕ) → n < room format → counter_of format (create_nonce n format) ≡ n
unfolding counter_of create_nonce
counter_of-create_nonce companion n h =
    ap of_le
      (take-append_left 4 (to_le 4 n) (0 ∷ 0 ∷ 0 ∷ 0 ∷ 0 ∷ 0 ∷ 0 ∷ 0 ∷ []) (sym (length-to_le 4 n)))
    ∙ of_le-to_le 4 n (omega arith)
counter_of-create_nonce hap n h = of_le-to_le 8 n (omega arith)

-- Two different counters that a format has room for, 2 ^ 32 of them for Companion and 2 ^ 64 for HAP,
-- have different nonces.
pub create_nonce-distinct :
    (format : NonceFormat) (m n : ℕ)
    → m < room format
    → n < room format
    → m ≢ n
    → create_nonce m format ≢ create_nonce n format
create_nonce-distinct format m n hm hn other e = other (
    sym (counter_of-create_nonce format m hm)
    ∙ ap (counter_of format) e
    ∙ counter_of-create_nonce format n hn)
