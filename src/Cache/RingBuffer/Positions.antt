-- ===== src/Cache/RingBuffer/Positions.antt =====
-- Remainders of positions in the ring.
use native.Mathlib.Decide.{dec_lt}
use native.Mathlib.Nat.{mod-add-div, mod-add-mod, mod-eq-sub-mod}
use quantstack_terminal.Common.{ℕ, ◌+◌, ◌-◌, ◌*◌, ◌/◌, ◌%◌, ◌≤◌, ◌<◌, ◌≡◌, ◌≢◌, ◌∙◌, ap, arith}

pub mul_le : (c a b : ℕ) → a ≤ b → c * a ≤ c * b
mul_le c a b h = grind arith

pub mul_gap : (c a b : ℕ) → a < b → c * a + c ≤ c * b
mul_gap c a b h = let more = mul_le c (a + 1) b (omega arith) in omega arith

-- Two indices less than the capacity apart fall on different places.
pub mod_apart : (n i c : ℕ) → i < n → n < i + c → i % c ≢ n % c
mod_apart n i c lt near same =
    let at_n = mod-add-div n c in
    let at_i = mod-add-div i c in
    elim (dec_lt (i / c) (n / c)) [
      | yes less ↦
          let gap : c * (i / c) + c ≤ c * (n / c) = mul_gap c (i / c) (n / c) less in omega arith
      | no more ↦
          let few : c * (n / c) ≤ c * (i / c) = mul_le c (n / c) (i / c) (omega arith) in
          omega arith
    ]

pub mod_shift : (n i c : ℕ) → 0 < c → c ≤ n → (n % c + i) % c ≡ ((n - c) + i) % c
mod_shift n i c pos le =
    let moved : (n + i) - c ≡ (n - c) + i = omega arith in
    mod-add-mod n c i
    ∙ mod-eq-sub-mod {n = n + i} {m = c} (omega arith)
    ∙ ap (λ (k : ℕ). k % c) moved
