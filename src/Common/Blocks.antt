-- ===== src/Common/Blocks.antt =====
-- Aligned blocks of numbers: powers of two, and what clearing the low bits keeps.
use Prim.Native.Nat.{ℕ, zero, suc, ◌+◌, ◌-◌, ◌*◌, ◌/◌, ◌%◌, ◌^◌, ◌≤◌, ◌<◌}
use mathlib.Core.Path.{◌≡◌, sym, ap, ◌∙◌}
use mathlib.Core.Logic.{◌↔◌}
use native.Mathlib.Omega.{arith}
use native.Mathlib.Nat.{
  two-pow-succ, div-add-mod, mul-mod_right, mod-lt, mod-add-mod, mod-eq_of_lt, mul-div_cancel_left,
}

pub pow_pos : (k : ℕ) → 0 < 2 ^ k
pow_pos zero = omega arith
pow_pos (suc k) = omega (arith, two-pow-succ k, pow_pos k)

pub pow_split : (d j : ℕ) → 2 ^ (d + j) ≡ 2 ^ d * 2 ^ j
pow_split zero j = ap (λ (t : ℕ). 2 ^ t) {x = 0 + j} {y = j} (omega arith) ∙ omega arith
pow_split (suc d) j =
    ap (λ (t : ℕ). 2 ^ t) {x = suc d + j} {y = suc (d + j)} (omega arith)
    ∙ two-pow-succ (d + j)
    ∙ omega (arith, pow_split d j, ap (λ (t : ℕ). t * 2 ^ j) (two-pow-succ d))

pub clear-eq-mul : (m a : ℕ) → a - a % m ≡ m * (a / m)
clear-eq-mul m a = omega (arith, div-add-mod a m)

pub clear-mod : (m a : ℕ) → (a - a % m) % m ≡ 0
clear-mod m a = ap (λ (t : ℕ). t % m) (clear-eq-mul m a) ∙ mul-mod_right m (a / m)

pub clear_twice : (m a : ℕ) → (a - a % m) - (a - a % m) % m ≡ a - a % m
clear_twice m a = omega (arith, clear-mod m a)

pub clear-div : (m a : ℕ) → 0 < m → (a - a % m) / m ≡ a / m
clear-div m a h = ap (λ (t : ℕ). t / m) (clear-eq-mul m a) ∙ mul-div_cancel_left (a / m) h

-- Equal block starts are equal block numbers.
pub clear-eq_iff : (m a b : ℕ) → 0 < m → (a - a % m ≡ b - b % m) ↔ (a / m ≡ b / m)
clear-eq_iff m a b h = (
  λ e. sym (clear-div m a h) ∙ ap (λ (t : ℕ). t / m) e ∙ clear-div m b h,
  λ e. clear-eq-mul m a ∙ ap (λ (t : ℕ). m * t) e ∙ sym (clear-eq-mul m b),
)

-- The block that starts at `s` holds the numbers from `s` on, `m` of them.
pub block_iff : (m s x : ℕ) → 0 < m → s % m ≡ 0 → (x - x % m ≡ s) ↔ ((s ≤ x) × (x < s + m))
block_iff m s x h e = (λ p. omega (arith, mod-lt x h), λ p. omega (arith, offset p.0 p.1))
  where
    offset : s ≤ x → x < s + m → x % m ≡ x - s
    offset p q =
        ap (λ (t : ℕ). t % m) {x = x} {y = s + (x - s)} (omega arith)
        ∙ sym (mod-add-mod s m (x - s))
        ∙ ap (λ (t : ℕ). (t + (x - s)) % m) e
        ∙ ap (λ (t : ℕ). t % m) {x = 0 + (x - s)} {y = x - s} (omega arith)
        ∙ mod-eq_of_lt (omega arith)

-- A multiple of a power of two is one of each smaller power.
pub mod-pow_le : (j k s : ℕ) → j ≤ k → s % 2 ^ k ≡ 0 → s % 2 ^ j ≡ 0
mod-pow_le j k s h e =
    ap (λ (t : ℕ). t % 2 ^ j) multiple ∙ mul-mod_right (2 ^ j) (2 ^ (k - j) * (s / 2 ^ k))
  where
    power : 2 ^ k ≡ 2 ^ (k - j) * 2 ^ j
    power = ap (λ (t : ℕ). 2 ^ t) {x = k} {y = k - j + j} (omega arith) ∙ pow_split (k - j) j

    multiple : s ≡ 2 ^ j * (2 ^ (k - j) * (s / 2 ^ k))
    multiple = omega (arith, div-add-mod s (2 ^ k), e, ap (λ (t : ℕ). t * (s / 2 ^ k)) power)
