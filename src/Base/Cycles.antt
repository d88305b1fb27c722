-- ===== src/Base/Cycles.antt =====
-- Going round `n` places, one at a time: the step `(i + 1) % n` of the screen and image rotations.
use Prim.Native.Nat.{ℕ, zero, suc, ◌+◌, ◌-◌, ◌%◌, ◌<◌, ◌≤◌}
use mathlib.Core.Path.{◌≡◌, ap, sym, ◌∙◌}
use native.Mathlib.Omega.{arith}
use native.Mathlib.Nat.{mod-lt, mod-eq_of_lt, mod-add-mod, add-mod_right}
use native.Mathlib.Decide.{dec_le}

abbrev pub next : ℕ → ℕ → ℕ
next n i = (i + 1) % n

unfoldable pub spin : ℕ → ℕ → ℕ → ℕ
spin n zero i = i
spin n (suc k) i = spin n k (next n i)

pub spin-eq-mod : (n k i : ℕ) → i < n → spin n k i ≡ (i + k) % n
unfolding spin
spin-eq-mod n zero i h = sym (ap (λ m. m % n) (omega arith) ∙ mod-eq_of_lt h)
spin-eq-mod n (suc k) i h =
    spin-eq-mod n k (next n i) (mod-lt (i + 1) (omega arith))
    ∙ mod-add-mod (i + 1) n k
    ∙ ap (λ m. m % n) (omega arith)

-- From any place every place is reached within one round.
pub spin_reaches : (n i j : ℕ) → i < n → j < n → (k : ℕ) × (k < n) × (spin n k i ≡ j)
spin_reaches n i j hi hj = elim (dec_le i j) [
  | yes p ↦ (
    j - i,
    omega arith,
    spin-eq-mod n (j - i) i hi ∙ ap (λ m. m % n) (omega arith) ∙ mod-eq_of_lt hj,
  )
  | no p ↦ (
    j + n - i,
    omega arith,
    spin-eq-mod n (j + n - i) i hi
        ∙ ap (λ m. m % n) (ahead p)
        ∙ add-mod_right j n
        ∙ mod-eq_of_lt hj,
  )
]
  where
    ahead : ¬ (i ≤ j) → i + (j + n - i) ≡ j + n
    ahead p = omega arith
