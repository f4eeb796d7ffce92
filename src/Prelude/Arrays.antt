-- ===== src/Prelude/Arrays.antt =====
-- Arrays as functions of their index.
use Prim.Native.Nat.{ℕ}
use mathlib.Core.Path.{◌≡◌}
use native.Mathlib.Omega.{arith}
use wl_hosted_core.Prelude.Tests.{◌==◌, if◌then◌else◌}

-- `array[k] = v`
abbrev pub update {ℓ} : {A : Type ℓ} → (ℕ → A) → ℕ → A → ℕ → A
update f k v j = if j == k then v else f j

module _ {ℓ} {A : Type ℓ} (f : ℕ → A) (v : A) where
  pub update_same : (k : ℕ) → update f k v k ≡ v
  update_same k = ground arith

  pub update_other : (k j : ℕ) → ¬ j ≡ k → update f k v j ≡ f j
  update_other k j other = ground arith
