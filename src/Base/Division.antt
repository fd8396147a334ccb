-- ===== src/Base/Division.antt =====
-- Facts on `a / b` over the native numbers.
use Prim.Native.Nat.{ℕ, ◌/◌, ◌≤◌, ◌<◌}
use native.Mathlib.Nat.{div-mul-le_self, le-div_iff_mul-le, le_trans}

pub div_mono : (a b d : ℕ) → 0 < d → a ≤ b → a / d ≤ b / d
div_mono a b d h ab = (le-div_iff_mul-le h).1 (le_trans (div-mul-le_self a d) ab)
