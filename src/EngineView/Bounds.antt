-- ===== src/EngineView/Bounds.antt =====
-- The arithmetic of the liquidation price, with the rounding of each division.
use sur_protocol_solana.Base.{ℕ, ◌+◌, ◌*◌, ◌/◌, ◌<◌, ◌≤◌, arith}
use sur_protocol_solana.Base.Division.{div_mono}
use native.Mathlib.Nat.{mul-le-mul_right, div-mul-le_self, lt-div-mul-add, le_trans, add-mul}
use sur_protocol_solana.EngineView.View.{size_precision, bps, margin_of}

-- The maintenance margin of a magnitude `a` at a price.
abbrev pub maint : ℕ → ℕ → ℕ → ℕ
maint price a k = margin_of (price * a / size_precision) k

-- How far the price may move before a buffer is used up.
abbrev pub move_of : ℕ → ℕ → ℕ
move_of buffer a = buffer * size_precision / a

pub maint_mono : (p q a k : ℕ) → p ≤ q → maint p a k ≤ maint q a k
unfolding margin_of
maint_mono p q a k h =
    div_mono _ _ bps (omega arith)
      (mul-le-mul_right k (div_mono _ _ size_precision (omega arith) (mul-le-mul_right a h)))

-- A move within the buffer costs at most the buffer.
pub within_buffer : (x buffer a : ℕ) → x ≤ move_of buffer a → x * a / size_precision ≤ buffer
within_buffer x buffer a h =
    omega (arith, le_trans (mul-le-mul_right a h) (div-mul-le_self (buffer * size_precision) a))

-- A move past the buffer, by all but `j` of it and one, costs the buffer but for what `j` is worth.
pub past_buffer :
    (x j buffer a : ℕ)
    → 0 < a
    → move_of buffer a < x + j
    → buffer ≤ x * a / size_precision + j * a / size_precision + 1
past_buffer x j buffer a ha h = omega (
  arith,
  lt-div-mul-add {a = buffer * size_precision} ha,
  mul-le-mul_right a h,
  add-mul x j a,
  add-mul (move_of buffer a) 1 a,
)

pub past_whole_buffer :
    (x buffer a : ℕ) → 0 < a → move_of buffer a < x → buffer ≤ x * a / size_precision
past_whole_buffer x buffer a ha h = omega (
  arith,
  lt-div-mul-add {a = buffer * size_precision} ha,
  mul-le-mul_right a h,
  add-mul (move_of buffer a) 1 a,
)
