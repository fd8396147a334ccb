-- ===== src/Tests/Formatters.antt =====
-- A decimal printer, and an amount of tokens that it formats.
use sur_protocol_solana.Base.{ℕ, zero, suc, ◌+◌, ◌/◌, ◌%◌, [], ◌∷◌, ◌++◌, Bytes, ltb, if◌then◌else◌}

-- At most one digit more than the fuel; `digits` has enough.
digits_by : ℕ → ℕ → Bytes
digits_by zero n = (48 + n % 10) ∷ []
digits_by (suc fuel) n =
    let rest = digits_by fuel (n / 10) in
    if ltb n 10 then (48 + n % 10) ∷ [] else rest ++ ((48 + n % 10) ∷ [])

digits : ℕ → Bytes
unfolding digits_by
digits n = digits_by n n
