-- ===== src/SchedDs/Modulo/Remainder.antt =====
-- __moddi3 of ass1ds.cpp against the remainder.
use os_system_calls_scheduli.Base.{ℕ, ◌-◌, ◌%◌, ◌^◌, ltb, if◌then◌else◌}

-- The absolute value of a long long.
abbrev pub absolute : ℕ → ℕ
absolute w = if ltb w (2 ^ 63) then w else 2 ^ 64 - w

-- The remainder of the absolute values, with the sign of the number.
abbrev pub remainder : ℕ → ℕ → ℕ
remainder number divisor =
    let r = absolute number % absolute divisor in
    if ltb number (2 ^ 63) then r else (2 ^ 64 - r) % 2 ^ 64
