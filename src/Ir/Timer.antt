-- ===== src/Ir/Timer.antt =====
-- class IRtimer of FutronixESP8266/IRTransmitter.h, over the 32-bit microsecond counter.
use futronix_alexa.Base.{ℕ, ◌+◌, ◌-◌, ◌%◌, ◌≡◌, ◌<◌, leb, if◌then◌else◌, arith}

abbrev pub u32_mod : ℕ
u32_mod = 4294967296

-- `start`, as `reset` took it from micros(); `micros` is the counter's value at the call.
pub record IrTimer : Type 0 where
  pub start : ℕ

-- IRtimer::IRtimer, IRtimer::reset
abbrev pub reset : ℕ → IrTimer
reset micros = record { start = micros }

-- IRtimer::elapsed. All terms are below 2^32, so no subtraction goes below 0.
pub elapsed : IrTimer → ℕ → ℕ
elapsed t now = if leb t.start now then now - t.start else (u32_mod - 1 - t.start + now) % u32_mod

-- The true time between two readings of a counter that has gone `d` steps on.
abbrev pub reading : ℕ → ℕ → ℕ
reading start d = (start + d) % u32_mod

-- For a start and a time below 2^32: while the counter has not wrapped, `elapsed` is the time that
-- has passed. Once it has wrapped, it is one microsecond less.
pub elapsed_lem :
    (start d : ℕ)
    → start < u32_mod
    → d < u32_mod
    → elapsed (reset start) (reading start d) ≡ (if leb (start + d) (u32_mod - 1) then d else d - 1)
unfolding elapsed
elapsed_lem start d h k = ground arith

pub elapsed_exact :
    (start d : ℕ) → start + d < u32_mod → elapsed (reset start) (reading start d) ≡ d
unfolding elapsed
elapsed_exact start d h = ground arith
