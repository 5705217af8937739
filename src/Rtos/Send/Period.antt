-- ===== src/Rtos/Send/Period.antt =====
-- The carrier that `enableIROut` sets up, and how long a `mark` takes.
use native.Mathlib.Nat.{div-lt_iff_lt-mul, mul-le-mul_left}
use futronix_alexa.Base.{
  ℕ, zero, suc, ◌+◌, ◌*◌, ◌/◌, ◌%◌, ◌≡◌, refl, ◌-◌, ◌==◌, ltb, if◌then◌else◌, ◌≤◌, ◌<◌, List, [],
  ◌∷◌, pos, arith, Bool, true, false,
}
use futronix_alexa.Rtos.Send.{
  u32_mod, u16_mod, calc_usec_period, enable_ir_out, min_arg, max_arg, PinEvent, ir_on, ir_off,
  delay_us, pulse_loop, mark_ir,
}

-- The period of a frequency in Hz, to the nearest microsecond, and at least one.
abbrev pub nearest_period : ℕ → ℕ
nearest_period hz = max_arg 1 ((1000000 + hz / 2) / hz)

nearest_period_bound : (hz : ℕ) → 1000 ≤ hz → (1000000 + hz / 2) / hz ≤ 1000
nearest_period_bound hz h =
    let below : (1000000 + hz / 2) / hz < 1001 =
      (div-lt_iff_lt-mul {k = hz} (omega arith)).1 (grind arith) in
    omega arith

pos-ne : (hz : ℕ) → 0 < hz → (hz == 0) ≡ false
pos-ne hz h = ground arith

calc_usec_period_lem :
    (hz : ℕ) → 1000 ≤ hz → hz < u32_mod → calc_usec_period (pos 0) hz true ≡ nearest_period hz
unfolding calc_usec_period
calc_usec_period_lem hz h k =
    let fits : (1000000 + hz / 2) % u32_mod ≡ 1000000 + hz / 2 = omega arith in
    let small = nearest_period_bound hz h in rw (pos-ne hz (omega arith), fits) (ground arith)

-- Time with the pin low, and time in all.
abbrev pub lit : Bool → List PinEvent → ℕ
lit on [] = 0
lit on (ir_on ∷ es) = lit true es
lit on (ir_off ∷ es) = lit false es
lit true (delay_us n ∷ es) = n + lit true es
lit false (delay_us n ∷ es) = lit false es

abbrev pub waited : List PinEvent → ℕ
waited [] = 0
waited (ir_on ∷ es) = waited es
waited (ir_off ∷ es) = waited es
waited (delay_us n ∷ es) = n + waited es

pulse_loop_lem :
    (n : ℕ) (on : Bool) → (waited (pulse_loop n) ≡ 26 * n) × (lit on (pulse_loop n) ≡ 13 * n)
unfolding pulse_loop
pulse_loop_lem zero on = ground arith
pulse_loop_lem (suc n) on = ground (arith, pulse_loop_lem n false)

-- The frequency in Hz: below 1000 it is given in kHz.
abbrev pub hertz : ℕ → ℕ
hertz freq = if ltb freq 1000 then freq * 1000 else freq

hertz_bounds : (freq : ℕ) → 0 < freq → freq < u32_mod → (1000 ≤ hertz freq) × (hertz freq < u32_mod)
hertz_bounds freq h k = ground arith

nearest_period_range : (hz : ℕ) → 1000 ≤ hz → (1 ≤ nearest_period hz) × (nearest_period hz ≤ 1000)
nearest_period_range hz h = let small = nearest_period_bound hz h in ground arith

hertz_wraps : (freq : ℕ) → (if ltb freq 1000 then (freq * 1000) % u32_mod else freq) ≡ hertz freq
hertz_wraps freq = ground arith

-- A period cut in two by a share of at most 100 in 100.
split_period :
    (p share : ℕ)
    → p ≤ 1000
    → share ≤ 100
    → let on = (((p * share) % u32_mod) / 100) % u16_mod in
      (on + ((p + u32_mod - on) % u32_mod) % u16_mod ≡ p)
      × (100 * on ≤ p * share)
      × (p * share < 100 * on + 100)
split_period p share h k = let most : p * share ≤ p * 100 = mul-le-mul_left p k in omega arith

-- `enableIROut`, with no offset, a frequency that is not 0, and a duty of at most 255: the two
-- times make up the period of the frequency, to the nearest microsecond, which is from 1 to 1000;
-- the time on is the duty's share of it (at most all), rounded down; and the offset stays. So no
-- time is cut to 16 bits.
pub enable_ir_out_lem :
    (freq duty on off : ℕ)
    → 0 < freq
    → freq < u32_mod
    → duty < 256
    → let c =
        enable_ir_out freq duty
          (record { on_time_period = on; off_time_period = off; period_offset = pos 0 }) in
      let period = nearest_period (hertz freq) in
      let share = min_arg duty 100 in
      (c.on_time_period + c.off_time_period ≡ period)
      × (1 ≤ period)
      × (period ≤ 1000)
      × (100 * c.on_time_period ≤ period * share)
      × (period * share < 100 * c.on_time_period + 100)
      × (c.period_offset ≡ pos 0)
unfolding enable_ir_out
enable_ir_out_lem freq duty on off h k l =
    let hz = hertz_bounds freq h k in
    let range = nearest_period_range (hertz freq) hz.0 in
    let cut =
      split_period (nearest_period (hertz freq)) (min_arg duty 100) range.1 (ground arith) in
    rw (hertz_wraps freq, calc_usec_period_lem (hertz freq) hz.0 hz.1)
      (cut.0, range.0, range.1, cut.1, cut.2, refl)

-- `mark` takes its time rounded down to whole carrier periods of 26 microseconds, and at least one
-- period; the diode is lit for half of it, and the time lies less than a period above what it takes.
pub mark_ir_lem :
    (time : ℕ)
    → (26 ≤ time → (waited (mark_ir time) ≤ time) × (time < waited (mark_ir time) + 26))
      × (time < 26 → waited (mark_ir time) ≡ 26)
      × (2 * lit false (mark_ir time) ≡ waited (mark_ir time))
unfolding mark_ir
mark_ir_lem time = ground (arith, pulse_loop_lem (if time / 26 == 0 then 1 else time / 26) false)
