-- ===== src/Rtos/Send.antt =====
-- RTOS/futronix-alexa-rtos/irsend/send.h: the carrier, `mark`, `space` and `sendData`. What the pin
-- and the clock are told goes out as a list of events.
pub mod Period
pub mod Bits
pub mod Receiver
use futronix_alexa.Base.{
  ℕ, zero, suc, ◌+◌, ◌-◌, ◌*◌, ◌/◌, ◌%◌, ◌^◌, Bool, List, [], ◌∷◌, ◌++◌, ◌==◌, leb, ltb, ℤ, to_u32,
  if◌then◌else◌,
}

abbrev pub u16_mod : ℕ
u16_mod = 65536

abbrev pub u32_mod : ℕ
u32_mod = 4294967296

-- MAX_ARG, MIN_ARG
abbrev pub max_arg : ℕ → ℕ → ℕ
max_arg a b = if leb b a then a else b

abbrev pub min_arg : ℕ → ℕ → ℕ
min_arg a b = if leb a b then a else b

abbrev pub default_duty : ℕ
default_duty = 50

-- gpio_write(IR_SEND_PIN, 0), gpio_write(IR_SEND_PIN, 1), sdk_os_delay_us
pub data PinEvent : Type 0 where
  ir_on : PinEvent
  ir_off : PinEvent
  delay_us : ℕ → PinEvent

-- The globals `onTimePeriod`, `offTimePeriod` and `periodOffset`, an int8_t.
pub record Carrier : Type 0 where
  pub on_time_period : ℕ
  pub off_time_period : ℕ
  pub period_offset : ℤ

-- calcUSecPeriod. `to_u32` is the conversion of the offset to an unsigned number.
unfoldable pub calc_usec_period : ℤ → ℕ → Bool → ℕ
calc_usec_period offset hz use_offset =
    let hz' = if hz == 0 then 1 else hz in
    let period = ((1000000 + hz' / 2) % u32_mod) / hz' in
    if use_offset then max_arg 1 ((period + to_u32 offset) % u32_mod) else max_arg 1 period

-- enableIROut. DEFAULT_USE_OFFSET is true.
unfoldable pub enable_ir_out : ℕ → ℕ → Carrier → Carrier
enable_ir_out freq duty c =
    let duty' = min_arg duty 100 in
    let freq' = if ltb freq 1000 then (freq * 1000) % u32_mod else freq in
    let period = calc_usec_period c.period_offset freq' Bool.true in
    let on = (((period * duty') % u32_mod) / 100) % u16_mod in
    record c {
      on_time_period = on;
      off_time_period = ((period + u32_mod - on) % u32_mod) % u16_mod;
    }

-- The loop of `mark`, with the rounds that are left.
unfoldable pub pulse_loop : ℕ → List PinEvent
pulse_loop zero = []
pulse_loop (suc n) = ir_on ∷ delay_us 13 ∷ ir_off ∷ delay_us 13 ∷ pulse_loop n

-- mark
unfoldable pub mark_ir : ℕ → List PinEvent
mark_ir time = let loops = time / 26 in pulse_loop (if loops == 0 then 1 else loops)

-- space
unfoldable pub space_ir : ℕ → List PinEvent
space_ir time = ir_off ∷ delay_us time ∷ []

-- The arguments of `sendData` that stay the same for all bits.
pub record Timing : Type 0 where
  pub one_mark : ℕ
  pub one_space : ℕ
  pub zero_mark : ℕ
  pub zero_space : ℕ

-- The branches for a single bit.
unfoldable pub send_bit : Timing → Bool → List PinEvent
send_bit t bit =
    if bit
    then mark_ir t.one_mark ++ space_ir t.one_space
    else mark_ir t.zero_mark ++ space_ir t.zero_space

-- The loop that sends zeros for the bits above the 64 of `data`, with the rounds that are left.
unfoldable pub pad_loop : Timing → ℕ → List PinEvent
pad_loop t zero = []
pad_loop t (suc n) = send_bit t Bool.false ++ pad_loop t n

-- The loop over `mask`. The mask is a power of two, so `data & mask` is a digit of the data; the loop
-- ends when the mask is shifted out, which 65 rounds see.
unfoldable pub mask_loop : Timing → ℕ → ℕ → ℕ → List PinEvent
mask_loop t zero mask data' = []
mask_loop t (suc rounds) mask data' =
    let rest = mask_loop t rounds (mask / 2) data' in
    if mask == 0 then [] else send_bit t ((data' / mask) % 2 == 1) ++ rest

-- The loop over `bit`, with the rounds that are left.
unfoldable pub shift_loop : Timing → ℕ → ℕ → List PinEvent
shift_loop t zero data' = []
shift_loop t (suc n) data' = send_bit t (data' % 2 == 1) ++ shift_loop t n (data' / 2)

-- sendData, for a `data` of 64 bits.
unfoldable pub send_data : Timing → ℕ → ℕ → Bool → List PinEvent
send_data t data' nbits msb_first =
    if nbits == 0
    then []
    else (if msb_first
        then pad_loop t (nbits - 64) ++ mask_loop t 65 (2 ^ (nbits - (nbits - 64) - 1)) data'
        else shift_loop t nbits data')
