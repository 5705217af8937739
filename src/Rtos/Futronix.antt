-- ===== src/Rtos/Futronix.antt =====
-- RTOS/futronix-alexa-rtos/irsend/futronix.h: `sendFutronix`.
pub mod Overrun
use futronix_alexa.Base.{
  ℕ, zero, suc, ◌+◌, ◌-◌, ◌*◌, ◌%◌, Bool, List, [], ◌++◌, some, none, get_elem?, leb, ◌==◌,
  if◌then◌else◌,
}
use futronix_alexa.Ir.Frame.{bits_loop, ones_count}
use futronix_alexa.Rtos.Send.{PinEvent, Carrier, enable_ir_out, default_duty, mark_ir, space_ir}

abbrev pub futronix_interval : ℕ
futronix_interval = 1560

abbrev pub futronix_bitmark : ℕ
futronix_bitmark = 700

-- How a stretch of code ends: behind its last statement, by a read outside an array, or not within
-- the rounds that it was given.
pub data Ending : Type 0 where
  done overrun unfinished : Ending

-- A stretch of code: what it sends, and how it ends.
abbrev pub Stretch : Type 0
Stretch = List PinEvent × Ending

-- Code that always ends behind its last statement, and code that follows another.
infixl 4 ◌then_run◌
unfoldable pub sends : List PinEvent → Stretch
sends es = (es, Ending.done)

unfoldable pub ◌then_run◌ : Stretch → Stretch → Stretch
(es, Ending.done) then_run (fs, e) = (es ++ fs, e)
(es, Ending.overrun) then_run s = (es, Ending.overrun)
(es, Ending.unfinished) then_run s = (es, Ending.unfinished)

-- mark(FUTRONIX_BITMARK); space((FUTRONIX_INTERVAL * k) - FUTRONIX_BITMARK)
unfoldable pub send_symbol : ℕ → List PinEvent
send_symbol k = mark_ir futronix_bitmark ++ space_ir (futronix_interval * k - futronix_bitmark)

-- The loop over the address, with the rounds that are left.
unfoldable pub send_address : ℕ → List PinEvent
send_address zero = []
send_address (suc n) = send_symbol 1 ++ send_address n

-- The loop `for(uint8_t n = 5; n>=0; n--)` over `commandBits`, with `bitPosition`: `n` and
-- `bitPosition` wrap at 256.
unfoldable pub send_command : ℕ → ℕ → ℕ → List Bool → Stretch
send_command zero n bit_position bits = ([], Ending.unfinished)
send_command (suc fuel) n bit_position bits =
    let rest = send_command fuel ((n + 255) % 256) ((bit_position + 1) % 256) bits in
    if leb 0 n
    then (elim (get_elem? bits n) [
      | none ↦ ([], Ending.overrun)
      | some b ↦
          sends (
            if b
            then (if bit_position % 2 == 0 then send_symbol 3 else send_symbol 2)
            else send_symbol 1)
          then_run rest
    ])
    else sends []

-- One round of the outer loop.
unfoldable pub send_frame : ℕ → List Bool → Stretch
send_frame fuel bits =
    sends (send_symbol 4 ++ (send_symbol 1 ++ send_address 4))
    then_run send_command fuel 5 5 bits
    then_run sends (
        (if ones_count bits % 2 == 0 then send_symbol 2 else send_symbol 1)
        ++ (send_symbol 4 ++ mark_ir futronix_bitmark))

-- The outer loop, with the rounds that are left.
unfoldable pub send_frames : ℕ → ℕ → List Bool → Stretch
send_frames zero fuel bits = sends []
send_frames (suc i) fuel bits = send_frame fuel bits then_run send_frames i fuel bits

-- sendFutronix, with the carrier that it sets up. The loop that fills `commandBits` is that of
-- IRTransmitter::sendFutronix; `fuel` bounds the rounds of the loop over them.
unfoldable pub send_futronix_rtos : ℕ → ℕ → Carrier → Carrier × Stretch
send_futronix_rtos fuel data' c =
    (enable_ir_out 38 default_duty c, send_frames 3 fuel (bits_loop 7 32 data'))
