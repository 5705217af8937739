-- ===== src/Ir/Frame.antt =====
-- IRTransmitter::sendFutronix of FutronixESP8266/IRTransmitter.h: a command as a train of pulses.
use futronix_alexa.Base.{
  ℕ, zero, suc, ◌+◌, ◌-◌, ◌*◌, ◌/◌, ◌%◌, Bool, false, List, [], ◌∷◌, ◌++◌, get_or, ◌==◌,
  if◌then◌else◌,
}

-- A call of `mark` or `space` with its time in microseconds, of `pinOff`, or of `delay`.
pub data Pulse : Type 0 where
  mark : ℕ → Pulse
  space : ℕ → Pulse
  off : Pulse
  pause : ℕ → Pulse

abbrev pub interval : ℕ
interval = 1560

abbrev pub bitmark : ℕ
bitmark = 700

abbrev pub cmd_gap : ℕ
cmd_gap = 102

-- mark(FUTRONIX_BITMARK); space((FUTRONIX_INTERVAL * k) - FUTRONIX_BITMARK)
abbrev pub symbol : ℕ → List Pulse
symbol k = mark bitmark ∷ space (interval * k - bitmark) ∷ []

-- The loop that fills `commandBits`, with the rounds that are left. The mask is a power of two, so
-- `command & mask` is a digit of the command; the loop ends when the mask is shifted out.
unfoldable pub bits_loop : ℕ → ℕ → ℕ → List Bool
bits_loop zero mask command = []
bits_loop (suc rounds) mask command =
    let rest = bits_loop rounds (mask / 2) command in
    if mask == 0 then [] else ((command / mask) % 2 == 1) ∷ rest

-- `commandBits`: the six low bits, the highest first. Seven rounds see the mask 32 shifted out.
unfoldable pub command_bits : ℕ → List Bool
unfolding bits_loop
command_bits command = bits_loop 7 32 command

-- `onesCount`
unfoldable pub ones_count : List Bool → ℕ
ones_count [] = 0
ones_count (b ∷ bits) = (if b then 1 else 0) + ones_count bits

-- The loop over `n = 5 … 0`, at `n + 1` rounds left, with `bitPosition`.
unfoldable pub command_loop : ℕ → ℕ → List Bool → List Pulse
command_loop zero bit_position bits = []
command_loop (suc n) bit_position bits =
    (if get_or bits n false
      then (if bit_position % 2 == 0 then symbol 3 else symbol 2)
      else symbol 1)
    ++ command_loop n (bit_position + 1) bits

-- The loop that sends the address: four zeros.
unfoldable pub address_loop : ℕ → List Pulse
address_loop zero = []
address_loop (suc n) = symbol 1 ++ address_loop n

-- One round of the outer loop: header, address, command, parity bit, footer.
unfoldable pub frame : List Bool → List Pulse
unfolding address_loop command_loop ones_count
frame bits =
    symbol 4
    ++ symbol 1
    ++ address_loop 4
    ++ command_loop 6 5 bits
    ++ (if ones_count bits % 2 == 0 then symbol 2 else symbol 1)
    ++ symbol 4
    ++ mark bitmark ∷ off ∷ pause cmd_gap ∷ []

-- The outer loop, with the rounds that are left.
unfoldable pub frame_loop : ℕ → List Bool → List Pulse
frame_loop zero bits = []
frame_loop (suc i) bits = frame bits ++ frame_loop i bits

-- IRTransmitter::sendFutronix
unfoldable pub send_futronix : ℕ → List Pulse
send_futronix command = frame_loop 3 (command_bits command)

-- IRTransmitter::test, which leaves `repeat` unused
abbrev pub test_ir : List Pulse
test_ir = off ∷ (send_futronix 17 ++ off ∷ [])
