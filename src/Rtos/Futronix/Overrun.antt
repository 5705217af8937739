-- ===== src/Rtos/Futronix/Overrun.antt =====
-- How far `sendFutronix` comes.
use futronix_alexa.Base.{
  ℕ, zero, suc, ◌+◌, ◌-◌, ◌*◌, ◌%◌, ◌≡◌, ◌≤◌, ◌<◌, refl, ap, Bool, List, [], ◌∷◌, ◌++◌, get_or,
  get_elem?-eq-get_or, get_elem?-none, leb, true, false, length, if◌then◌else◌, append_assoc, sym,
  ◌∙◌, ◌==◌, arith,
}
use futronix_alexa.Ir.Frame.{
  Pulse, mark, space, off, pause, command_bits, command_loop, address_loop, bits_loop, symbol,
  interval, bitmark,
}
use futronix_alexa.Rtos.Send.{PinEvent, Carrier, mark_ir, space_ir}
use futronix_alexa.Rtos.Futronix.{
  Ending, Stretch, send_futronix_rtos, send_frames, send_frame, send_command, send_symbol,
  send_address, sends, ◌then_run◌,
}

-- The marks and spaces of the first firmware, as this one sends them.
pub render : List Pulse → List PinEvent
render [] = []
render (mark m ∷ ps) = mark_ir m ++ render ps
render (space s ∷ ps) = space_ir s ++ render ps
render (off ∷ ps) = render ps
render (pause p ∷ ps) = render ps

at_least_zero : (n : ℕ) → leb 0 n ≡ true
at_least_zero n = ground arith

index_down : (n : ℕ) → n < 255 → (suc n + 255) % 256 ≡ n
index_down n h = omega arith

position_up : (p : ℕ) → p < 255 → (p + 1) % 256 ≡ p + 1
position_up p h = omega arith

render-symbol : (k : ℕ) (ps : List Pulse) → render (symbol k ++ ps) ≡ send_symbol k ++ render ps
unfolding render send_symbol
render-symbol k ps =
    sym (append_assoc (mark_ir bitmark) (space_ir (interval * k - bitmark)) (render ps))

-- The symbol of a command bit.
width : Bool → ℕ → ℕ
width b position = if b then (if position % 2 == 0 then 3 else 2) else 1

width-symbol :
    (b : Bool) (position : ℕ)
    → (if b then (if position % 2 == 0 then symbol 3 else symbol 2) else symbol 1)
      ≡ symbol (width b position)
unfolding width
width-symbol b position = ground arith

width-send_symbol :
    (b : Bool) (position : ℕ)
    → (if b then (if position % 2 == 0 then send_symbol 3 else send_symbol 2) else send_symbol 1)
      ≡ send_symbol (width b position)
unfolding width
width-send_symbol b position = ground arith

-- One round of the loop, at an index inside the array.
send_command_round :
    (fuel n position : ℕ) (bits : List Bool)
    → n < length bits
    → send_command (suc fuel) n position bits ≡ (
        sends (send_symbol (width (get_or bits n false) position))
        then_run send_command fuel ((n + 255) % 256) ((position + 1) % 256) bits)
unfolding send_command
send_command_round fuel n position bits h = rw (
  at_least_zero n,
  get_elem?-eq-get_or bits n false h,
  width-send_symbol (get_or bits n false) position,
)

-- The round at an index outside.
send_command_outside :
    (fuel n position : ℕ) (bits : List Bool)
    → length bits ≤ n
    → send_command (suc fuel) n position bits ≡ ([], Ending.overrun)
unfolding send_command
send_command_outside fuel n position bits h = rw (at_least_zero n, get_elem?-none bits n h)

sends-overrun :
    (es fs : List PinEvent) → (sends es then_run (fs, Ending.overrun)) ≡ (es ++ fs, Ending.overrun)
unfolding sends ◌then_run◌
sends-overrun es fs = refl

command_loop-suc :
    (n position : ℕ) (bits : List Bool)
    → render (command_loop (suc n) position bits)
      ≡ send_symbol (width (get_or bits n false) position)
        ++ render (command_loop n (position + 1) bits)
unfolding command_loop
command_loop-suc n position bits =
    rw (width-symbol (get_or bits n false) position)
      (render-symbol (width (get_or bits n false) position) (command_loop n (position + 1) bits))

command_loop_end : (position : ℕ) (bits : List Bool) → render (command_loop 0 position bits) ≡ []
unfolding command_loop render
command_loop_end position bits = refl

-- From index `n` on the loop sends what that of the first firmware sends, and then wraps.
send_command_lem :
    (fuel n position : ℕ) (bits : List Bool)
    → suc n < fuel
    → n < length bits
    → length bits < 256
    → position + n < 255
    → send_command fuel n position bits
      ≡ (render (command_loop (suc n) position bits), Ending.overrun)
send_command_lem zero n position bits h k l m = absurd (omega arith)
send_command_lem (suc zero) n position bits h k l m = absurd (omega arith)
send_command_lem (suc (suc fuel)) zero position bits h k l m =
    rw
      (
        send_command_round (suc fuel) 0 position bits k,
        send_command_outside fuel 255 ((position + 1) % 256) bits (omega arith),
        sends-overrun (send_symbol (width (get_or bits 0 false) position)) [],
        command_loop-suc 0 position bits,
      )
      (ap (λ l. (send_symbol (width (get_or bits 0 false) position) ++ l, Ending.overrun))
        (sym (command_loop_end (position + 1) bits)))
send_command_lem (suc (suc fuel)) (suc n) position bits h k l m = rw (
  send_command_round (suc fuel) (suc n) position bits k,
  index_down n (omega arith),
  position_up position (omega arith),
  send_command_lem (suc fuel) n (position + 1) bits (omega arith) (omega arith) l (omega arith),
  sends-overrun (send_symbol (width (get_or bits (suc n) false) position))
      (render (command_loop (suc n) (position + 1) bits)),
  command_loop-suc (suc n) position bits,
)

overrun-then_run :
    (es : List PinEvent) (s : Stretch) → ((es, Ending.overrun) then_run s) ≡ (es, Ending.overrun)
unfolding ◌then_run◌
overrun-then_run es s = refl

length-bits_loop : (d : ℕ) → length (bits_loop 7 32 d) ≡ 6
unfolding bits_loop
length-bits_loop d = refl

-- Header, address and command of a frame of the first firmware.
pub front : List Bool → List Pulse
front bits = symbol 4 ++ (symbol 1 ++ (address_loop 4 ++ command_loop 6 5 bits))

render-address_loop :
    (n : ℕ) (ps : List Pulse) → render (address_loop n ++ ps) ≡ send_address n ++ render ps
unfolding address_loop send_address
render-address_loop zero ps = refl
render-address_loop (suc n) ps =
    rw
      (
        append_assoc (symbol 1) (address_loop n) ps,
        append_assoc (send_symbol 1) (send_address n) (render ps),
      )
      (render-symbol 1 (address_loop n ++ ps)
        ∙ ap (◌++◌ (send_symbol 1)) (render-address_loop n ps))

render-front :
    (bits : List Bool)
    → render (front bits)
      ≡ (send_symbol 4 ++ (send_symbol 1 ++ send_address 4)) ++ render (command_loop 6 5 bits)
unfolding front
render-front bits = rw (
  render-symbol 4 (symbol 1 ++ (address_loop 4 ++ command_loop 6 5 bits)),
  render-symbol 1 (address_loop 4 ++ command_loop 6 5 bits),
  render-address_loop 4 (command_loop 6 5 bits),
  append_assoc (send_symbol 4) (send_symbol 1 ++ send_address 4) (render (command_loop 6 5 bits)),
  append_assoc (send_symbol 1) (send_address 4) (render (command_loop 6 5 bits)),
)

send_frame_lem :
    (fuel : ℕ) (bits : List Bool)
    → 6 < fuel
    → length bits ≡ 6
    → send_frame fuel bits ≡ (render (front bits), Ending.overrun)
unfolding send_frame
send_frame_lem fuel bits h k =
    rw
      (
        send_command_lem fuel 5 5 bits h (omega arith) (omega arith) (omega arith),
        sends-overrun (send_symbol 4 ++ (send_symbol 1 ++ send_address 4))
            (render (command_loop 6 5 bits)),
        ← render-front bits,
      )
      (overrun-then_run (render (front bits)) _)

-- `sendFutronix` of the second firmware never ends well: whatever the data, it sends header,
-- address and command of one frame, as the first firmware does, and then reads behind the array
-- `commandBits`, since an unsigned `n` is never below 0. Seven rounds of its loop are enough for
-- that.
pub send_futronix_overrun :
    (d fuel : ℕ) (c : Carrier)
    → 6 < fuel
    → (send_futronix_rtos fuel d c).1 ≡ (render (front (command_bits d)), Ending.overrun)
unfolding send_futronix_rtos send_frames command_bits
send_futronix_overrun d fuel c h =
    rw (send_frame_lem fuel (bits_loop 7 32 d) h (length-bits_loop d))
      (overrun-then_run (render (front (bits_loop 7 32 d))) _)
