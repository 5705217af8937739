-- ===== src/Ir/Decode.antt =====
-- A receiver for the pulse trains, which the repository does not hold: the frames of `sendFutronix`
-- are stated against it.
use futronix_alexa.Base.{
  ℕ, zero, suc, ◌+◌, ◌*◌, ◌/◌, ◌%◌, ◌≡◌, refl, ap, ◌∙◌, Bool, true, false, ◌&&◌, Option, some, none,
  List, [], ◌∷◌, ◌++◌, length, ◌==◌, if◌then◌else◌, ◌>>=◌, arith, append_assoc, replicate,
}
use futronix_alexa.Ir.Frame.{
  Pulse, mark, space, off, pause, interval, bitmark, command_bits, frame, frame_loop, send_futronix,
}

-- The widths of the symbols, in intervals: a mark of the bit length and the space behind it. The
-- train ends with a mark, the pin off, and a pause.
widths : List Pulse → Option (List ℕ × List Pulse)
widths (mark m ∷ space s ∷ rest) =
    if m == bitmark
    then (widths rest >>= λ (ws, left). some ((m + s) / interval ∷ ws, left))
    else none
widths (mark m ∷ off ∷ pause p ∷ rest) = if m == bitmark then some ([], rest) else none
widths _ = none

-- Symbol widths as command bits: one interval is a 0, more is a 1. The first bit is the lowest.
value : List ℕ → ℕ
value [] = 0
value (w ∷ ws) = (if w == 1 then 0 else 1) + 2 * value ws

ones : List ℕ → ℕ
ones [] = 0
ones (w ∷ ws) = (if w == 1 then 0 else 1) + ones ws

-- A frame is: header 4 1, address 1 1 1 1, six command symbols, a parity symbol that is 2 wide for an
-- even number of ones and 1 for an odd one, and the footer 4.
read_widths : List ℕ → Option ℕ
read_widths (h ∷ g ∷ a0 ∷ a1 ∷ a2 ∷ a3 ∷ c0 ∷ c1 ∷ c2 ∷ c3 ∷ c4 ∷ c5 ∷ p ∷ f ∷ []) =
    let command = c0 ∷ c1 ∷ c2 ∷ c3 ∷ c4 ∷ c5 ∷ [] in
    if (h == 4)
      && (g == 1)
      && (a0 == 1)
      && (a1 == 1)
      && (a2 == 1)
      && (a3 == 1)
      && (p == (if ones command % 2 == 0 then 2 else 1))
      && (f == 4)
    then some (value command)
    else none
read_widths ws = none

-- The command of the first frame, and what follows it.
pub receive : List Pulse → Option (ℕ × List Pulse)
receive ps = widths ps >>= λ (ws, rest). read_widths ws >>= λ command. some (command, rest)

bit_value : Bool → ℕ
bit_value true = 1
bit_value false = 0

receive-frame_bits :
    (b5 b4 b3 b2 b1 b0 : Bool) (rest : List Pulse)
    → receive (frame (b5 ∷ b4 ∷ b3 ∷ b2 ∷ b1 ∷ b0 ∷ []) ++ rest)
      ≡ some (
        bit_value b0
            + 2
              * (bit_value b1
                  + 2
                    * (bit_value b2 + 2 * (bit_value b3 + 2 * (bit_value b4 + 2 * bit_value b5)))),
        rest,
      )
unfolding receive widths read_widths value ones frame bit_value
receive-frame_bits b5 b4 b3 b2 b1 b0 rest = ground arith

-- The six low digits of a command, as `commandBits` holds them.
command_bits_lem :
    (c : ℕ)
    → command_bits c
      ≡ ((c / 32) % 2 == 1)
        ∷ ((c / 16) % 2 == 1)
        ∷ ((c / 8) % 2 == 1)
        ∷ ((c / 4) % 2 == 1)
        ∷ ((c / 2) % 2 == 1)
        ∷ ((c / 1) % 2 == 1)
        ∷ []
unfolding command_bits
command_bits_lem c = refl

bit_value-digit : (n : ℕ) → bit_value (n % 2 == 1) ≡ n % 2
unfolding bit_value
bit_value-digit n = ground arith

-- A receiver reads the six low bits of the command from a frame.
pub receive-frame :
    (c : ℕ) (rest : List Pulse) → receive (frame (command_bits c) ++ rest) ≡ some (c % 64, rest)
receive-frame c rest =
    rw
      (
        command_bits_lem c,
        receive-frame_bits ((c / 32) % 2 == 1) ((c / 16) % 2 == 1) ((c / 8) % 2 == 1)
            ((c / 4) % 2 == 1) ((c / 2) % 2 == 1) ((c / 1) % 2 == 1) rest,
        bit_value-digit (c / 32),
        bit_value-digit (c / 16),
        bit_value-digit (c / 8),
        bit_value-digit (c / 4),
        bit_value-digit (c / 2),
        bit_value-digit (c / 1),
      )
      (ap (λ (n : ℕ). some (n, rest)) (omega arith))

-- `n` frames in a row, each with its command.
unfoldable pub receive_times : ℕ → List Pulse → Option (List ℕ × List Pulse)
receive_times zero ps = some ([], ps)
receive_times (suc n) ps =
    receive ps >>= λ (c, rest). receive_times n rest >>= λ (cs, left). some (c ∷ cs, left)

receive_times-frame_loop :
    (n c : ℕ) (rest : List Pulse)
    → receive_times n (frame_loop n (command_bits c) ++ rest) ≡ some (replicate n (c % 64), rest)
unfolding receive_times frame_loop
receive_times-frame_loop zero c rest = refl
receive_times-frame_loop (suc n) c rest =
    let bits = command_bits c in
    rw (
      append_assoc (frame bits) (frame_loop n bits) rest,
      receive-frame c (frame_loop n bits ++ rest),
      receive_times-frame_loop n c rest,
    )

-- `sendFutronix` sends three frames, and a receiver that checks header, address, parity and footer
-- reads the six low bits of the command from each, whatever follows them.
pub receive_times-send_futronix :
    (c : ℕ) (rest : List Pulse)
    → receive_times 3 (send_futronix c ++ rest) ≡ some (c % 64 ∷ c % 64 ∷ c % 64 ∷ [], rest)
unfolding send_futronix
receive_times-send_futronix c rest = receive_times-frame_loop 3 c rest

-- A frame in front of others.
receive_times-frame :
    (c n : ℕ) (rest left : List Pulse) (more : List ℕ)
    → receive_times n rest ≡ some (more, left)
    → receive_times (suc n) (frame (command_bits c) ++ rest) ≡ some (c % 64 ∷ more, left)
unfolding receive_times
receive_times-frame c n rest left more h = rw (receive-frame c rest, h)

-- The three frames of a command in front of others.
pub receive_times-send_futronix_then :
    (c : ℕ) (rest : List Pulse) (more : List ℕ)
    → receive_times (length more) rest ≡ some (more, [])
    → receive_times (suc (suc (suc (length more)))) (send_futronix c ++ rest)
      ≡ some (c % 64 ∷ c % 64 ∷ c % 64 ∷ more, [])
unfolding send_futronix frame_loop
receive_times-send_futronix_then c rest more h =
    let f = frame (command_bits c) in
    let inner : (f ++ (f ++ [])) ++ rest ≡ f ++ (f ++ rest) =
      append_assoc f (f ++ []) rest ∙ ap (λ ps. f ++ ps) (append_assoc f [] rest) in
    let three : (f ++ (f ++ (f ++ []))) ++ rest ≡ f ++ (f ++ (f ++ rest)) =
      append_assoc f (f ++ (f ++ [])) rest ∙ ap (λ ps. f ++ ps) inner in
    let n = length more in
    ap (receive_times (suc (suc (suc n)))) three
    ∙ receive_times-frame c (suc (suc n)) _ [] _
        (receive_times-frame c (suc n) _ [] _ (receive_times-frame c n rest [] more h))
