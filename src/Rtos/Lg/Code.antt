-- ===== src/Rtos/Lg/Code.antt =====
-- A message of `sendLG` as a receiver reads it.
use native.Mathlib.Nat.{pow-suc, div-div-eq-div-mul, div-add-mod'}
use futronix_alexa.Base.{
  ℕ, zero, suc, ◌+◌, ◌*◌, ◌/◌, ◌%◌, ◌^◌, ◌≡◌, ◌<◌, refl, ap, sym, ◌∙◌, Option, some, none, List, [],
  ◌∷◌, ◌++◌, map, ◌==◌, if◌then◌else◌, arith, ◌>>=◌,
}
use futronix_alexa.Rtos.Send.{PinEvent, Carrier, space_ir}
use futronix_alexa.Rtos.Send.Bits.{digits, send_data_lem}
use futronix_alexa.Rtos.Send.Receiver.{gaps, gaps-send_bits, gaps-mark_ir, gap_of, kept}
use futronix_alexa.Rtos.Lg.{lg_timing, repeat_loop, send_lg, lg_hdr_mark, lg_bit_mark}

-- The bits up to the gap behind the message, as their number and their value, and the gaps left. A
-- gap is 13 microseconds of the mark before it longer than its space.
read_bits : ℕ → ℕ → List ℕ → Option (ℕ × ℕ × List ℕ)
read_bits n v [] = none
read_bits n v (g ∷ gs) =
    let bit = g == 1613 in
    let rest = read_bits (n + 1) (2 * v + (if bit then 1 else 0)) gs in
    if g == 108063 then some (n, v, gs) else if bit then rest else if g == 563 then rest else none

-- The number of repeat codes, up to the end.
read_repeats : List ℕ → Option ℕ
read_repeats [] = some 0
read_repeats (a ∷ []) = none
read_repeats (a ∷ b ∷ gs) =
    let rest = read_repeats gs in
    if a == 2263 then if b == 108063 then (rest >>= λ n. some (n + 1)) else none else none

-- A message: the header, the bits, and the repeat codes.
read_gaps : List ℕ → Option (ℕ × ℕ × ℕ)
read_gaps [] = none
read_gaps (g ∷ gs) =
    if g == 4013
    then (read_bits 0 0 gs >>= λ (n, v, left). read_repeats left >>= λ r. some (n, v, r))
    else none

pub receive_lg : List PinEvent → Option (ℕ × ℕ × ℕ)
receive_lg es = read_gaps (gaps 0 es)

mod_twice :
    (d m : ℕ)
    → d / m / 2 ≡ d / (m * 2)
    → d / (m * 2) * (m * 2) + d % (m * 2) ≡ d
    → d / m * m + d % m ≡ d
    → d % (m * 2) ≡ ((d / m) % 2) * m + d % m
mod_twice d m half whole part =
    let q = d / m in
    let split : q * m ≡ (q / 2 * 2 + q % 2) * m = ap (λ (t : ℕ). t * m) (omega arith) in
    let same : d / (m * 2) * (m * 2) ≡ q / 2 * (m * 2) = ap (λ (t : ℕ). t * (m * 2)) (sym half) in
    grind (arith, split, same)

mod_pow : (k d : ℕ) → d % 2 ^ suc k ≡ ((d / 2 ^ k) % 2) * 2 ^ k + d % 2 ^ k
mod_pow k d =
    let m = 2 ^ k in
    rw (pow-suc 2 k)
      (mod_twice d m (div-div-eq-div-mul d m 2) (div-add-mod' d (m * 2)) (div-add-mod' d m))

read_bit :
    (n v k : ℕ) (gs : List ℕ)
    → read_bits n v (gap_of lg_timing (k % 2 == 1) ∷ gs) ≡ read_bits (n + 1) (2 * v + k % 2) gs
unfolding read_bits gap_of
read_bit n v k gs = ground arith

next_value :
    (v k d : ℕ) → (2 * v + (d / 2 ^ k) % 2) * 2 ^ k + d % 2 ^ k ≡ v * 2 ^ suc k + d % 2 ^ suc k
next_value v k d = rw (mod_pow k d, pow-suc 2 k) (grind arith)

next_bits :
    (n v k d : ℕ) (gs : List ℕ)
    → ◌≡◌ {A = ℕ × ℕ × List ℕ}
        (n + 1 + k, (2 * v + (d / 2 ^ k) % 2) * 2 ^ k + d % 2 ^ k, gs)
        (n + suc k, v * 2 ^ suc k + d % 2 ^ suc k, gs)
next_bits n v k d gs = ground (arith, next_value v k d)

read_bits-digits :
    (k n v d : ℕ) (gs : List ℕ)
    → read_bits n v (map (gap_of lg_timing) (digits k d) ++ 108063 ∷ gs)
      ≡ some (n + k, v * 2 ^ k + d % 2 ^ k, gs)
unfolding digits
read_bits-digits zero n v d gs = unfold read_bits in ground arith
read_bits-digits (suc k) n v d gs =
    rw (read_bit n v (d / 2 ^ k) (map (gap_of lg_timing) (digits k d) ++ 108063 ∷ gs))
      (read_bits-digits k (n + 1) (2 * v + (d / 2 ^ k) % 2) d gs ∙ ap (some) (next_bits n v k d gs))

-- The gaps of `n` repeat codes.
repeat_gaps : ℕ → List ℕ
repeat_gaps zero = []
repeat_gaps (suc n) = 2263 ∷ 108063 ∷ repeat_gaps n

read_repeats-repeat_gaps : (n : ℕ) → read_repeats (repeat_gaps n) ≡ some n
unfolding read_repeats repeat_gaps
read_repeats-repeat_gaps zero = refl
read_repeats-repeat_gaps (suc n) = ground (arith, read_repeats-repeat_gaps n)

gaps-repeat_loop : (n : ℕ) → gaps 108063 (repeat_loop n) ≡ 108063 ∷ repeat_gaps n
unfolding gaps repeat_loop repeat_gaps space_ir kept
gaps-repeat_loop zero = refl
gaps-repeat_loop (suc n) =
    gaps-mark_ir lg_hdr_mark 108063 _
    ∙ ap (◌∷◌ 108063) (gaps-mark_ir lg_bit_mark 2263 _ ∙ ap (◌∷◌ 2263) (gaps-repeat_loop n))

gaps-send_lg :
    (d nbits repeat : ℕ) (c : Carrier)
    → d < 2 ^ 64
    → gaps 0 (send_lg d nbits repeat c).1
      ≡ 4013 ∷ map (gap_of lg_timing) (digits nbits d) ++ 108063 ∷ repeat_gaps repeat
unfolding send_lg space_ir gaps kept
gaps-send_lg d nbits repeat c h = rw ((send_data_lem lg_timing d nbits h).0) (
    gaps-mark_ir lg_hdr_mark 0 _
    ∙ gaps-send_bits lg_timing (digits nbits d) lg_bit_mark 4013 _ (omega arith)
    ∙ ap (λ l. 4013 ∷ map (gap_of lg_timing) (digits nbits d) ++ l) (gaps-repeat_loop repeat))

-- A receiver that measures the gaps between pulses reads from a message of `sendLG`, for data of 64
-- bits, the number of bits, that many low bits of the data, and the number of repeats.
pub receive_lg-send_lg :
    (d nbits repeat : ℕ) (c : Carrier)
    → d < 2 ^ 64
    → receive_lg (send_lg d nbits repeat c).1 ≡ some (nbits, d % 2 ^ nbits, repeat)
unfolding receive_lg read_gaps
receive_lg-send_lg d nbits repeat c h =
    rw
      (
        gaps-send_lg d nbits repeat c h,
        read_bits-digits nbits 0 0 d (repeat_gaps repeat),
        read_repeats-repeat_gaps repeat,
      )
      (ground arith)
