-- ===== src/Rtos/Send/Bits.antt =====
-- `sendData` as a list of bits, highest or lowest first.
use native.Mathlib.Nat.{pow-suc, div-div-eq-div-mul, pow-le-pow_right, div-eq_of_lt, lt_of_lt_of_le}
use futronix_alexa.Base.{
  ℕ, zero, suc, ◌+◌, ◌-◌, ◌*◌, ◌/◌, ◌%◌, ◌^◌, ◌≡◌, ◌≤◌, ◌<◌, refl, ap, ap₂, subst, sym, ◌∙◌, Bool,
  ltb, ltb→lt, true, false, List, [], ◌∷◌, ◌++◌, ◌==◌, append_assoc, arith, if_false, Bool-cases,
  inl, inr,
}
use mathlib.Core.List.{reverse, reverse-cons, reverse-reverse}
use futronix_alexa.Rtos.Send.{
  PinEvent, Timing, send_bit, pad_loop, mask_loop, shift_loop, send_data,
}

-- The `n` low digits of a number, the highest first.
unfoldable pub digits : ℕ → ℕ → List Bool
digits zero d = []
digits (suc n) d = ((d / 2 ^ n) % 2 == 1) ∷ digits n d

-- The same, the lowest first.
digits_up : ℕ → ℕ → List Bool
digits_up zero d = []
digits_up (suc n) d = (d % 2 == 1) ∷ digits_up n (d / 2)

-- Bits in a row.
unfoldable pub send_bits : Timing → List Bool → List PinEvent
send_bits t [] = []
send_bits t (b ∷ bs) = send_bit t b ++ send_bits t bs

pow-suc' : (n : ℕ) → 2 ^ suc n ≡ 2 * 2 ^ n
pow-suc' n = omega (arith, pow-suc 2 n)

pow-half : (n : ℕ) → 2 ^ suc n / 2 ≡ 2 ^ n
pow-half n = omega (arith, pow-suc 2 n)

pow-pos : (n : ℕ) → 0 < 2 ^ n
pow-pos zero = omega arith
pow-pos (suc n) = omega (arith, pow-suc 2 n, pow-pos n)

pow-ne : (n : ℕ) → (2 ^ suc n == 0) ≡ false
pow-ne n = ground (arith, pow-pos (suc n))

digits-half : (n d : ℕ) → digits (suc n) d ≡ digits n (d / 2) ++ (d % 2 == 1) ∷ []
unfolding digits
digits-half zero d = ap (λ k. (k % 2 == 1) ∷ []) (omega arith)
digits-half (suc n) d =
    ap₂ (λ k l. (k % 2 == 1) ∷ l)
      (ap (λ k. d / k) (pow-suc' n) ∙ sym (div-div-eq-div-mul d 2 (2 ^ n))) (digits-half n d)

digits-up : (n d : ℕ) → digits n d ≡ reverse (digits_up n d)
unfolding digits_up digits
digits-up zero d = refl
digits-up (suc n) d =
    digits-half n d
    ∙ ap (λ l. l ++ (d % 2 == 1) ∷ []) (digits-up n (d / 2))
    ∙ sym (reverse-cons (d % 2 == 1) (digits_up n (d / 2)))

digits_up-reverse : (n d : ℕ) → digits_up n d ≡ reverse (digits n d)
digits_up-reverse n d = sym (reverse-reverse (digits_up n d)) ∙ ap reverse (sym (digits-up n d))

shift_loop-digits_up : (t : Timing) (n d : ℕ) → shift_loop t n d ≡ send_bits t (digits_up n d)
unfolding shift_loop send_bits digits_up
shift_loop-digits_up t zero d = refl
shift_loop-digits_up t (suc n) d =
    ap (◌++◌ (send_bit t (d % 2 == 1))) (shift_loop-digits_up t n (d / 2))

mask_loop-digits :
    (t : Timing) (k rounds d : ℕ)
    → suc k < rounds
    → mask_loop t rounds (2 ^ k) d ≡ send_bits t (digits (suc k) d)
unfolding mask_loop send_bits digits
mask_loop-digits t k zero d h = absurd (omega arith)
mask_loop-digits t zero (suc zero) d h = absurd (omega arith)
mask_loop-digits t zero (suc (suc rounds)) d h = refl
mask_loop-digits t (suc k) (suc rounds) d h =
    rw (if_false _ _ (pow-ne k), pow-half k)
      (ap (◌++◌ (send_bit t ((d / 2 ^ suc k) % 2 == 1)))
        (mask_loop-digits t k rounds d (omega arith)))

high_digit : (n d : ℕ) → d < 2 ^ 64 → 64 ≤ n → ((d / 2 ^ n) % 2 == 1) ≡ false
high_digit n d h k =
    let e : d / 2 ^ n ≡ 0 =
      div-eq_of_lt (lt_of_lt_of_le h (pow-le-pow_right {n = 2} (omega arith) k)) in
    rw e

send_bits-digits :
    (t : Timing) (n d : ℕ)
    → send_bits t (digits (suc n) d) ≡ send_bit t ((d / 2 ^ n) % 2 == 1) ++ send_bits t (digits n d)
unfolding send_bits digits
send_bits-digits t n d = refl

-- Above the 64 bits of the data there are zeros.
pad_loop-digits :
    (t : Timing) (n m d : ℕ)
    → d < 2 ^ 64
    → n ≡ m + 64
    → pad_loop t m ++ send_bits t (digits 64 d) ≡ send_bits t (digits n d)
unfolding pad_loop
pad_loop-digits t n zero d h e =
    subst (λ k. send_bits t (digits 64 d) ≡ send_bits t (digits k d)) (sym e) refl
pad_loop-digits t zero (suc m) d h e = absurd (omega arith)
pad_loop-digits t (suc n) (suc m) d h e =
    rw (send_bits-digits t n d, high_digit n d h (omega arith))
      (append_assoc (send_bit t false) (pad_loop t m) (send_bits t (digits 64 d))
        ∙ ap (◌++◌ (send_bit t false)) (pad_loop-digits t n m d h (omega arith)))

-- The branch for the highest bit first.
msb_branch : Timing → ℕ → ℕ → List PinEvent
msb_branch t nbits d = pad_loop t (nbits - 64) ++ mask_loop t 65 (2 ^ (nbits - (nbits - 64) - 1)) d

ge_of_ltb : (k : ℕ) → ltb k 64 ≡ false → 64 ≤ k
ge_of_ltb k h = ground arith

top_bit_low : (k : ℕ) → k < 64 → suc k - (suc k - 64) - 1 ≡ k
top_bit_low k h = omega arith

no_pad : (k : ℕ) → k < 64 → suc k - 64 ≡ 0
no_pad k h = omega arith

top_bit_high : (k : ℕ) → 64 ≤ k → suc k - (suc k - 64) - 1 ≡ 63
top_bit_high k h = omega arith

msb_branch-digits :
    (t : Timing) (k d : ℕ) → d < 2 ^ 64 → msb_branch t (suc k) d ≡ send_bits t (digits (suc k) d)
unfolding msb_branch pad_loop
msb_branch-digits t k d h = elim (Bool-cases (ltb k 64)) [
  | inl low ↦
      rw (top_bit_low k (ltb→lt k 64 low), no_pad k (ltb→lt k 64 low))
        (mask_loop-digits t k 65 d (omega (arith, ltb→lt k 64 low)))
  | inr high ↦ rw (top_bit_high k (ge_of_ltb k high)) (
      ap (◌++◌ (pad_loop t (suc k - 64))) (mask_loop-digits t 63 65 d (omega arith))
      ∙ pad_loop-digits t (suc k) (suc k - 64) d h (omega (arith, ge_of_ltb k high)))
]

suc-ne : (k : ℕ) → (suc k == 0) ≡ false
suc-ne k = ground arith

-- For data of 64 bits and any number of bits, `sendData` sends the low bits of the data, above 64
-- bits with zeros: the highest first or the lowest first, so that one order is the reverse of the
-- other.
pub send_data_lem :
    (t : Timing) (d nbits : ℕ)
    → d < 2 ^ 64
    → (send_data t d nbits true ≡ send_bits t (digits nbits d))
      × (send_data t d nbits false ≡ send_bits t (reverse (digits nbits d)))
unfolding send_data digits msb_branch send_bits
send_data_lem t d zero h = (refl, refl)
send_data_lem t d (suc k) h = rw (suc-ne k) (
  msb_branch-digits t k d h,
  shift_loop-digits_up t (suc k) d ∙ ap (send_bits t) (digits_up-reverse (suc k) d),
)
