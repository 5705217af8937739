-- ===== src/Wemo/Fauxmo/Names.antt =====
-- Fauxmo::addDevice: the UUID of a device, which is made of the chip's id and the device's number.
use futronix_alexa.Base.{
  sizes, ℕ, zero, suc, ◌+◌, ◌-◌, ◌*◌, ◌/◌, ◌%◌, ◌≡◌, ◌<◌, refl, ap, ◌∙◌, some, none, List, [], ◌∷◌,
  ◌++◌, length, ltb, if◌then◌else◌, arith, codes, hex, hex_loop, hex_digit, if_true, lt→ltb,
}
use futronix_alexa.Wemo.Fauxmo.{device_uuid}

-- The value of a digit, and of hexadecimal digits that follow the value `v`.
abbrev digit_value : ℕ → ℕ
digit_value c = if ltb c 58 then c - 48 else c - 55

pub unhex : ℕ → List ℕ → ℕ
unhex v [] = v
unhex v (c ∷ cs) = unhex (v * 16 + digit_value c) cs

pow16 : ℕ → ℕ
pow16 zero = 1
pow16 (suc w) = 16 * pow16 w

digit_value-hex_digit : (d : ℕ) → d < 16 → digit_value (hex_digit d) ≡ d
digit_value-hex_digit d h = ground arith

hex_step :
    (f w n : ℕ) (acc : List ℕ)
    → hex_loop (suc f) (suc w) n acc ≡ hex_loop f w (n / 16) (hex_digit (n % 16) ∷ acc)
unfolding hex_loop
hex_step f w n acc = ground arith

-- The digits of a number that `w` digits hold: they are `w`, and read back as the number.
hex_loop_lem :
    (f w n v : ℕ) (acc : List ℕ)
    → w < f
    → n < pow16 w
    → (length (hex_loop f w n acc) ≡ w + length acc)
      × (unhex v (hex_loop f w n acc) ≡ unhex (v * pow16 w + n) acc)
unfolding hex_loop unhex pow16
hex_loop_lem zero w n v acc h k = absurd (omega arith)
hex_loop_lem (suc f) zero n v acc h k =
    let nothing : n ≡ 0 = omega arith in
    rw nothing (omega arith, ap (λ x. unhex x acc) (omega arith))
hex_loop_lem (suc f) (suc w) n v acc h k =
    let (l, u) =
      hex_loop_lem f w (n / 16) v (hex_digit (n % 16) ∷ acc) (omega arith) (omega arith) in
    (
      ap length (hex_step f w n acc) ∙ l ∙ omega arith,
      ap (unhex v) (hex_step f w n acc)
          ∙ u
          ∙ ap (λ x. unhex x acc) (omega (arith, digit_value-hex_digit (n % 16) (omega arith))),
    )

pub length-hex_two : (n : ℕ) → n < 256 → length (hex 2 n) ≡ 2
unfolding pow16
length-hex_two n h = (hex_loop_lem (2 + n + 1) 2 n 0 [] (omega arith) h).0

unhex-append : (v : ℕ) (xs ys : List ℕ) → unhex v (xs ++ ys) ≡ unhex (unhex v xs) ys
unfolding unhex
unhex-append v [] ys = refl
unhex-append v (x ∷ xs) ys = unhex-append (v * 16 + digit_value x) xs ys

-- A chip's id of 24 bits and a device's number below 256 make a UUID of 14 digits, which fits its
-- buffer, and reads back as the three numbers that it was made of.
pub device_uuid_lem :
    (chip_id device_id : ℕ)
    → chip_id < 16777216
    → device_id < 256
    → (uuid : List ℕ) × (device_uuid chip_id device_id ≡ some uuid)
      × (length uuid ≡ 14)
      × (unhex 0 uuid ≡ (0x444556 * 16777216 + chip_id) * 256 + device_id)
unfolding device_uuid pow16 unhex
device_uuid_lem chip_id device_id h k =
    let (l6, u6) = hex_loop_lem (6 + chip_id + 1) 6 chip_id 0x444556 [] (omega arith) h in
    let (l2, u2) =
      hex_loop_lem (2 + device_id + 1) 2 device_id (0x444556 * 16777216 + chip_id) [] (omega arith)
        k in
    let a = hex 6 chip_id in
    let b = hex 2 device_id in
    let many : length (codes "444556" ++ a ++ b) ≡ 14 = grind (sizes, l6, l2) in
    (
      codes "444556" ++ a ++ b,
      if_true _ none (lt→ltb (length (codes "444556" ++ a ++ b)) 15 (omega (arith, many))),
      many,
      unhex-append 0x444556 a b ∙ ap (λ v. unhex v b) u6 ∙ u2,
    )
