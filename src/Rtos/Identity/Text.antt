-- ===== src/Rtos/Identity/Text.antt =====
-- The text that `get_my_id` makes of an address.
use futronix_alexa.Base.{
  ℕ, ◌/◌, ◌%◌, ◌≡◌, ◌<◌, true, Option, some, List, [], ◌∷◌, ◌++◌, hex_digit, codes, All, refl, ◌≢◌,
  HasNoZero, c_str-append_zero, arith,
}
use futronix_alexa.Rtos.Identity.{
  Identity, id_digit, expand_loop, get_my_id, client_name, new_identity,
}

-- Two digits for each byte.
pub hex_text : List ℕ → List ℕ
hex_text [] = []
hex_text (b ∷ bs) = hex_digit (b / 16) ∷ hex_digit (b % 16) ∷ hex_text bs

id_digit_lem : (x : ℕ) → x < 16 → id_digit x ≡ hex_digit x
unfolding id_digit
id_digit_lem x h = ground arith

digit-ne_zero : (x : ℕ) → hex_digit x ≢ 0
digit-ne_zero x = ground arith

-- The buffer is 13 bytes long: six for the address, and the rest.
expand_six :
    (a b c d e f r0 r1 r2 r3 r4 r5 r6 : ℕ)
    → expand_loop 6 (a ∷ b ∷ c ∷ d ∷ e ∷ f ∷ r0 ∷ r1 ∷ r2 ∷ r3 ∷ r4 ∷ r5 ∷ r6 ∷ [])
      ≡ some (
          id_digit (a / 16)
          ∷ id_digit (a % 16)
          ∷ id_digit (b / 16)
          ∷ id_digit (b % 16)
          ∷ id_digit (c / 16)
          ∷ id_digit (c % 16)
          ∷ id_digit (d / 16)
          ∷ id_digit (d % 16)
          ∷ id_digit (e / 16)
          ∷ id_digit (e % 16)
          ∷ id_digit (f / 16)
          ∷ id_digit (f % 16)
          ∷ r6
          ∷ [])
unfolding expand_loop
expand_six a b c d e f r0 r1 r2 r3 r4 r5 r6 = refl

hex_text-HasNoZero : (bs : List ℕ) → HasNoZero (hex_text bs)
unfolding hex_text
hex_text-HasNoZero [] = tt
hex_text-HasNoZero (b ∷ bs) =
    (digit-ne_zero (b / 16), (digit-ne_zero (b % 16), hex_text-HasNoZero bs))

module _ (a b c d e f : ℕ) (bytes : All (λ x. x < 256) (a ∷ b ∷ c ∷ d ∷ e ∷ f ∷ [])) where
  expand_mac :
      expand_loop 6 (a ∷ b ∷ c ∷ d ∷ e ∷ f ∷ 0 ∷ 0 ∷ 0 ∷ 0 ∷ 0 ∷ 0 ∷ 0 ∷ [])
      ≡ some (hex_text (a ∷ b ∷ c ∷ d ∷ e ∷ f ∷ []) ++ 0 ∷ [])
  unfolding hex_text
  expand_mac = rw (
    expand_six a b c d e f 0 0 0 0 0 0 0,
    id_digit_lem (a / 16) (omega arith),
    id_digit_lem (a % 16) (omega arith),
    id_digit_lem (b / 16) (omega arith),
    id_digit_lem (b % 16) (omega arith),
    id_digit_lem (c / 16) (omega arith),
    id_digit_lem (c % 16) (omega arith),
    id_digit_lem (d / 16) (omega arith),
    id_digit_lem (d % 16) (omega arith),
    id_digit_lem (e / 16) (omega arith),
    id_digit_lem (e % 16) (omega arith),
    id_digit_lem (f / 16) (omega arith),
    id_digit_lem (f % 16) (omega arith),
  )

  -- On a fresh buffer, `get_my_id` turns the six bytes of an address into their twelve hexadecimal
  -- digits and a terminator, in place. A later call gives the same text, whatever the interface
  -- says then; and the name of the client, `ESP-` with the digits, fits its buffer of 20 bytes.
  pub get_my_id_lem :
      (later : Option (List ℕ))
      → let text = hex_text (a ∷ b ∷ c ∷ d ∷ e ∷ f ∷ []) in
        let s : Identity = record { my_id = text ++ 0 ∷ []; my_id_done = true } in
        (get_my_id (some (a ∷ b ∷ c ∷ d ∷ e ∷ f ∷ [])) new_identity
          ≡ some (s, some (text ++ 0 ∷ [])))
        × (get_my_id later s ≡ some (s, some (text ++ 0 ∷ [])))
        × (client_name later s ≡ some (s, codes "ESP-" ++ text))
  unfolding get_my_id client_name hex_text
  get_my_id_lem later = (
    rw expand_mac refl,
    refl,
    rw (c_str-append_zero _ [] (hex_text-HasNoZero (a ∷ b ∷ c ∷ d ∷ e ∷ f ∷ []))) refl,
  )
