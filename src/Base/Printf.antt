-- ===== src/Base/Printf.antt =====
-- The formats of `sprintf` that the program uses, and its writing into a buffer.
use Prim.Native.Nat.{ℕ, zero, suc, ◌+◌, ◌-◌, ◌/◌, ◌%◌}
use mathlib.Core.Bool.{◌&&◌}
use mathlib.Core.List.{List, [], ◌∷◌}
use mathlib.Core.Option.{Option, none, some}
use futronix_alexa.Base.Lists.{length}
use futronix_alexa.Base.Tests.{ltb, ◌==◌, if◌then◌else◌}

-- %d of a number that is not negative. A number has no more digits than one more than itself.
unfoldable pub decimal_loop : ℕ → ℕ → List ℕ → List ℕ
decimal_loop zero n acc = acc
decimal_loop (suc f) n acc =
    let digit = 48 + n % 10 in
    let rest = decimal_loop f (n / 10) (digit ∷ acc) in if ltb n 10 then digit ∷ acc else rest

abbrev pub decimal : ℕ → List ℕ
decimal n = decimal_loop (n + 1) n []

-- A digit of %X.
abbrev pub hex_digit : ℕ → ℕ
hex_digit d = if ltb d 10 then 48 + d else 55 + d

-- %0wX: at least `w` digits.
unfoldable pub hex_loop : ℕ → ℕ → ℕ → List ℕ → List ℕ
hex_loop zero w n acc = acc
hex_loop (suc f) w n acc =
    let rest = hex_loop f (w - 1) (n / 16) (hex_digit (n % 16) ∷ acc) in
    if (n == 0) && (w == 0) then acc else rest

abbrev pub hex : ℕ → ℕ → List ℕ
hex w n = hex_loop (w + n + 1) w n []

-- sprintf into a buffer of `size` bytes: the text and its terminator have to fit.
abbrev pub sprintf : ℕ → List ℕ → Option (List ℕ)
sprintf size text = if ltb (length text) size then some text else none
