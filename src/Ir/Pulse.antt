-- ===== src/Ir/Pulse.antt =====
-- The pin, and the pulses of IRTransmitter::mark and space in FutronixESP8266/IRTransmitter.h.
use futronix_alexa.Base.{
  ℕ, suc, ◌+◌, ◌*◌, ◌/◌, ◌%◌, ◌≡◌, ◌≤◌, ◌<◌, List, [], ◌∷◌, ◌++◌, ltb, leb, ◌==◌, if◌then◌else◌,
  arith, Option, some, none, ◌>>=◌, map, length, Bool-cases, inl, inr, ltb→lt,
}
use futronix_alexa.Ir.Timer.{IrTimer, reset, elapsed, elapsed_exact, reading, u32_mod}

-- What the pin and the clock are told: digitalWrite(IR_PIN, LOW), digitalWrite(IR_PIN, HIGH),
-- delayMicroseconds(us), delay(ms).
pub data Action : Type 0 where
  pin_on : Action
  pin_off : Action
  wait_us : ℕ → Action
  wait_ms : ℕ → Action

-- IRTransmitter::pinOn, IRTransmitter::pinOff. The diode is lit by a low pin.
abbrev pub light_on : List Action
light_on = pin_on ∷ []

abbrev pub light_off : List Action
light_off = pin_off ∷ []

-- IRTransmitter::enableIROut: half a period of the carrier, in microseconds.
abbrev pub half_period : ℕ → ℕ
half_period khz = 500 / khz

-- IRTransmitter::space
pub space_actions : ℕ → List Action
space_actions time =
    light_off
    ++ (if time == 0
        then []
        else (if leb time 16383
            then wait_us time ∷ []
            else wait_ms (time / 1000) ∷ wait_us (time % 1000) ∷ []))

-- One period of the carrier: the pin on for half of it, and off for the other half.
abbrev pub carrier_period : ℕ → List Action
carrier_period half = light_on ++ wait_us half ∷ light_off ++ wait_us half ∷ []

-- IRTransmitter::mark. The list holds what micros() gives at the test before each round: `none` when
-- the readings run out before the loop has ended.
pub mark_loop : IrTimer → ℕ → ℕ → List ℕ → Option (List Action)
mark_loop t half usec [] = none
mark_loop t half usec (now ∷ clock) =
    if ltb (elapsed t now) usec
    then (mark_loop t half usec clock >>= λ rest. some (carrier_period half ++ rest))
    else some []

-- The microseconds that a train of actions waits for.
pub waited : List Action → ℕ
waited [] = 0
waited (pin_on ∷ xs) = waited xs
waited (pin_off ∷ xs) = waited xs
waited (wait_us n ∷ xs) = n + waited xs
waited (wait_ms n ∷ xs) = 1000 * n + waited xs

-- Every single wait in microseconds is one that delayMicroseconds keeps accurately.
abbrev pub IsAccurate : List Action → Type 0
IsAccurate [] = Unit
IsAccurate (pin_on ∷ xs) = IsAccurate xs
IsAccurate (pin_off ∷ xs) = IsAccurate xs
IsAccurate (wait_us n ∷ xs) = (n ≤ 16383) × IsAccurate xs
IsAccurate (wait_ms n ∷ xs) = IsAccurate xs

-- The pin is never switched on.
abbrev pub IsDark : List Action → Type 0
IsDark [] = Unit
IsDark (pin_on ∷ xs) = ⊥
IsDark (pin_off ∷ xs) = IsDark xs
IsDark (wait_us n ∷ xs) = IsDark xs
IsDark (wait_ms n ∷ xs) = IsDark xs

-- `space` waits for exactly the given time, in waits of at most 16383 microseconds or of whole
-- milliseconds, and never lights the diode.
pub space_lem :
    (time : ℕ)
    → (waited (space_actions time) ≡ time)
      × IsAccurate (space_actions time)
      × IsDark (space_actions time)
unfolding space_actions waited
space_lem time = ground arith

-- The readings that a list of distances from the start gives.
abbrev pub readings : ℕ → List ℕ → List ℕ
readings start ds = map (reading start) ds

-- Each distance is at least one more than the one before, and the counter does not wrap.
abbrev pub Advances : ℕ → ℕ → List ℕ → Type 0
Advances start least [] = Unit
Advances start least (d ∷ ds) = (least ≤ d) × (start + d < u32_mod) × Advances start (suc d) ds

mark_loop_from :
    (start half usec least : ℕ) (ds : List ℕ)
    → Advances start least ds
    → least ≤ usec
    → usec < least + length ds
    → (xs : List Action) × (mark_loop (reset start) half usec (readings start ds) ≡ some xs)
unfolding mark_loop
mark_loop_from start half usec least [] a k h = absurd (omega arith)
mark_loop_from start half usec least (d ∷ ds) a k h = elim (Bool-cases (ltb d usec)) [
  | inl more ↦
      let (rest, e) =
        mark_loop_from start half usec (suc d) ds a.2 (ltb→lt d usec more) (omega arith) in
      (carrier_period half ++ rest, rw (elapsed_exact start d a.1, more, e))
  | inr done ↦ ([], rw (elapsed_exact start d a.1, done))
]

-- `mark` ends: if the counter does not wrap and advances by at least a microsecond between two
-- readings, then `usec + 1` readings are enough.
pub mark_loop_total :
    (start half usec : ℕ) (ds : List ℕ)
    → Advances start 0 ds
    → usec < length ds
    → (xs : List Action) × (mark_loop (reset start) half usec (readings start ds) ≡ some xs)
mark_loop_total start half usec ds a h =
    mark_loop_from start half usec 0 ds a (omega arith) (omega arith)
