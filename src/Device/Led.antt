-- ===== src/Device/Led.antt =====
-- FutronixESP8266/LEDOutput.h: the LED on pin 2, lit by a low pin.
use futronix_alexa.Base.{
  ℕ, zero, suc, ◌+◌, ◌*◌, ◌≡◌, Bool, true, false, List, [], ◌∷◌, ◌++◌, if◌then◌else◌, arith,
}

-- digitalWrite(LED_PIN, LOW), digitalWrite(LED_PIN, HIGH), delay(ms)
pub data Signal : Type 0 where
  low : Signal
  high : Signal
  wait_ms : ℕ → Signal

-- class LEDOutput
pub record LedOutput : Type 0 where
  pub enabled : Bool

-- LEDOutput::LEDOutput
abbrev pub new_led : LedOutput
new_led = record { enabled = false }

-- LEDOutput::begin
abbrev pub begin_led : LedOutput → LedOutput
begin_led l = record l { enabled = true }

-- LEDOutput::on
abbrev pub turn_on : LedOutput → List Signal
turn_on l = if l.enabled then low ∷ [] else []

-- LEDOutput::off
abbrev pub turn_off : LedOutput → List Signal
turn_off l = if l.enabled then high ∷ [] else []

-- LEDOutput::blink(times)
pub blink : ℕ → LedOutput → List Signal
blink zero l = []
blink (suc times) l = turn_on l ++ wait_ms 100 ∷ turn_off l ++ wait_ms 300 ∷ blink times l

-- How the pin stands after a train of signals.
pub level : Signal → List Signal → Signal
level now [] = now
level now (low ∷ xs) = level low xs
level now (high ∷ xs) = level high xs
level now (wait_ms n ∷ xs) = level now xs

-- The time of a train of signals.
pub duration : List Signal → ℕ
duration [] = 0
duration (low ∷ xs) = duration xs
duration (high ∷ xs) = duration xs
duration (wait_ms n ∷ xs) = n + duration xs

-- After `times + 1` blinks an enabled LED is dark, and one that was not enabled is as it was
-- before; each blink takes 400 milliseconds.
pub blink_lem :
    (times : ℕ) (l : LedOutput) (now : Signal)
    → (level now (blink (suc times) l) ≡ (if l.enabled then high else now))
      × (duration (blink (suc times) l) ≡ 400 * (suc times))
unfolding blink level duration
blink_lem zero l now = ground arith
blink_lem (suc times) l now = ground (arith, blink_lem times l high, blink_lem times l now)
