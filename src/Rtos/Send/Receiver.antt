-- ===== src/Rtos/Send/Receiver.antt =====
-- A receiver for the events, which the repository does not hold: it measures the gaps between pulses.
use futronix_alexa.Base.{
  ℕ, zero, suc, ◌+◌, ◌-◌, ◌/◌, ◌≡◌, ◌<◌, refl, ap, ◌∙◌, Bool, true, false, List, [], ◌∷◌, ◌++◌, map,
  ltb, ◌==◌, if◌then◌else◌, append_assoc, Bool-cases, inl, inr, subst, arith,
}
use futronix_alexa.Rtos.Send.{
  PinEvent, ir_on, ir_off, delay_us, pulse_loop, mark_ir, space_ir, Timing, send_bit,
}
use futronix_alexa.Rtos.Send.Bits.{send_bits}

-- The gaps in which the pin is high, with the time `dark` that it has been so. A gap of the carrier,
-- of at most 13 microseconds, is left out.
unfoldable mutual
  pub gaps : ℕ → List PinEvent → List ℕ
  gaps dark [] = dark ∷ []
  gaps dark (ir_on ∷ es) = if ltb 13 dark then dark ∷ pulses es else pulses es
  gaps dark (ir_off ∷ es) = gaps dark es
  gaps dark (delay_us n ∷ es) = gaps (dark + n) es

  -- The same while the pin is low.
  pub pulses : List PinEvent → List ℕ
  pulses [] = []
  pulses (ir_on ∷ es) = pulses es
  pulses (ir_off ∷ es) = gaps 0 es
  pulses (delay_us n ∷ es) = pulses es

-- The gap `dark` as a list, if it is not one of the carrier.
unfoldable pub kept : ℕ → List ℕ
kept dark = if ltb 13 dark then dark ∷ [] else []

gaps-pulse_loop :
    (n dark : ℕ) (es : List PinEvent)
    → gaps dark (pulse_loop (suc n) ++ es) ≡ kept dark ++ gaps 13 es
unfolding gaps pulses pulse_loop kept
gaps-pulse_loop zero dark es = ground arith
gaps-pulse_loop (suc n) dark es = ground (arith, gaps-pulse_loop n 13 es)

pub gaps-mark_ir :
    (time dark : ℕ) (es : List PinEvent) → gaps dark (mark_ir time ++ es) ≡ kept dark ++ gaps 13 es
unfolding mark_ir
gaps-mark_ir time dark es = elim (Bool-cases (time / 26 == 0)) [
  | inl short ↦ rw short (gaps-pulse_loop 0 dark es)
  | inr long ↦ rw long (
      subst (λ n. gaps dark (pulse_loop n ++ es) ≡ kept dark ++ gaps 13 es)
        {x = suc (time / 26 - 1)} (ground arith) (gaps-pulse_loop (time / 26 - 1) dark es))
]

pub gaps-space_ir :
    (time dark : ℕ) (es : List PinEvent) → gaps dark (space_ir time ++ es) ≡ gaps (dark + time) es
unfolding space_ir gaps
gaps-space_ir time dark es = refl

-- The gap that a bit leaves.
unfoldable pub gap_of : Timing → Bool → ℕ
gap_of t b = 13 + (if b then t.one_space else t.zero_space)

-- Every bit ends the gap before it, and leaves its own.
gaps-send_bit :
    (t : Timing) (b : Bool) (dark : ℕ) (es : List PinEvent)
    → gaps dark (send_bit t b ++ es) ≡ kept dark ++ gaps (gap_of t b) es
unfolding send_bit gap_of
gaps-send_bit t true dark es = rw (append_assoc (mark_ir t.one_mark) (space_ir t.one_space) es) (
    gaps-mark_ir t.one_mark dark (space_ir t.one_space ++ es)
    ∙ ap (◌++◌ (kept dark)) (gaps-space_ir t.one_space 13 es))
gaps-send_bit t false dark es = rw (append_assoc (mark_ir t.zero_mark) (space_ir t.zero_space) es) (
    gaps-mark_ir t.zero_mark dark (space_ir t.zero_space ++ es)
    ∙ ap (◌++◌ (kept dark)) (gaps-space_ir t.zero_space 13 es))

-- Both spaces can be told from the carrier.
abbrev pub IsSpaced : Timing → Type 0
IsSpaced t = (0 < t.one_space) × (0 < t.zero_space)

kept-gap_of : (t : Timing) (b : Bool) → IsSpaced t → kept (gap_of t b) ≡ gap_of t b ∷ []
unfolding kept gap_of
kept-gap_of t true h = ground arith
kept-gap_of t false h = ground arith

-- The gaps of bits in a row, up to the mark that ends the last one.
pub gaps-send_bits :
    (t : Timing) (bs : List Bool) (time dark : ℕ) (es : List PinEvent)
    → IsSpaced t
    → gaps dark (send_bits t bs ++ (mark_ir time ++ es))
      ≡ kept dark ++ (map (gap_of t) bs ++ gaps 13 es)
unfolding send_bits
gaps-send_bits t [] time dark es h = gaps-mark_ir time dark es
gaps-send_bits t (b ∷ bs) time dark es h =
    rw (append_assoc (send_bit t b) (send_bits t bs) (mark_ir time ++ es)) (
      gaps-send_bit t b dark (send_bits t bs ++ (mark_ir time ++ es))
      ∙ ap (◌++◌ (kept dark)) (
          gaps-send_bits t bs time (gap_of t b) es h
          ∙ ap (λ l. l ++ (map (gap_of t) bs ++ gaps 13 es)) (kept-gap_of t b h)))
