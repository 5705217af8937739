-- ===== src/Wemo/Fauxmo/Skips.antt =====
-- The loop of Fauxmo::nextUDPResponse, over the devices that were hit.
use futronix_alexa.Base.{
  ℕ, zero, suc, ◌+◌, ◌*◌, ◌≡◌, ◌≤◌, ◌<◌, refl, sym, ap, ◌∙◌, true, false, some, List, length,
  get_elem?, get_elem?-some, get_elem?-lt, some_inj, ◌==◌, arith, Bool-cases, inl, inr, ◌⊎◌, ==_iff,
}
use futronix_alexa.Wemo.Fauxmo.{Device, skip_loop}

-- A device that has not asked for its description since the search.
abbrev pub IsUnhit : List Device → ℕ → Type 0
IsUnhit devices i = (d : Device) × (get_elem? devices i ≡ some d) × (d.hit ≡ false)

-- Every device from the given one on has asked for its description.
abbrev pub AreHitFrom : List Device → ℕ → Type 0
AreHitFrom devices i = (k : ℕ) (d : Device) → i ≤ k → get_elem? devices k ≡ some d → d.hit ≡ true

-- Where the loop stops: the rounds are over, or at a device that was not hit, and it only moves on; the rounds are over only
-- if they were, or if no device was left in this round.
pub record IsSkipped (devices : List Device) (rounds current r c : ℕ) : Type 0 where
  pub inside : c < length devices
  pub onward : r * length devices + current ≤ rounds * length devices + c
  pub stopped : (r ≡ 0) ⊎ IsUnhit devices c
  pub passed : r ≡ 0 → (rounds ≡ 0) ⊎ AreHitFrom devices current

skip_unhit :
    (fuel : ℕ) (devices : List Device) (rounds current : ℕ) (d : Device)
    → get_elem? devices current ≡ some d
    → d.hit ≡ false
    → skip_loop (suc fuel) devices (suc rounds) current ≡ some (suc rounds, current)
unfolding skip_loop
skip_unhit fuel devices rounds current d at hit = ground (arith, at, hit)

skip_last :
    (fuel : ℕ) (devices : List Device) (rounds current : ℕ) (d : Device)
    → get_elem? devices current ≡ some d
    → d.hit ≡ true
    → (current + 1 == length devices) ≡ true
    → skip_loop (suc fuel) devices (suc rounds) current ≡ skip_loop fuel devices rounds 0
unfolding skip_loop
skip_last fuel devices rounds current d at hit last = ground (arith, at, hit, last)

skip_next :
    (fuel : ℕ) (devices : List Device) (rounds current : ℕ) (d : Device)
    → get_elem? devices current ≡ some d
    → d.hit ≡ true
    → (current + 1 == length devices) ≡ false
    → skip_loop (suc fuel) devices (suc rounds) current
      ≡ skip_loop fuel devices (suc rounds) (current + 1)
unfolding skip_loop
skip_next fuel devices rounds current d at hit more = ground (arith, at, hit, more)

hit_at :
    (devices : List Device) (current : ℕ) (d : Device)
    → get_elem? devices current ≡ some d
    → d.hit ≡ true
    → (k : ℕ) (x : Device) → k ≡ current
    → get_elem? devices k ≡ some x
    → x.hit ≡ true
hit_at devices current d at hit k x e at' =
    let same : x ≡ d = some_inj (sym at' ∙ ap (get_elem? devices) e ∙ at) in
    ap (λ (y : Device). y.hit) same ∙ hit

hit_last :
    (devices : List Device) (current : ℕ) (d : Device)
    → get_elem? devices current ≡ some d
    → d.hit ≡ true
    → current + 1 ≡ length devices
    → AreHitFrom devices current
hit_last devices current d at hit end k x h at' =
    hit_at devices current d at hit k x (omega (arith, get_elem?-lt devices k at')) at'

hit_more :
    (devices : List Device) (current : ℕ) (d : Device)
    → get_elem? devices current ≡ some d
    → d.hit ≡ true
    → AreHitFrom devices (current + 1)
    → AreHitFrom devices current
hit_more devices current d at hit rest k x h at' = elim (Bool-cases (k == current)) [
  | inl same ↦ hit_at devices current d at hit k x ((==_iff k current).0 same) at'
  | inr apart ↦ rest k x (ground arith) at'
]

pub skip_loop_lem :
    (fuel : ℕ) (devices : List Device) (rounds current : ℕ)
    → current < length devices
    → 0 < fuel
    → rounds * length devices < fuel + current
    → (r c : ℕ) × (skip_loop fuel devices rounds current ≡ some (r, c))
      × IsSkipped devices rounds current r c
unfolding skip_loop
skip_loop_lem zero devices rounds current h p k = absurd (omega arith)
skip_loop_lem (suc fuel) devices zero current h p k = (
  zero,
  current,
  refl,
  record { inside = h; onward = omega arith; stopped = inl refl; passed = λ e. inl refl },
)
skip_loop_lem (suc fuel) devices (suc rounds) current h p k =
    let (d, at) = get_elem?-some devices current h in
    elim (Bool-cases d.hit) [
      | inr unhit ↦ (
        suc rounds,
        current,
        skip_unhit fuel devices rounds current d at unhit,
        record {
          inside = h;
          onward = omega arith;
          stopped = inr (d, at, unhit);
          passed = λ e. absurd (omega arith);
        },
      )
      | inl hit ↦ elim (Bool-cases (current + 1 == length devices)) [
        | inl last ↦
            let end = (==_iff (current + 1) (length devices)).0 last in
            let (r, c, e, s) =
              skip_loop_lem fuel devices rounds 0 (omega arith) (omega arith) (omega arith) in
            (
              r,
              c,
              skip_last fuel devices rounds current d at hit last ∙ e,
              record {
                inside = s.inside;
                onward = omega (arith, s.onward);
                stopped = s.stopped;
                passed = λ over. inr (hit_last devices current d at hit end);
              },
            )
        | inr more ↦
            let (r, c, e, s) =
              skip_loop_lem fuel devices (suc rounds) (current + 1) (ground arith) (omega arith)
                (omega arith) in
            (
              r,
              c,
              skip_next fuel devices rounds current d at hit more ∙ e,
              record {
                inside = s.inside;
                onward = omega (arith, s.onward);
                stopped = s.stopped;
                passed = λ over. inr (
                    hit_more devices current d at hit (elim (s.passed over) [
                      | inl e' ↦ absurd (omega (arith, e'))
                      | inr rest ↦ rest
                    ]));
              },
            )
      ]
    ]
