-- ===== src/Command/Scenes.antt =====
-- What a receiver gets for a scene.
use mathlib.Core.List.{append-nil}
use futronix_alexa.Base.{
  ℕ, zero, suc, ◌%◌, ◌≡◌, ◌≢◌, ◌<◌, refl, sym, ap, ◌∙◌, Bool, true, ◌&&◌, ◌||◌, not, Option, some,
  none, eq_ℤ, ◌>>=◌, List, [], ◌∷◌, ◌++◌, length, get_or, ltb, ◌==◌, ℤ, pos, negsuc, arith,
  replicate, if_false, Bool-cases, false, if◌then◌else◌, inl, inr, lt→ltb, ==_iff,
}
use futronix_alexa.Ir.Frame.{Pulse, send_futronix}
use futronix_alexa.Ir.Decode.{receive_times, receive_times-send_futronix_then}
use futronix_alexa.Command.{commands, command_of, set_scene}

-- Whether a test holds of the scenes `0 … count - 1`.
every_scene : (ℕ → Bool) → ℕ → Bool
every_scene test zero = true
every_scene test (suc last) = if test last then every_scene test last else false

-- What holds of all of them holds of each.
each_scene :
    (test : ℕ → Bool) (count scene : ℕ)
    → scene < count
    → every_scene test count ≡ true
    → test scene ≡ true
unfolding every_scene
each_scene test zero scene inside holds = absurd (omega arith)
each_scene test (suc last) scene inside holds = elim (Bool-cases (test last)) [
  | inl this ↦ ground (arith, this, each_scene test last scene)
  | inr fails ↦ absurd (ground (arith, holds, fails))
]

-- Every command is one of six bits, and none is 0.
in_range : ℕ → Bool
in_range n = ltb (get_or commands n 0) 64 && ltb 0 (get_or commands n 0)

in_range_table : every_scene in_range 20 ≡ true
unfolding every_scene in_range
in_range_table = refl

commands_range : (n : ℕ) → n < 20 → (get_or commands n 0 < 64) × (0 < get_or commands n 0)
unfolding in_range
commands_range n h = ground (arith, each_scene in_range 20 n h in_range_table)

-- Two scenes have two commands.
apart : ℕ → ℕ → Bool
apart n m = not (get_or commands n 0 == get_or commands m 0) || (n == m)

apart_table : every_scene (λ n. every_scene (apart n) 20) 20 ≡ true
unfolding every_scene apart
apart_table = refl

commands_injective : (n m : ℕ) → n < 20 → m < 20 → get_or commands n 0 ≡ get_or commands m 0 → n ≡ m
unfolding apart
commands_injective n m h k e = ground (
  arith,
  each_scene (apart n) 20 m k (each_scene (λ i. every_scene (apart i) 20) 20 n h apart_table),
)

pub command_of-range : (scene : ℤ) → (command_of scene < 64) × (0 < command_of scene)
unfolding command_of
command_of-range (pos n) = elim (Bool-cases (ltb n 20)) [
  | inl h ↦ rw h (commands_range n (ground arith))
  | inr h ↦ rw h (omega arith)
]
command_of-range (negsuc n) = ground arith

-- The three frames of a scene in front of others.
pub receive_times-set_scene_then :
    (scene : ℤ) (rest : List Pulse) (more : List ℕ)
    → receive_times (length more) rest ≡ some (more, [])
    → receive_times (suc (suc (suc (length more)))) (set_scene scene ++ rest)
      ≡ some (replicate 3 (command_of scene) ++ more, [])
unfolding set_scene
receive_times-set_scene_then scene rest more h =
    let c = command_of scene in
    let (small, positive) = command_of-range scene in
    let digit : c % 64 ≡ c = omega arith in
    ap (λ ps. receive_times (suc (suc (suc (length more)))) (ps ++ rest))
      (if_false [] (send_futronix c) (ground arith))
    ∙ receive_times-send_futronix_then c rest more h
    ∙ ap (λ n. some (n ∷ n ∷ n ∷ more, [])) digit

-- For every scene number, three frames are sent, and a receiver reads the scene's command from
-- each.
pub receive_times-set_scene :
    (scene : ℤ) → receive_times 3 (set_scene scene) ≡ some (replicate 3 (command_of scene), [])
unfolding receive_times
receive_times-set_scene scene =
    ap (receive_times 3) (sym (append-nil (set_scene scene)))
    ∙ receive_times-set_scene_then scene [] [] refl

pub command_of-scene : (n : ℕ) → n < 20 → command_of (pos n) ≡ get_or commands n 0
unfolding command_of
command_of-scene n h = rw (lt→ltb n 20 h)

-- The dimmer's commands in their order, each with the scene that it stands for.
abbrev pub meanings : List (ℕ × ℤ)
meanings =
    (0x02, negsuc 0)
    ∷ (0x10, pos 9)
    ∷ (0x11, pos 0)
    ∷ (0x12, pos 1)
    ∷ (0x13, pos 2)
    ∷ (0x14, pos 3)
    ∷ (0x15, pos 4)
    ∷ (0x16, pos 5)
    ∷ (0x17, pos 6)
    ∷ (0x18, pos 7)
    ∷ (0x19, pos 8)
    ∷ (0x1a, pos 10)
    ∷ (0x1b, pos 11)
    ∷ (0x1c, pos 12)
    ∷ (0x32, pos 16)
    ∷ (0x34, pos 18)
    ∷ (0x35, pos 15)
    ∷ (0x36, pos 17)
    ∷ (0x37, pos 14)
    ∷ (0x3a, pos 19)
    ∷ (0x3d, pos 13)
    ∷ []

look_up : ℕ → List (ℕ × ℤ) → Option ℤ
look_up command [] = none
look_up command ((c, scene) ∷ more) = if command == c then some scene else look_up command more

-- The scenes of the commands that a dimmer receives.
dimmer_scenes : List ℕ → Option (List ℤ)
dimmer_scenes [] = some []
dimmer_scenes (c ∷ cs) =
    look_up c meanings >>= λ scene. dimmer_scenes cs >>= λ scenes. some (scene ∷ scenes)

pub read_scenes : List Pulse → Option (List ℤ)
read_scenes pulses = receive_times 3 pulses >>= λ (commands', rest). dimmer_scenes commands'

-- The scenes that have a command of their own.
abbrev pub IsScene : ℤ → Type 0
IsScene (pos n) = n < 20
IsScene (negsuc n) = n ≡ 0

is_meant : ℕ → Bool
is_meant n = elim (look_up (get_or commands n 0) meanings) [
  | none ↦ false
  | some s ↦ eq_ℤ s (pos n)
]

is_meant_table : every_scene is_meant 20 ≡ true
unfolding every_scene is_meant look_up
is_meant_table = refl

same_scene : (a b : ℤ) → eq_ℤ a b ≡ true → a ≡ b
same_scene (pos a) (pos b) e = ap pos ((==_iff a b).0 (ground arith))
same_scene (pos a) (negsuc b) e = ground arith
same_scene (negsuc a) (pos b) e = ground arith
same_scene (negsuc a) (negsuc b) e = ground arith

is_same :
    (found : Option ℤ) (n : ℕ)
    → elim found [ none ↦ false | some s ↦ eq_ℤ s (pos n) ] ≡ true
    → found ≡ some (pos n)
is_same none n e = absurd cc
is_same (some s) n e = ap some (same_scene s (pos n) e)

is_meant_lem : (n : ℕ) → is_meant n ≡ true → look_up (get_or commands n 0) meanings ≡ some (pos n)
unfolding is_meant
is_meant_lem n e = is_same (look_up (get_or commands n 0) meanings) n e

look_up-commands : (n : ℕ) → n < 20 → look_up (get_or commands n 0) meanings ≡ some (pos n)
look_up-commands n h =
    let e : is_meant n ≡ true = each_scene is_meant 20 n h is_meant_table in is_meant_lem n e

look_up-command_of : (scene : ℤ) → IsScene scene → look_up (command_of scene) meanings ≡ some scene
unfolding command_of look_up
look_up-command_of (pos n) h =
    ap (λ c. look_up c meanings) (command_of-scene n h) ∙ look_up-commands n h
look_up-command_of (negsuc zero) h = refl
look_up-command_of (negsuc (suc n)) h = absurd (omega arith)

-- For the scene -1 and the scenes 0 to 19, a dimmer that finds each command that it receives in its
-- own table of commands, sorted and with the scene of each, reads the scene itself from each of the
-- three frames that are sent.
pub read_scenes-set_scene :
    (scene : ℤ) → IsScene scene → read_scenes (set_scene scene) ≡ some (scene ∷ scene ∷ scene ∷ [])
unfolding read_scenes dimmer_scenes
read_scenes-set_scene scene h = rw (receive_times-set_scene scene, look_up-command_of scene h)

first_received :
    (a b : ℕ)
    → ◌≡◌ {A = Option (List ℕ × List Pulse)} (some (replicate 3 a, [])) (some (replicate 3 b, []))
    → a ≡ b
first_received a b e = cc

-- The pulses of `setScene` tell the twenty scenes apart.
pub set_scene_injective :
    (n m : ℕ) → n < 20 → m < 20 → set_scene (pos n) ≡ set_scene (pos m) → n ≡ m
set_scene_injective n m h k e =
    let same : command_of (pos n) ≡ command_of (pos m) = first_received _ _ (
      sym (receive_times-set_scene (pos n))
      ∙ ap (receive_times 3) e
      ∙ receive_times-set_scene (pos m)) in
    commands_injective n m h k (sym (command_of-scene n h) ∙ same ∙ command_of-scene m k)

-- The command of a scene that is neither -1 nor one of the twenty.
command_of_stray :
    (scene : ℤ) → scene ≢ negsuc 0 → ((n : ℕ) → n < 20 → scene ≢ pos n) → command_of scene ≡ 0x3f
unfolding command_of
command_of_stray (pos n) h k = elim (Bool-cases (ltb n 20)) [
  | inl e ↦ absurd (k n (ground arith) refl)
  | inr e ↦ rw e
]
command_of_stray (negsuc zero) h k = absurd (h refl)
command_of_stray (negsuc (suc n)) h k = ground arith

-- For a scene that is neither -1 nor one of the twenty, whatever its number, a receiver reads the
-- command 0x3f, which is meant for the scene 255, from each of the three frames that are sent.
pub receive_times-set_scene_stray :
    (scene : ℤ)
    → scene ≢ negsuc 0
    → ((n : ℕ) → n < 20 → scene ≢ pos n)
    → receive_times 3 (set_scene scene) ≡ some (replicate 3 0x3f, [])
receive_times-set_scene_stray scene h k =
    receive_times-set_scene scene ∙ ap (λ c. some (replicate 3 c, [])) (command_of_stray scene h k)
