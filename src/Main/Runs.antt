-- ===== src/Main/Runs.antt =====
-- Runs of FutronixESP8266/FutronixESP8266.ino: turns of `loop`, and between them the TCP handler, in any
-- order, against the abstract view of the firmware.
pub mod Steps
pub mod Orders
pub mod Boot
use futronix_alexa.Base.{
  ℕ, suc, ◌≡◌, ◌<◌, refl, sym, ap, ◌∙◌, Option, some, none, List, [], ◌∷◌, ◌++◌, append_assoc,
  length, set, c_str, replicate, if◌then◌else◌, ◌>>=◌, ℤ, pos, negsuc,
}
use futronix_alexa.Eeprom.Api.{Eeprom}
use futronix_alexa.Storage.Table.{Raw}
use futronix_alexa.Ir.Frame.{Pulse}
use futronix_alexa.Ir.Decode.{receive_times}
use futronix_alexa.Command.{command_of, set_scene}
use futronix_alexa.Command.Scenes.{receive_times-set_scene_then}
use futronix_alexa.Admin.{Firmware, Request}
use futronix_alexa.Admin.Requests.{Panel, respond, IsInRange}
use futronix_alexa.Main.{receive_tcp, loop_turn}
use futronix_alexa.Main.Handlers.{is_switch}

-- Data of a client of device `k`, in a block of which the first `len` bytes were received; or a turn of
-- `loop` at which no search has arrived, with the draw of `random`, the time, the broadcast and the
-- request.
pub data Event : Type 0 where
  tcp : ℕ → List ℕ → ℕ → Event
  turn : ℕ → ℕ → Option (List ℕ) → Option Request → Event

module _ {S : Type 0} (lib : Eeprom S) (raw : Raw) (to_int : List ℕ → ℤ)
    (index_of : List ℕ → List ℕ → ℤ) (local_ip : List ℕ) where
  unfoldable pub run_event : Event → Firmware S → Option (Firmware S × List Pulse)
  run_event (tcp device_id data' len) w =
      receive_tcp index_of device_id data' len w >>= λ (w', _). some (w', [])
  run_event (turn draw now packet request) w =
      loop_turn index_of local_ip lib raw to_int none draw now packet request w

  unfoldable pub run_events : List Event → Firmware S → Option (Firmware S × List Pulse)
  run_events [] w = some (w, [])
  run_events (e ∷ events) w = run_event e w >>= λ (w1, pulses).
      run_events events w1 >>= λ (w2, more). some (w2, pulses ++ more)

-- The end of a turn: a scene that is queued becomes the current one.
abbrev pub flush : Panel → Panel × List ℤ
flush p = elim p.queued [
  | pos n ↦ (record p { queued = negsuc 0; current = pos n }, pos n ∷ [])
  | negsuc n ↦ (p, [])
]

module _ (to_int : List ℕ → ℤ) where
  abbrev pub served : Option Request → Panel → Panel
  served none p = p
  served (some request) p = (respond to_int request p).1

  module _ (index_of : List ℕ → List ℕ → ℤ) where
    -- The view after an event, and the scenes that are sent: a switch request queues the scene of its
    -- device, other data of a client does nothing, and a turn serves its request and sends the scene
    -- that is then queued.
    unfoldable pub observe : Event → Panel → Panel × List ℤ
    observe (tcp device_id data' len) p = (
      record p {
        queued = if is_switch index_of (c_str (set data' len 0)) then pos device_id else p.queued;
      },
      [],
    )
    observe (turn draw now packet request) p = flush (served request p)

    unfoldable pub observe_all : List Event → Panel → Panel × List ℤ
    observe_all [] p = (p, [])
    observe_all (e ∷ events) p =
        let (p1, scenes) = observe e p in
        let (p2, more) = observe_all events p1 in (p2, scenes ++ more)

  -- Data for one of the five devices, in a block with room for its terminator; or a turn whose request
  -- is in range.
  abbrev pub IsOrderly : Event → Type 0
  IsOrderly (tcp device_id data' len) = (device_id < 5) × (len < length data')
  IsOrderly (turn draw now packet none) = Unit
  IsOrderly (turn draw now packet (some request)) = IsInRange to_int request

pub orderly :
    (to_int : List ℕ → ℤ) (draw now : ℕ) (packet : Option (List ℕ)) (request : Option Request)
    → IsOrderly to_int (turn draw now packet request)
    → IsOrderly to_int (turn 0 0 packet request)
orderly to_int draw now packet none h = h
orderly to_int draw now packet (some request) h = h

-- Three times the command of each scene.
unfoldable pub thrice : List ℤ → List ℕ
thrice [] = []
thrice (s ∷ scenes) = replicate 3 (command_of s) ++ thrice scenes

unfoldable pub all_pulses : List ℤ → List Pulse
all_pulses [] = []
all_pulses (s ∷ scenes) = set_scene s ++ all_pulses scenes

pub receive_times-all_pulses :
    (scenes : List ℤ)
    → receive_times (length (thrice scenes)) (all_pulses scenes) ≡ some (thrice scenes, [])
unfolding thrice all_pulses receive_times
receive_times-all_pulses [] = refl
receive_times-all_pulses (s ∷ scenes) =
    receive_times-set_scene_then s (all_pulses scenes) (thrice scenes)
      (receive_times-all_pulses scenes)

pub all_pulses-append : (xs ys : List ℤ) → all_pulses (xs ++ ys) ≡ all_pulses xs ++ all_pulses ys
unfolding all_pulses
all_pulses-append [] ys = refl
all_pulses-append (x ∷ xs) ys =
    ap (λ more. set_scene x ++ more) (all_pulses-append xs ys)
    ∙ sym (append_assoc (set_scene x) (all_pulses xs) (all_pulses ys))
