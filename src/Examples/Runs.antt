-- ===== src/Examples/Runs.antt =====
-- The theorems on requests and on whole runs.
use futronix_alexa.Admin.Failures.{NamesNine, handle_request-none}
use futronix_alexa.Base.{
  ◌↔◌, inl, none, ℕ, ◌≡◌, refl, true, some, none, List, [], ◌∷◌, length, replicate,
  length-replicate, arith, ℤ, pos, negsuc, codes, literal, All,
}
use futronix_alexa.Eeprom.Api.{Chip, chip_rom, chip_documented}
use futronix_alexa.Storage.Database.{magic_word}
use futronix_alexa.Storage.Database.Refines.{look}
use futronix_alexa.Ir.Frame.{Pulse, off}
use futronix_alexa.Ir.Decode.{receive_times}
use futronix_alexa.Device.Wifi.{any}
use futronix_alexa.Wemo.Fauxmo.{empty, new_fauxmo}
use futronix_alexa.App.{Futronix, new_futronix, begin_futronix}
use futronix_alexa.Admin.{Firmware, rename, status, set_scene_to, handle_request}
use futronix_alexa.Admin.Requests.{Panel, respond, Shows, Answered, handle_request_lem}
use futronix_alexa.Main.Runs.{Event, tcp, turn, run_events, observe, observe_all, IsOrderly, thrice}
use futronix_alexa.Main.Runs.Steps.{IsAwake}
use futronix_alexa.Main.Runs.Orders.{run_events_lem}
use futronix_alexa.Main.Runs.Boot.{at_start, first_panel, boot_lem}
use futronix_alexa.Examples.{blank_chip, zeroed, zeroed-IsZeroed, begun, begun-IsRunning}
use futronix_alexa.Examples.Network.{index_of, index_from, begins_with, setup_packet}
use futronix_alexa.Examples.Whole.{firmware, five-IsRouted, switch_packet}

-- The address of a chip.
abbrev chip_ip : List ℕ
chip_ip = codes "192.168.1.20"

-- String::toInt, for texts that hold the number 4.
abbrev four : List ℕ → ℤ
four _ = pos 4

abbrev panel : Panel
panel = record { store = look chip_documented begun; queued = negsuc 0; current = negsuc 0 }

firmware-Shows : Shows chip_documented firmware panel
firmware-Shows = record {
  stored = record { running = begun-IsRunning; looks = refl };
  queue = refl;
  now = refl;
}

handle_request_lem_example :
    Answered chip_documented
      (handle_request chip_rom zeroed four (rename (codes "4") (literal "attic")) firmware)
      firmware
      (respond four (rename (codes "4") (literal "attic")) panel)
handle_request_lem_example =
    handle_request_lem chip_documented zeroed-IsZeroed.honest four
      (rename (codes "4") (literal "attic")) firmware panel (omega arith, omega arith)
      firmware-Shows

-- String::toInt, for texts that hold the number 9.
abbrev nine : List ℕ → ℤ
nine _ = pos 9

handle_request-none_example :
    (handle_request chip_rom zeroed nine (rename (codes "9") (literal "attic")) firmware ≡ none)
    ↔ NamesNine nine (rename (codes "9") (literal "attic"))
handle_request-none_example =
    handle_request-none chip_documented zeroed-IsZeroed.honest nine
      (rename (codes "9") (literal "attic")) firmware panel (omega arith) firmware-Shows

-- Two switches and a request for a description before a turn, a rename and a broadcast, and a scene from the web.
abbrev events : List Event
events =
    tcp 0 switch_packet 68
    ∷ tcp 2 switch_packet 68
    ∷ tcp 1 setup_packet 23
    ∷ turn 0 500 none none
    ∷ turn 3 800 (some magic_word) (some (rename (codes "4") (literal "attic")))
    ∷ turn 1 900 none (some (set_scene_to (codes "4")))
    ∷ turn 0 950 none (some status)
    ∷ []

events-IsOrderly : All (IsOrderly four) events
events-IsOrderly = (
  (omega arith, omega arith),
  (
    (omega arith, omega arith),
    ((omega arith, omega arith), (tt, ((omega arith, omega arith), (tt, (tt, tt))))),
  ),
)

run_events_lem_example :
    let r = observe_all four index_of events panel in
    (w' : Firmware Chip) × (pulses : List Pulse) × (run_events chip_rom zeroed four index_of chip_ip
        events firmware
      ≡ some (w', pulses))
    × IsAwake chip_documented chip_ip w' r.0
    × (receive_times (length (thrice r.1)) pulses ≡ some (thrice r.1, []))
run_events_lem_example =
    run_events_lem chip_documented zeroed-IsZeroed.honest four index_of chip_ip events firmware
      panel events-IsOrderly
      (record {
        shows = firmware-Shows;
        routed = five-IsRouted;
        searching = record { inside = omega arith };
        ready = inl refl;
        buffer = length-replicate {A = ℕ} 512 0;
      })

boot_lem_example :
    (x y : Futronix Chip) × (w : Firmware Chip) × (pulses : List Pulse) × (new_futronix chip_rom
        zeroed blank_chip
        (new_fauxmo 52000 (replicate 10 empty) 0)
      ≡ some x)
    × (begin_futronix chip_rom zeroed 0xA1B2C3 (replicate 12 true) x ≡ some (y, off ∷ []))
    × (run_events chip_rom zeroed four index_of chip_ip events (at_start (replicate 512 0) y)
        ≡ some (w, pulses))
    × (let r = observe_all four index_of events (first_panel chip_documented y) in
        IsAwake chip_documented chip_ip w r.0
        × (receive_times (length (thrice r.1)) pulses ≡ some (thrice r.1, [])))
unfolding any
boot_lem_example =
    boot_lem chip_documented zeroed-IsZeroed four index_of chip_ip blank_chip 0xA1B2C3 52000 0
      (replicate 10 empty) (replicate 12 true) (replicate 512 0) events refl (omega arith)
      (omega arith) refl (length-replicate {A = ℕ} 512 0) events-IsOrderly

-- The scenes that are sent.
sent_scenes : (observe_all four index_of events panel).1 ≡ pos 2 ∷ pos 4 ∷ []
unfolding observe_all observe respond index_from begins_with
sent_scenes = refl
