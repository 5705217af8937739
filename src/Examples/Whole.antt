-- ===== src/Examples/Whole.antt =====
-- The theorems on the web server and the whole firmware.
use futronix_alexa.Base.{
  ℕ, inl, ◌+◌, ◌≡◌, refl, true, false, Option, some, none, List, [], ◌∷◌, length, set, take,
  replicate, length-replicate, arith, pos, negsuc, c_str, codes, literal, get_or, null,
}
use futronix_alexa.Eeprom.Api.{Chip, chip_rom, chip_documented}
use futronix_alexa.Ir.Frame.{Pulse, off}
use futronix_alexa.Ir.Decode.{receive_times}
use futronix_alexa.Device.Wifi.{any, new_wifi}
use futronix_alexa.Wemo.Fauxmo.{Device, empty, new_fauxmo}
use futronix_alexa.Wemo.Fauxmo.Tcp.{Effect}
use futronix_alexa.Wemo.Emulator.{SceneCallbackHandler, WemoEmulator}
use futronix_alexa.Wemo.Emulator.Routes.{IsRouted, lookup}
use futronix_alexa.App.{Futronix, scene_names, new_futronix, begin_futronix}
use futronix_alexa.App.Servers.{scene_routes, IsStarted, begin_futronix_lem}
use futronix_alexa.Admin.{Firmware, answer_broadcast}
use futronix_alexa.Admin.Broadcast.{answer_to, answer_broadcast_lem}
use futronix_alexa.Main.{receive_tcp, loop_turn}
use futronix_alexa.Main.Switches.{IsSwitch}
use futronix_alexa.Main.EndToEnd.{scene_by_tcp}
use futronix_alexa.Examples.{blank_chip, zeroed, zeroed-IsZeroed, begun}
use futronix_alexa.Examples.Network.{index_of, index_from, begins_with, bare}

-- The firmware after its start on a blank device, with a connection.
abbrev started :
    (x y : Futronix Chip) × (new_futronix chip_rom zeroed blank_chip
        (new_fauxmo 52000 (replicate 10 empty) 0)
      ≡ some x)
    × (begin_futronix chip_rom zeroed 0xA1B2C3 (replicate 12 true) x ≡ some (y, off ∷ []))
    × IsStarted chip_documented zeroed-IsZeroed true y
unfolding any
started =
    begin_futronix_lem chip_documented zeroed-IsZeroed blank_chip 0xA1B2C3 52000 0
      (replicate 10 empty) (replicate 12 true) refl (omega arith) (omega arith)

begin_futronix_lem_example :
    (x y : Futronix Chip) × (new_futronix chip_rom zeroed blank_chip
        (new_fauxmo 52000 (replicate 10 empty) 0)
      ≡ some x)
    × (begin_futronix chip_rom zeroed 0xA1B2C3 (replicate 12 true) x ≡ some (y, off ∷ []))
    × IsStarted chip_documented zeroed-IsZeroed true y
unfolding any
begin_futronix_lem_example =
    begin_futronix_lem chip_documented zeroed-IsZeroed blank_chip 0xA1B2C3 52000 0
      (replicate 10 empty) (replicate 12 true) refl (omega arith) (omega arith)

-- An emulator with the five scenes, and a firmware around it.
abbrev scene_device : ℕ → Device
scene_device n = record {
  name = c_str (get_or scene_names n []);
  uuid = codes "444556A1B2C300";
  hit = false;
  port = 52000 + n;
}

abbrev scene_handler : ℕ → Option SceneCallbackHandler
scene_handler n = some (record { scene_no = n })

abbrev five : WemoEmulator
five = record bare {
  fauxmo = record (new_fauxmo 52000 (replicate 10 empty) 0) {
    devices =
        scene_device 0 ∷ scene_device 1 ∷ scene_device 2 ∷ scene_device 3 ∷ scene_device 4 ∷ [];
  };
  callback_handlers =
      scene_handler 0
      ∷ scene_handler 1
      ∷ scene_handler 2
      ∷ scene_handler 3
      ∷ scene_handler 4
      ∷ replicate 35 none;
  device_count = 5;
}

pub five-IsRouted : IsRouted five (scene_routes 5 0)
unfolding scene_routes
five-IsRouted = record {
  on = refl;
  named = refl;
  identified = refl;
  counted = refl;
  handled = (refl, (refl, (refl, (refl, (refl, tt)))));
  room = refl;
}

abbrev pub firmware : Firmware Chip
firmware = record {
  futronix = record {
    db = begun;
    command = record { enabled = true; ir_enabled = true };
    wifi = new_wifi null null;
    wemo = five;
    current_scene = negsuc 0;
  };
  packet_buffer = replicate 512 0;
  scene_to_set = negsuc 0;
}

abbrev pub switch_packet : List ℕ
switch_packet = literal "POST /upnp/control/basicevent1 HTTP/1.1 <BinaryState>1</BinaryState>"

pub switch_packet-IsSwitch : IsSwitch index_of (c_str (set switch_packet 68 0))
unfolding index_from begins_with
switch_packet-IsSwitch = record { no_setup = refl; posted = refl; switched = refl }

third_known : lookup (c_str (get_or scene_names 2 [])) (scene_routes 5 0) ≡ some (pos 2)
unfolding lookup scene_routes
third_known = refl

scene_by_tcp_example :
    (w1 w2 : Firmware Chip) × (effects : List Effect) × (pulses : List Pulse) × (receive_tcp
        index_of 2 switch_packet 68 firmware
      ≡ some (w1, effects))
    × (loop_turn index_of
          (codes "192.168.1.20")
          chip_rom
          zeroed
          (λ _. negsuc 0)
          none
          0
          500
          none
          none
          w1
        ≡ some (w2, pulses))
    × (receive_times 3 pulses ≡ some (replicate 3 0x13, []))
    × (w2.futronix.current_scene ≡ pos 2)
    × (w2.scene_to_set ≡ negsuc 0)
scene_by_tcp_example =
    scene_by_tcp chip_rom zeroed (λ _. negsuc 0) index_of (codes "192.168.1.20") 2 switch_packet 68
      0 500 firmware (omega arith) five-IsRouted (record { inside = omega arith }) (inl refl)
      (omega arith) switch_packet-IsSwitch

answer_broadcast_lem_example :
    (buffer' : List ℕ) × (answer_broadcast (replicate 512 7) (some (codes "hello"))
      ≡ some (buffer', answer_to (take 255 (codes "hello"))))
    × (length buffer' ≡ 512)
answer_broadcast_lem_example =
    answer_broadcast_lem (replicate 512 7) (codes "hello") (length-replicate {A = ℕ} 512 7)
