-- ===== src/Examples/Network.antt =====
-- The theorems on the emulated devices.
use futronix_alexa.Base.{
  ℕ, suc, ◌≡◌, ◌≢◌, ◌<◌, refl, Bool, true, false, ◌&&◌, some, none, List, [], ◌∷◌, set, All,
  replicate, if◌then◌else◌, arith, ℤ, pos, negsuc, codes, literal, ◌==◌, get_elem?, inr,
  decimal_loop, ◌>>=◌, map,
}
use futronix_alexa.Wemo.Fauxmo.{handle_fauxmo}
use futronix_alexa.Wemo.Fauxmo.{client, udp_response}
use futronix_alexa.Wemo.Fauxmo.Tcp.{connect_client}
use futronix_alexa.Wemo.Fauxmo.{
  Fauxmo, Device, Datagram, empty, new_fauxmo, next_udp_response, send_udp_response, skip_loop,
}
use futronix_alexa.Wemo.Fauxmo.Rounds.{
  IsSearching, IsIdentified, origin, answers_left, next_udp_response_lem,
}
use futronix_alexa.Wemo.Fauxmo.Searches.{IsServed, ticks, ticks_lem, handle_fauxmo_overflow}
use futronix_alexa.Wemo.Fauxmo.Skips.{AreHitFrom}
use futronix_alexa.Wemo.Fauxmo.Replies.{udp_response_lem}
use futronix_alexa.Wemo.Fauxmo.Tcp.{reply, close, handle_tcp_packet}
use futronix_alexa.Wemo.Fauxmo.Setup.{packet_text, description, marked, setup_request_lem}
use futronix_alexa.Wemo.Fauxmo.Clients.{IsBusy, IsFirstFree, connect_client_lem}
use futronix_alexa.Base.{not, ◌⊎◌}
use futronix_alexa.Wemo.Emulator.{WemoEmulator, new_emulator, begin_emulator, add_device}
use futronix_alexa.Wemo.Emulator.Routes.{IsRouted, add_device_lem}

-- String::indexOf, as a search from the left.
unfoldable pub begins_with : List ℕ → List ℕ → Bool
begins_with text [] = true
begins_with [] (c ∷ cs) = false
begins_with (t ∷ text) (c ∷ cs) = (t == c) && begins_with text cs

unfoldable pub index_from : ℕ → List ℕ → List ℕ → ℤ
index_from n [] needle = if begins_with [] needle then pos n else negsuc 0
index_from n (t ∷ text) needle =
    let later = index_from (suc n) text needle in
    if begins_with (t ∷ text) needle then pos n else later

abbrev pub index_of : List ℕ → List ℕ → ℤ
index_of text needle = index_from 0 text needle

-- Two devices, the first of which was hit.
abbrev lamp : Bool → Device
lamp hit = record { name = codes "lamp"; uuid = codes "444556A1B2C300"; hit = hit; port = 52000 }

abbrev two_devices : Fauxmo
two_devices = record (new_fauxmo 52000 (replicate 10 empty) 0) {
  devices = lamp true ∷ lamp false ∷ [];
  rounds_left = 5;
}

-- The address of a chip, and one of 15 characters.
abbrev chip_ip : List ℕ
chip_ip = codes "192.168.1.20"

abbrev long_ip : List ℕ
long_ip = codes "192.168.100.100"

two_devices-IsIdentified : IsIdentified two_devices
two_devices-IsIdentified = record { uuids = refl; low = omega arith; high = omega arith }

next_udp_response_lem_example :
    ((f' : Fauxmo) × (next_udp_response long_ip two_devices ≡ some (f', none))
      × IsSearching f'
      × (origin f' ≡ origin two_devices)
      × (f'.rounds_left ≡ 0)
      × ((two_devices.rounds_left ≡ 0) ⊎ AreHitFrom two_devices.devices two_devices.current))
    ⊎ ((f' : Fauxmo) × (i : ℕ) × (d : Device) × (next_udp_response long_ip two_devices ≡ none)
        × (get_elem? two_devices.devices i ≡ some d)
        × (d.hit ≡ false)
        × IsSearching f'
        × (origin f' ≡ origin two_devices)
        × (answers_left f' < answers_left two_devices))
next_udp_response_lem_example =
    next_udp_response_lem long_ip two_devices (record { inside = omega arith })
      two_devices-IsIdentified

ticks_lem_example :
    (f : Fauxmo) × (answers : List (ℕ × Datagram)) × (ticks index_of chip_ip
        (200 ∷ 400 ∷ 450 ∷ [])
        two_devices
      ≡ some (f, answers))
    × IsServed chip_ip two_devices f answers
ticks_lem_example =
    ticks_lem index_of chip_ip (200 ∷ 400 ∷ 450 ∷ []) two_devices (record { inside = omega arith })
      (inr (omega arith, two_devices-IsIdentified))

-- The second device is answered for twice, and the third call comes too early.
twice_answered :
    ◌>>=◌ {B = ℕ × List ℕ}
      (ticks index_of chip_ip (200 ∷ 400 ∷ 450 ∷ []) two_devices)
      (λ (f, answers). some (f.rounds_left, map (λ (i, t). i) answers))
    ≡ some (3, 1 ∷ 1 ∷ [])
unfolding ticks handle_fauxmo next_udp_response skip_loop send_udp_response udp_response
    decimal_loop
twice_answered = refl

-- An emulator that has begun and has no device.
abbrev pub bare : WemoEmulator
bare = begin_emulator (new_emulator (new_fauxmo 52000 (replicate 10 empty) 0))

bare-IsRouted : IsRouted bare []
bare-IsRouted = record {
  on = refl;
  named = refl;
  identified = refl;
  counted = refl;
  handled = tt;
  room = refl;
}

add_device_lem_example :
    (w : WemoEmulator) × (add_device 0xA1B2C3 (literal "desk") (record { scene_no = 4 }) bare
      ≡ some (w, none))
    × IsRouted w (record { name = codes "desk"; scene = 4 } ∷ [])
    × (w.fauxmo.current ≡ 0)
    × (w.fauxmo.rounds_left ≡ 0)
add_device_lem_example =
    add_device_lem bare [] 0xA1B2C3 (literal "desk") 4 bare-IsRouted (omega arith) (omega arith)

-- An address of fifteen characters.
abbrev named_device : Device
named_device = record {
  name = codes "lamp";
  uuid = codes "444556A1B2C300";
  hit = false;
  port = 52000;
}

udp_response_lem_example :
    udp_response long_ip 0 (record two_devices { devices = named_device ∷ [] }) ≡ none
udp_response_lem_example =
    udp_response_lem long_ip 0 (record two_devices { devices = named_device ∷ [] }) named_device
      refl refl (omega arith) (omega arith)

-- The client 4 is gone, the others are there.
abbrev but_four : ℕ → Bool
but_four c = not (c == 4)

abbrev three_slots : Fauxmo
three_slots = record two_devices { clients = client 3 ∷ client 4 ∷ empty ∷ [] }

connect_client_lem_example :
    ((connect_client but_four 9 three_slots ≡ some (three_slots, none))
      × All (IsBusy but_four) three_slots.clients)
    ⊎ ((k : ℕ) × (connect_client but_four 9 three_slots
          ≡ some (record three_slots { clients = set three_slots.clients k (client 9) }, some k))
        × IsFirstFree but_four three_slots.clients k)
connect_client_lem_example = connect_client_lem but_four 9 three_slots refl (tt, (tt, (tt, tt)))

handle_fauxmo_overflow_example :
    handle_fauxmo index_of chip_ip
      (some (codes "10.0.0.7", 4000, codes "M-SEARCH"))
      0
      500
      two_devices
    ≡ none
handle_fauxmo_overflow_example =
    handle_fauxmo_overflow index_of chip_ip (codes "10.0.0.7") 4000 (codes "M-SEARCH") 0 500
      two_devices refl (omega arith)

abbrev pub setup_packet : List ℕ
setup_packet = literal "GET /setup.xml HTTP/1.1"

abbrev with_named : Fauxmo
with_named = record two_devices { devices = named_device ∷ lamp false ∷ [] }

setup_request_lem_example :
    (handle_tcp_packet index_of 0 setup_packet 23 with_named
      ≡ some (
        marked 0 named_device with_named,
        reply (packet_text (description named_device)) ∷ close ∷ [],
      ))
    × ((local_ip : List ℕ) (g h : Fauxmo) (t : Datagram)
        → g.devices ≡ (marked 0 named_device with_named).devices
        → IsSearching g
        → next_udp_response local_ip g ≢ some (h, some (0, t)))
unfolding index_from begins_with
setup_request_lem_example =
    setup_request_lem index_of 0 setup_packet 23 named_device with_named refl refl (omega arith)
      refl refl
