-- ===== src/Wemo/Fauxmo.antt =====
-- class Fauxmo of FutronixESP8266/Fauxmo.h: emulated devices, which Alexa finds by UDP and switches
-- by TCP. The network libraries are not in the repository: packets come in as arguments, and what is
-- sent goes out as values. `String::indexOf` is a parameter.
pub mod Tcp
pub mod Skips
pub mod Rounds
pub mod Clients
pub mod Replies
pub mod Names
pub mod Searches
pub mod Setup
use futronix_alexa.Base.{
  ℕ, zero, suc, ◌+◌, ◌-◌, ◌*◌, ◌%◌, Bool, true, false, ◌&&◌, Option, some, none, List, [], ◌∷◌,
  ◌++◌, map, length, get_elem?, set, store, c_str, codes, ltb, ◌==◌, eq_ℤ, ℤ, pos, negsuc,
  if◌then◌else◌, ◌>>=◌, decimal, hex, sprintf,
}
use futronix_alexa.Wemo.Templates.{
  udp_location, udp_colon, udp_setup, udp_server, udp_end, udp_template_length,
}

abbrev pub tcp_max_clients : ℕ
tcp_max_clients = 10

abbrev pub udp_responses_interval : ℕ
udp_responses_interval = 100

abbrev pub udp_responses_tries : ℕ
udp_responses_tries = 5

-- fauxmoesp_device_t; the strings are copies of their own, and the server is known by its port.
pub record Device : Type 0 where
  pub name : List ℕ
  pub uuid : List ℕ
  pub hit : Bool
  pub port : ℕ

-- An element of `_clients`: never set, NULL, or a client.
pub data Slot : Type 0 where
  unset : Slot
  empty : Slot
  client : ℕ → Slot

-- class Fauxmo, without the callback.
pub record Fauxmo : Type 0 where
  pub enabled : Bool
  pub base_port : ℕ
  pub devices : List Device
  pub clients : List Slot
  pub rounds_left : ℕ
  pub current : ℕ
  pub last_tick : ℕ
  pub remote_ip : List ℕ
  pub remote_port : ℕ

-- Fauxmo::Fauxmo: `_clients` and `_lastTick` are not initialized.
abbrev pub new_fauxmo : ℕ → List Slot → ℕ → Fauxmo
new_fauxmo port clients tick = record {
  enabled = true;
  base_port = port;
  devices = [];
  clients = clients;
  rounds_left = 0;
  current = 0;
  last_tick = tick;
  remote_ip = [];
  remote_port = 0;
}

-- Fauxmo::sendUDPResponse: the text for a device, from the chip's address. The port is computed from
-- `_current`. The buffer is 40 bytes longer than the template.
unfoldable pub udp_response : List ℕ → ℕ → Fauxmo → Option (List ℕ)
udp_response local_ip device_id f = get_elem? f.devices device_id >>= λ d.
    sprintf (udp_template_length + 40) (
      udp_location
      ++ local_ip
      ++ udp_colon
      ++ decimal (f.base_port + f.current)
      ++ udp_setup
      ++ d.uuid
      ++ udp_server
      ++ d.uuid
      ++ udp_end)

-- What is sent to the sender of a search.
pub record Datagram : Type 0 where
  pub to_ip : List ℕ
  pub to_port : ℕ
  pub text : List ℕ

-- Fauxmo::sendUDPResponse, with what is sent.
unfoldable pub send_udp_response : List ℕ → ℕ → Fauxmo → Option Datagram
send_udp_response local_ip device_id f = udp_response local_ip device_id f >>= λ response.
    some (record { to_ip = f.remote_ip; to_port = f.remote_port; text = response })

-- The loop of `nextUDPResponse`: past the devices that were hit, round by round. The result is
-- `_roundsLeft` and `_current`.
unfoldable pub skip_loop : ℕ → List Device → ℕ → ℕ → Option (ℕ × ℕ)
skip_loop zero devices rounds current = none
skip_loop (suc fuel) devices rounds current = elim (rounds == 0) [
  | true ↦ some (rounds, current)
  | false ↦ get_elem? devices current >>= λ d. elim d.hit [
    | false ↦ some (rounds, current)
    | true ↦ elim (current + 1 == length devices) [
      | true ↦ skip_loop fuel devices (rounds - 1) 0
      | false ↦ skip_loop fuel devices rounds (current + 1)
    ]
  ]
]

-- Fuel for the loop: every device in every round, and one more test.
abbrev pub skip_fuel : Fauxmo → ℕ
skip_fuel f = f.rounds_left * length f.devices + 1

-- The end of `nextUDPResponse`: on to the next device, or to the next round.
abbrev pub advance : Fauxmo → Fauxmo
advance f =
    if f.current + 1 == length f.devices
    then record f { rounds_left = f.rounds_left - 1; current = 0 }
    else record f { current = f.current + 1 }

-- Fauxmo::nextUDPResponse, with the device that it answers for and what is sent.
unfoldable pub next_udp_response : List ℕ → Fauxmo → Option (Fauxmo × Option (ℕ × Datagram))
next_udp_response local_ip f =
    skip_loop (skip_fuel f) f.devices f.rounds_left f.current >>= λ (rounds, current).
    let f1 = record f { rounds_left = rounds; current = current } in
    if ltb 0 rounds
    then (send_udp_response local_ip current f1 >>= λ datagram.
        some (advance f1, some (current, datagram)))
    else some (f1, none)

-- Set hits to false
abbrev pub clear_hits : List Device → List Device
clear_hits = map {A = Device} (λ d. record d { hit = false })

-- Fauxmo::addDevice, on the chip with this id. The buffer for the UUID has 15 bytes.
unfoldable pub device_uuid : ℕ → ℕ → Option (List ℕ)
device_uuid chip_id device_id = sprintf 15 (codes "444556" ++ hex 6 chip_id ++ hex 2 device_id)

unfoldable pub add_fauxmo_device : ℕ → List ℕ → Fauxmo → Option Fauxmo
add_fauxmo_device chip_id device_name f =
    let device_id = length f.devices in
    device_uuid chip_id device_id >>= λ uuid.
    let device : Device = record {
      name = c_str device_name;
      uuid = uuid;
      hit = false;
      port = f.base_port + device_id;
    } in
    some (record f { devices = f.devices ++ device ∷ [] })

-- `index > 0` for an index that is -1 where nothing is found.
abbrev pub is_positive : ℤ → Bool
is_positive (pos n) = ltb 0 n
is_positive (negsuc n) = false

module _ (index_of : List ℕ → List ℕ → ℤ) where
  -- Fauxmo::handleUDPPacket. `data` is the packet's memory, `len` its length; `draw` is what
  -- random(0, _devices.size()) gives.
  unfoldable pub handle_udp_packet : List ℕ → ℕ → List ℕ → ℕ → ℕ → Fauxmo → Option Fauxmo
  handle_udp_packet ip port data' len draw f =
      if f.enabled
      then (store data' len 0 >>= λ packet.
          let content = c_str packet in
          if eq_ℤ (index_of content (codes "M-SEARCH")) (pos 0)
            && is_positive (index_of content (codes "urn:Belkin:device:**"))
          then some (record f {
            devices = clear_hits f.devices;
            remote_ip = ip;
            remote_port = port;
            current = draw;
            rounds_left = udp_responses_tries;
          })
          else some f)
      else some f

  -- Fauxmo::handle, on a chip with this address. A packet is its sender and its bytes; `now` is
  -- millis(), a 32-bit counter.
  unfoldable pub handle_fauxmo :
      List ℕ
      → Option (List ℕ × ℕ × List ℕ)
      → ℕ
      → ℕ
      → Fauxmo
      → Option (Fauxmo × Option (ℕ × Datagram))
  handle_fauxmo local_ip packet draw now f =
      (elim packet [
        | none ↦ some f
        | some (ip, port, bytes) ↦
            if ltb 0 (length bytes)
            then handle_udp_packet ip port bytes (length bytes) draw f
            else some f
      ])
      >>= λ f'.
          if ltb 0 f'.rounds_left
            && ltb udp_responses_interval ((now + 4294967296 - f'.last_tick) % 4294967296)
          then next_udp_response local_ip (record f' { last_tick = now })
          else some (f', none)
