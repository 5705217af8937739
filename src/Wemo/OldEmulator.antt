-- ===== src/Wemo/OldEmulator.antt =====
-- The emulator of FutronixESP8266/WemoEmulator.h that stands behind __OLD_VERSION__: a list of servers.
-- `servers` is the front of `_servers`, up to `_serverCount`.
pub mod Entries
use futronix_alexa.Base.{
  ℕ, suc, Bool, true, false, ◌&&◌, Option, some, none, List, [], ◌∷◌, ◌++◌, map, length, get_elem?,
  set, splice, c_str, ltb, leb, if◌then◌else◌, ◌>>=◌, same_bytes, codes, ℤ,
}
use futronix_alexa.Wemo.Fauxmo.{is_positive}
use futronix_alexa.Wemo.Emulator.{SceneCallbackHandler, server_count_limit}
use futronix_alexa.Wemo.Server.{WemoServer, new_server, search_reply, stop_server}

-- class WemoEmulator, the older one
pub record OldEmulator : Type 0 where
  pub servers : List WemoServer
  pub packet_buffer : List ℕ
  pub enabled : Bool
  pub is_running : Bool

-- WemoEmulator::WemoEmulator, with what the buffer held.
abbrev pub new_old_emulator : List ℕ → OldEmulator
new_old_emulator buffer = record {
  servers = [];
  packet_buffer = buffer;
  enabled = false;
  is_running = false;
}

-- WemoEmulator::begin; `multicast` is what beginMulticast gives.
abbrev pub begin_old_emulator : Bool → OldEmulator → OldEmulator
begin_old_emulator multicast w = record w { enabled = true; is_running = multicast }

-- WemoEmulator::stop
unfoldable pub stop_old_emulator : OldEmulator → OldEmulator
stop_old_emulator w = if w.enabled then record w { servers = map stop_server w.servers } else w

-- WemoEmulator::addDevice; the result is always false.
unfoldable pub add_server :
    ℕ → List ℕ → ℕ → SceneCallbackHandler → OldEmulator → Option (OldEmulator × Bool)
add_server chip_id device_name local_port h w =
    if w.enabled && ltb (length w.servers) server_count_limit
    then (new_server chip_id device_name local_port h >>= λ s.
        some (record w { servers = w.servers ++ s ∷ [] }, false))
    else some (w, false)

-- The loop of `getDeviceIndexByName`, from server `n` on. -1 is `none`.
unfoldable pub server_index : ℕ → List ℕ → List WemoServer → Option ℕ
server_index n device_name [] = none
server_index n device_name (s ∷ servers) =
    if same_bytes s.device_name (c_str device_name)
    then some n
    else server_index (suc n) device_name servers

-- WemoEmulator::getDeviceIndexByName
unfoldable pub get_device_index : List ℕ → OldEmulator → Option ℕ
get_device_index device_name w = if w.enabled then server_index 0 device_name w.servers else none

-- WemoEmulator::replaceDevice; the result is always false.
unfoldable pub replace_server :
    ℕ → List ℕ → List ℕ → SceneCallbackHandler → OldEmulator → Option (OldEmulator × Bool)
replace_server chip_id device_name new_device_name h w = elim (get_device_index device_name w) [
  | none ↦ some (w, false)
  | some i ↦ get_elem? w.servers i >>= λ server.
      new_server chip_id new_device_name server.local_port h >>= λ s.
      some (record w { servers = set w.servers i s }, false)
]

-- The replies of all servers to a search.
unfoldable pub replies : List ℕ → List WemoServer → Option (List (List ℕ))
replies local_ip [] = some []
replies local_ip (s ∷ servers) =
    search_reply local_ip s >>= λ text. replies local_ip servers >>= λ texts. some (text ∷ texts)

-- WemoEmulator::listen, with the replies that are sent. The packet is read into the buffer of 512 bytes
-- with no test of its size, and with no terminator. The constant 'M-SEARCH' is a `char`, the last of
-- its characters: `index_of_char` is the `indexOf` of a character.
unfoldable pub listen_old_emulator :
    (List ℕ → ℕ → ℤ)
    → (List ℕ → List ℕ → ℤ)
    → List ℕ
    → List ℕ
    → OldEmulator
    → Option (OldEmulator × List (List ℕ))
listen_old_emulator index_of_char index_of local_ip packet w =
    if w.enabled && ltb 0 (length packet)
    then (if leb (length packet) (length w.packet_buffer)
        then (let buffer = splice w.packet_buffer 0 packet in
            let request = c_str buffer in
            let w' = record w { packet_buffer = buffer } in
            if ltb (length request) (length buffer)
            then (if is_positive (index_of_char request 72)
                  && is_positive (index_of request (codes "urn:Belkin:device:**"))
                then (replies local_ip w.servers >>= λ texts. some (w', texts))
                else some (w', []))
            else none)
        else none)
    else some (w, [])
