-- ===== src/Wemo/Fauxmo/Tcp.antt =====
-- The TCP side of FutronixESP8266/Fauxmo.h: the clients of a device, the description that they ask for,
-- and the requests that switch it.
use futronix_alexa.Base.{
  ℕ, suc, ◌+◌, Bool, true, false, Option, some, none, List, [], ◌∷◌, ◌++◌, length, get_elem?, set,
  store, c_str, codes, eq_ℤ, ℤ, pos, if◌then◌else◌, ◌>>=◌, decimal, sprintf,
}
use futronix_alexa.Wemo.Templates.{
  setup_name, setup_model, setup_end, setup_template_length, headers_length_field, headers_body,
  headers_end, headers_template_length,
}
use futronix_alexa.Wemo.Fauxmo.{Device, Slot, unset, empty, client, Fauxmo, is_positive}

-- The loop of the connect handler: the first slot that is NULL or whose client is gone.
unfoldable pub find_slot : (ℕ → Bool) → ℕ → List Slot → Option (Option ℕ)
find_slot connected i [] = some none
find_slot connected i (unset ∷ slots) = none
find_slot connected i (empty ∷ slots) = some (some i)
find_slot connected i (client c ∷ slots) =
    if connected c then find_slot connected (suc i) slots else some (some i)

-- The handler that `getTCPClientHandler` returns. `none` inside: the client is stopped.
unfoldable pub connect_client : (ℕ → Bool) → ℕ → Fauxmo → Option (Fauxmo × Option ℕ)
connect_client connected c f =
    if f.enabled
    then (find_slot connected 0 f.clients >>= λ slot. elim slot [
      | none ↦ some (f, none)
      | some i ↦ some (record f { clients = set f.clients i (client c) }, some i)
    ])
    else some (f, none)

-- What a handler does to the outside: a TCP reply, a closed client, a call of the callback.
pub data Effect : Type 0 where
  reply : List ℕ → Effect
  close : Effect
  callback : ℕ → List ℕ → Bool → Effect

-- Fauxmo::sendTCPPacket
unfoldable pub tcp_packet : List ℕ → Option (List ℕ)
tcp_packet response =
    sprintf (headers_template_length + length response + 10)
      (headers_length_field ++ decimal (length response) ++ headers_body ++ response ++ headers_end)

-- The text of /setup.xml for a device.
unfoldable pub setup_xml : Device → Option (List ℕ)
setup_xml d =
    sprintf (setup_template_length + 50)
      (setup_name ++ d.name ++ setup_model ++ d.uuid ++ setup_end)

module _ (index_of : List ℕ → List ℕ → ℤ) where
  -- The first block of `handleTCPPacket`: GET /setup.xml
  unfoldable pub handle_setup : ℕ → List ℕ → Device → Fauxmo → Option (Fauxmo × List Effect)
  handle_setup device_id content d f =
      if eq_ℤ (index_of content (codes "GET /setup.xml")) (pos 0)
      then (setup_xml d >>= λ body. tcp_packet body >>= λ text. some (
        record f { devices = set f.devices device_id (record d { hit = true }) },
        reply text ∷ close ∷ [],
      ))
      else some (f, [])

  -- The second block: POST /upnp/control/basicevent1
  unfoldable pub handle_control : ℕ → List ℕ → Device → Option (List Effect)
  handle_control device_id content d =
      if eq_ℤ (index_of content (codes "POST /upnp/control/basicevent1")) (pos 0)
      then (tcp_packet [] >>= λ text. some (
          (if is_positive (index_of content (codes "<BinaryState>0</BinaryState>"))
            then callback device_id d.name false ∷ []
            else [])
          ++ (if is_positive (index_of content (codes "<BinaryState>1</BinaryState>"))
              then callback device_id d.name true ∷ []
              else [])
          ++ reply text ∷ close ∷ []))
      else some []

  -- Fauxmo::handleTCPPacket
  unfoldable pub handle_tcp_packet : ℕ → List ℕ → ℕ → Fauxmo → Option (Fauxmo × List Effect)
  handle_tcp_packet device_id data' len f = store data' len 0 >>= λ packet.
      let content = c_str packet in
      get_elem? f.devices device_id >>= λ d. handle_setup device_id content d f >>= λ (f', effects).
      handle_control device_id content d >>= λ more. some (f', effects ++ more)
