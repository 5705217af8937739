-- ===== src/Main.antt =====
-- FutronixESP8266/FutronixESP8266.ino: one turn of `loop`, and the TCP handler that runs between the
-- turns.
pub mod Switches
pub mod Handlers
pub mod EndToEnd
pub mod Runs
use futronix_alexa.Base.{ℕ, Option, some, none, List, [], ◌∷◌, if◌then◌else◌, ◌>>=◌, ℤ, pos, negsuc}
use futronix_alexa.Eeprom.Api.{Eeprom}
use futronix_alexa.Storage.Table.{Raw}
use futronix_alexa.Ir.Frame.{Pulse}
use futronix_alexa.Wemo.Fauxmo.{Datagram, Fauxmo, handle_fauxmo}
use futronix_alexa.Wemo.Fauxmo.Tcp.{Effect, reply, close, callback, handle_tcp_packet}
use futronix_alexa.Wemo.Emulator.{WemoEmulator, on_message}
use futronix_alexa.App.{set_current_scene}
use futronix_alexa.Admin.{Firmware, Request, Response, handle_request, answer_broadcast}

-- What the callbacks among a handler's effects leave in SCENE_TO_SET.
unfoldable pub queue_scenes : WemoEmulator → List Effect → ℤ → Option ℤ
queue_scenes w [] scene = some scene
queue_scenes w (reply text ∷ effects) scene = queue_scenes w effects scene
queue_scenes w (close ∷ effects) scene = queue_scenes w effects scene
queue_scenes w (callback device_id name state ∷ effects) scene =
    on_message w device_id name state >>= λ queued. elim queued [
      | none ↦ queue_scenes w effects scene
      | some scene' ↦ queue_scenes w effects scene'
    ]

-- Another emulator in the firmware.
abbrev pub with_fauxmo : {S : Type 0} → Fauxmo → Firmware S → Firmware S
with_fauxmo f w = record w {
  futronix = record w.futronix { wemo = record w.futronix.wemo { fauxmo = f } };
}

-- The end of `loop`: a scene that is queued is set.
unfoldable pub send_queued : {S : Type 0} → Firmware S → Firmware S × List Pulse
send_queued w = elim w.scene_to_set [
  | pos n ↦
      let (x, pulses) = set_current_scene (pos n) w.futronix in
      (record w { futronix = x; scene_to_set = negsuc 0 }, pulses)
  | negsuc n ↦ (w, [])
]

module _ (index_of : List ℕ → List ℕ → ℤ) where
  -- The handler of a client's data, which runs between two turns of `loop`, with all that the
  -- callback does.
  unfoldable pub receive_tcp :
      {S : Type 0} → ℕ → List ℕ → ℕ → Firmware S → Option (Firmware S × List Effect)
  receive_tcp device_id data' len w =
      handle_tcp_packet index_of device_id data' len w.futronix.wemo.fauxmo >>= λ (f, effects).
      let w' = with_fauxmo f w in
      queue_scenes w'.futronix.wemo effects w.scene_to_set >>= λ scene.
      some (record w' { scene_to_set = scene }, effects)

  -- FutronixESP8266::loop, WemoEmulator::listen, on a chip with this address
  unfoldable pub listen_wemo :
      {S : Type 0}
      → List ℕ
      → Option (List ℕ × ℕ × List ℕ)
      → ℕ
      → ℕ
      → Firmware S
      → Option (Firmware S × Option (ℕ × Datagram))
  listen_wemo local_ip packet draw now w =
      if w.futronix.wemo.enabled
      then (handle_fauxmo index_of local_ip packet draw now w.futronix.wemo.fauxmo
          >>= λ (f, answer). some (with_fauxmo f w, answer))
      else some (w, none)

  -- AdminServer::listen: the broadcast, and the request that `handleClient` finds.
  unfoldable pub listen_admin :
      {S : Type 0}
      → Eeprom S
      → Raw
      → (List ℕ → ℤ)
      → Option (List ℕ)
      → Option Request
      → Firmware S
      → Option (Firmware S × Option (List ℕ) × Option Response)
  listen_admin lib raw to_int packet request w =
      answer_broadcast w.packet_buffer packet >>= λ (buffer, answer).
      let w' = record w { packet_buffer = buffer } in
      elim request [
        | none ↦ some (w', answer, none)
        | some r ↦
            handle_request lib raw to_int r w' >>= λ (response, w''). some (w'', answer, response)
      ]

  -- loop()
  unfoldable pub loop_turn :
      {S : Type 0}
      → List ℕ
      → Eeprom S
      → Raw
      → (List ℕ → ℤ)
      → Option (List ℕ × ℕ × List ℕ)
      → ℕ
      → ℕ
      → Option (List ℕ)
      → Option Request
      → Firmware S
      → Option (Firmware S × List Pulse)
  loop_turn local_ip lib raw to_int search draw now packet request w =
      listen_wemo local_ip search draw now w >>= λ (w1, _).
      listen_admin lib raw to_int packet request w1 >>= λ (w2, _, _). some (send_queued w2)
