-- ===== src/Main/EndToEnd.antt =====
-- From a switch request by TCP to the infrared command: the handler, and the turn of `loop` after it.
use futronix_alexa.Base.{
  ℕ, ◌≡◌, ◌<◌, refl, ap, ◌∙◌, true, some, none, List, [], length, get_or, set, c_str, arith, ℤ, pos,
  negsuc, replicate,
}
use futronix_alexa.Eeprom.Api.{Eeprom}
use futronix_alexa.Storage.Table.{Raw}
use futronix_alexa.Ir.Frame.{Pulse}
use futronix_alexa.Ir.Decode.{receive_times}
use futronix_alexa.Command.{commands, set_scene}
use futronix_alexa.Command.Scenes.{receive_times-set_scene, command_of-scene}
use futronix_alexa.Wemo.Fauxmo.Tcp.{Effect}
use futronix_alexa.Wemo.Fauxmo.Rounds.{IsSearching}
use futronix_alexa.Wemo.Fauxmo.Searches.{CanReply, handle_tick}
use futronix_alexa.Wemo.Emulator.Routes.{IsRouted}
use futronix_alexa.App.{set_current_scene}
use futronix_alexa.App.Servers.{scene_routes}
use futronix_alexa.Admin.{Firmware, answer_broadcast}
use futronix_alexa.Main.{with_fauxmo, send_queued, receive_tcp, listen_admin, loop_turn}
use futronix_alexa.Main.Switches.{IsSwitch, receive_switch, listened}

module _ {S : Type 0} (lib : Eeprom S) (raw : Raw) (to_int : List ℕ → ℤ)
    (index_of : List ℕ → List ℕ → ℤ) (local_ip : List ℕ) where
  sent :
      (k : ℕ) (w : Firmware S)
      → w.scene_to_set ≡ pos k
      → send_queued w ≡ (
        record w {
          futronix = record w.futronix { current_scene = pos k };
          scene_to_set = negsuc 0;
        },
        set_scene (pos k),
      )
  unfolding send_queued set_current_scene
  sent k w queued = rw queued

  -- A turn of `loop` in which nothing comes in sends the scene that is queued, and empties the queue.
  quiet_turn :
      (draw now k : ℕ) (w : Firmware S)
      → w.futronix.wemo.enabled ≡ true
      → IsSearching w.futronix.wemo.fauxmo
      → CanReply local_ip w.futronix.wemo.fauxmo
      → w.scene_to_set ≡ pos k
      → (w' : Firmware S) × (loop_turn index_of local_ip lib raw to_int none draw now none none w
          ≡ some (w', set_scene (pos k)))
        × (w'.futronix.current_scene ≡ pos k)
        × (w'.scene_to_set ≡ negsuc 0)
  unfolding loop_turn listen_admin answer_broadcast
  quiet_turn draw now k w on h c queued =
      let (f, answer, e, s) = handle_tick index_of local_ip w.futronix.wemo.fauxmo draw now h c in
      (
        record w {
          futronix = record (with_fauxmo f w).futronix { current_scene = pos k };
          scene_to_set = negsuc 0;
        },
        rw (listened index_of local_ip draw now w f answer on e)
            (ap some (sent k (with_fauxmo f w) queued)),
        refl,
        refl,
      )

  -- On a firmware whose emulator has the five scenes, and whose next device to answer for exists,
  -- with no answer to a search left to give or, for an address of fewer than 15 characters, with
  -- UUIDs of 14 characters and ports of five digits: a request to switch device `k` (below 5) on or
  -- off, in a block with room for its terminator, is taken; a turn of `loop` with no further input
  -- then sends three frames, which a receiver reads as the command of scene `k`. After that the
  -- scene is the current one, and none is queued.
  pub scene_by_tcp :
      (k : ℕ) (data' : List ℕ) (len draw now : ℕ) (w : Firmware S)
      → k < 5
      → IsRouted w.futronix.wemo (scene_routes 5 0)
      → IsSearching w.futronix.wemo.fauxmo
      → CanReply local_ip w.futronix.wemo.fauxmo
      → len < length data'
      → IsSwitch index_of (c_str (set data' len 0))
      → (w1 w2 : Firmware S) × (effects : List Effect) × (pulses : List Pulse) × (receive_tcp
            index_of k data' len w
          ≡ some (w1, effects))
        × (loop_turn index_of local_ip lib raw to_int none draw now none none w1
            ≡ some (w2, pulses))
        × (receive_times 3 pulses ≡ some (replicate 3 (get_or commands k 0), []))
        × (w2.futronix.current_scene ≡ pos k)
        × (w2.scene_to_set ≡ negsuc 0)
  scene_by_tcp k data' len draw now w few r h c room s =
      let (effects, taken) = receive_switch index_of k data' len w few r room s in
      let w1 = record w { scene_to_set = pos k } in
      let (w2, turned, current, idle) = quiet_turn draw now k w1 r.on h c refl in
      (
        w1,
        w2,
        effects,
        set_scene (pos k),
        taken,
        turned,
        receive_times-set_scene (pos k)
            ∙ ap (λ c. some (replicate 3 c, [])) (command_of-scene k (omega arith)),
        current,
        idle,
      )
