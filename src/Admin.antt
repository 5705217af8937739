-- ===== src/Admin.antt =====
-- FutronixESP8266/AdminServer.h: the web server for administration. Requests come in as their
-- arguments, and responses go out as values; the server library and `String::toInt` are parameters.
pub mod Broadcast
pub mod SceneNames
pub mod Requests
pub mod Failures
use futronix_alexa.Base.{
  ℕ, suc, ◌+◌, ◌*◌, true, Option, some, none, List, [], ◌∷◌, ◌++◌, length, codes, literal,
  if◌then◌else◌, ◌>>=◌, ltb, ◌==◌, ℤ, pos, negsuc, Pointer, deref, c_str, strcmp_eq, decimal,
  sprintf, store, splice, take,
}
use futronix_alexa.Eeprom.Api.{Eeprom}
use futronix_alexa.Storage.Table.{Raw}
use futronix_alexa.Storage.Database.{Database, get_scene_count, has_been_set_up, magic_word}
use futronix_alexa.App.{Futronix, get_all_scene_names, clear_scene_names, rename_scene, setup}

-- send(code, "text/plain", body)
pub record Response : Type 0 where
  pub code : ℕ
  pub body : List ℕ

abbrev pub ok_empty : Response
ok_empty = record { code = 200; body = [] }

-- The routes of `begin`, with the arguments that their handlers ask for.
pub data Request : Type 0 where
  get_scene_names : Request
  clear_names : Request
  rename : List ℕ → List ℕ → Request
  set_scene_to : List ℕ → Request
  get_current_scene : Request
  restart_wemo_servers : Request
  set_up : List ℕ → List ℕ → List ℕ → Request
  status : Request

-- String(scene), in decimal.
abbrev pub show_ℤ : ℤ → List ℕ
show_ℤ (pos n) = decimal n
show_ℤ (negsuc n) = 45 ∷ decimal (n + 1)

-- The loop of `handleGetSceneNames`, at scene `n`, with the text that stands in `responseBuffer`: a
-- line is printed to a buffer of 100 bytes, and copied behind what is there, with its terminator.
unfoldable pub lines_loop : ℕ → ℕ → List Pointer → List ℕ → Option (List ℕ)
lines_loop room n [] text = some text
lines_loop room n (p ∷ ps) text = deref p >>= λ m.
    sprintf 100 (decimal (n + 1) ++ codes ":" ++ c_str m ++ codes "\n") >>= λ line.
    if ltb (length text + length line) room then lines_loop room (suc n) ps (text ++ line) else none

-- The firmware as the handlers see it: the main object, `_packetBuffer` of the server, and the global
-- SCENE_TO_SET.
pub record Firmware (S : Type 0) : Type 0 where
  pub futronix : Futronix S
  pub packet_buffer : List ℕ
  pub scene_to_set : ℤ

module _ {S : Type 0} (lib : Eeprom S) (raw : Raw) where
  -- AdminServer::handleGetSceneNames. With no scene the response buffer is read before anything is
  -- written to it.
  unfoldable pub handle_get_scene_names : Database S → Option (Response × Database S)
  handle_get_scene_names d =
      let scene_count = get_scene_count lib raw d in
      get_all_scene_names lib raw d >>= λ (scenes, d').
      lines_loop (100 * scene_count) 0 scenes [] >>= λ text.
      if scene_count == 0 then none else some (record { code = 200; body = text }, d')

  -- AdminServer::handleSetup
  unfoldable pub handle_set_up :
      List ℕ → List ℕ → List ℕ → Database S → Option (Response × Database S)
  handle_set_up clear_db_arg wifi_ssid wifi_passwd d =
      setup lib raw wifi_ssid wifi_passwd (strcmp_eq clear_db_arg (literal "true")) d >>= λ d'.
      some (ok_empty, d')

  -- AdminServer::handleStatus
  unfoldable pub handle_status : Database S → Option (Response × Database S)
  handle_status d = has_been_set_up lib raw d >>= λ (ready, d').
      some (record { code = if ready then 200 else 404; body = [] }, d')

  -- A handler's effect on the database is one on the firmware.
  abbrev pub with_database :
      (Database S → Option (Response × Database S))
      → Firmware S
      → Option (Option Response × Firmware S)
  with_database h w = h w.futronix.db >>= λ (response, d).
      some (some response, record w { futronix = record w.futronix { db = d } })

  module _ (to_int : List ℕ → ℤ) where
    -- AdminServer::handleSetScene, which queues the scene.
    unfoldable pub handle_set_scene : List ℕ → Firmware S → Response × Firmware S
    handle_set_scene scene w = (ok_empty, record w { scene_to_set = to_int scene })

    -- AdminServer::handleRenameScene
    unfoldable pub handle_rename_scene :
        List ℕ → List ℕ → Database S → Option (Response × Database S)
    handle_rename_scene scene name d =
        rename_scene lib raw (to_int scene) name d >>= λ d'. some (ok_empty, d')

    -- The handlers that `AdminServer::begin` installs; handleRestartWemoServers sends nothing.
    unfoldable pub handle_request : Request → Firmware S → Option (Option Response × Firmware S)
    handle_request get_scene_names w = with_database handle_get_scene_names w
    handle_request clear_names w =
        with_database (λ d. clear_scene_names lib raw d >>= λ d'. some (ok_empty, d')) w
    handle_request (rename scene name) w = with_database (handle_rename_scene scene name) w
    handle_request (set_scene_to scene) w =
        let (response, w') = handle_set_scene scene w in some (some response, w')
    handle_request get_current_scene w =
        some (some (record { code = 200; body = show_ℤ w.futronix.current_scene }), w)
    handle_request restart_wemo_servers w = some (none, w)
    handle_request (set_up clear_db_arg wifi_ssid wifi_passwd) w =
        with_database (handle_set_up clear_db_arg wifi_ssid wifi_passwd) w
    handle_request status w = with_database handle_status w

-- AdminServer::listen, the part that answers a broadcast: `packet` is what `parsePacket` found, and
-- `read` takes at most 255 bytes of it. The results are `_packetBuffer` and what goes back to the
-- sender.
unfoldable pub answer_broadcast : List ℕ → Option (List ℕ) → Option (List ℕ × Option (List ℕ))
answer_broadcast buffer none = some (buffer, none)
answer_broadcast buffer (some packet) =
    let bytes = take 255 packet in
    if ltb 0 (length bytes)
    then (store (splice buffer 0 bytes) (length bytes) 0 >>= λ text.
        some (text, if strcmp_eq text magic_word then some (codes "80") else none))
    else some (buffer, none)
