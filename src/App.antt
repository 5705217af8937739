-- ===== src/App.antt =====
-- FutronixESP8266/FutronixESP8266.h: the firmware's main object, over its parts.
pub mod Stores
pub mod Setup
pub mod Servers
pub mod Rename
pub mod Observed
use futronix_alexa.Base.{
  ℕ, zero, suc, Bool, true, false, Option, some, List, [], ◌∷◌, get_elem?, if◌then◌else◌, ◌>>=◌, ℤ,
  negsuc, pred_ℤ, to_u32, Pointer, literal,
}
use futronix_alexa.Eeprom.Api.{Eeprom}
use futronix_alexa.Storage.Table.{Raw}
use futronix_alexa.Storage.Database.{
  Database, new_database, get_scene_count, get_wifi_ssid, get_wifi_passwd, has_been_set_up,
  set_wifi_ssid, set_wifi_passwd, get_scene_name, set_scene_name, begin_database, clear_database,
  save_database,
}
use futronix_alexa.Ir.Frame.{Pulse}
use futronix_alexa.Command.{CommandInterface, new_command, begin_command, set_scene}
use futronix_alexa.Device.Wifi.{WifiConnection, new_wifi, begin_wifi, connect}
use futronix_alexa.Wemo.Fauxmo.{Fauxmo}
use futronix_alexa.Wemo.Emulator.{WemoEmulator, new_emulator, begin_emulator, add_device}

-- class FutronixESP8266. The LED and the AWS service are made and never begun.
pub record Futronix (S : Type 0) : Type 0 where
  pub db : Database S
  pub command : CommandInterface
  pub wifi : WifiConnection
  pub wemo : WemoEmulator
  pub current_scene : ℤ

-- `_scenes`, the first five of which the database has room for.
abbrev pub scene_names : List (List ℕ)
scene_names =
    literal "scene one"
    ∷ literal "scene two"
    ∷ literal "scene three"
    ∷ literal "scene four"
    ∷ literal "scene five"
    ∷ literal "scene six"
    ∷ literal "scene seven"
    ∷ literal "scene eight"
    ∷ literal "scene nine"
    ∷ literal "scene ten"
    ∷ literal "scene eleven"
    ∷ literal "scene twelve"
    ∷ literal "scene thirteen"
    ∷ literal "scene fourteen"
    ∷ literal "scene fifteen"
    ∷ literal "scene sixteen"
    ∷ literal "scene seventeen"
    ∷ literal "scene eighteen"
    ∷ literal "scene nineteen"
    ∷ literal "scene twenty"
    ∷ []

-- The loop of `startWemoServers`, with the rounds that are left.
unfoldable pub start_loop : ℕ → ℕ → ℕ → WemoEmulator → Option WemoEmulator
start_loop chip_id zero n w = some w
start_loop chip_id (suc k) n w = get_elem? scene_names n >>= λ name.
    add_device chip_id name (record { scene_no = n }) w >>= λ (w', _).
    start_loop chip_id k (suc n) w'

module _ {S : Type 0} (lib : Eeprom S) (raw : Raw) where
  -- FutronixESP8266::FutronixESP8266. The connection is made from what the database gives before it
  -- is begun.
  unfoldable pub new_futronix : S → Fauxmo → Option (Futronix S)
  new_futronix s f = get_wifi_ssid lib raw (new_database s) >>= λ (ssid, d).
      get_wifi_passwd lib raw d >>= λ (passwd, d'). some (record {
        db = d';
        command = new_command;
        wifi = new_wifi ssid passwd;
        wemo = new_emulator f;
        current_scene = negsuc 0;
      })

  -- FutronixESP8266::setup
  unfoldable pub setup : List ℕ → List ℕ → Bool → Database S → Option (Database S)
  setup wifi_ssid wifi_passwd clear_it d =
      (if clear_it then clear_database lib raw true d else some d) >>= λ d1.
      set_wifi_ssid lib raw wifi_ssid d1 >>= λ d2.
      set_wifi_passwd lib raw wifi_passwd d2 >>= λ d3. save_database lib raw d3

  -- FutronixESP8266::startWemoServers, on the chip with this id
  unfoldable pub start_wemo_servers : ℕ → Futronix S → Option (Futronix S)
  start_wemo_servers chip_id x = start_loop chip_id (get_scene_count lib raw x.db) 0 x.wemo >>= λ w.
      some (record x { wemo = w })

  -- FutronixESP8266::begin, with the polls of the Wifi state, and the pulses that it sends.
  unfoldable pub begin_futronix : ℕ → List Bool → Futronix S → Option (Futronix S × List Pulse)
  begin_futronix chip_id polls x =
      let started = begin_wifi x.wifi in
      let (command, pulses) = begin_command x.command in
      begin_database lib raw x.db >>= λ d1. has_been_set_up lib raw d1 >>= λ (ready, d2).
      (if ready then some d2 else setup (literal "mina") (literal "HappyTime") true d2) >>= λ d3.
      connect polls started >>= λ (wifi, connected).
      let y = record x { db = d3; command = command; wifi = wifi } in
      if connected
      then (start_wemo_servers chip_id (record y { wemo = begin_emulator y.wemo }) >>= λ z.
          some (z, pulses))
      else some (y, pulses)

  -- The loop of `getAllSceneNames`, with the rounds that are left: the buffer's pointers.
  unfoldable pub names_loop : ℕ → ℕ → Database S → Option (List Pointer × Database S)
  names_loop zero n d = some ([], d)
  names_loop (suc k) n d = get_scene_name lib raw n d >>= λ (p, d').
      names_loop k (suc n) d' >>= λ (ps, d''). some (p ∷ ps, d'')

  -- FutronixESP8266::getAllSceneNames
  unfoldable pub get_all_scene_names : Database S → Option (List Pointer × Database S)
  get_all_scene_names d = names_loop (get_scene_count lib raw d) 0 d

  -- FutronixESP8266::clearSceneNames
  unfoldable pub clear_scene_names : Database S → Option (Database S)
  clear_scene_names d = clear_database lib raw false d

  -- FutronixESP8266::renameScene. The scene number goes to an `unsigned int`.
  unfoldable pub rename_scene : ℤ → List ℕ → Database S → Option (Database S)
  rename_scene scene_no scene_name d =
      set_scene_name lib raw (to_u32 (pred_ℤ scene_no)) scene_name d >>= λ d'.
      save_database lib raw d'

-- FutronixESP8266::setScene, with the pulses that it sends.
unfoldable pub set_current_scene : {S : Type 0} → ℤ → Futronix S → Futronix S × List Pulse
set_current_scene scene_no x = (record x { current_scene = scene_no }, set_scene scene_no)
