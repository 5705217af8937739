-- ===== src/Wemo/Emulator.antt =====
-- FutronixESP8266/WemoEmulator.h (the version that is compiled) and SceneCallbackHandler.h: which
-- scene a device stands for.
pub mod Routes
use futronix_alexa.Base.{
  ℕ, suc, ◌+◌, Bool, true, false, Option, some, none, List, [], ◌∷◌, get_elem?, set, length,
  same_bytes, if◌then◌else◌, ◌>>=◌, ltb, ◌==◌, ℤ, pos, negsuc, replicate,
}
use futronix_alexa.Wemo.Fauxmo.{Fauxmo, Device, add_fauxmo_device}
use futronix_alexa.Wemo.Fauxmo.Tcp.{callback}

-- class SceneCallbackHandler: `_sceneNo`.
pub record SceneCallbackHandler : Type 0 where
  pub scene_no : ℕ

-- SceneCallbackHandler::handleCallback. The result is what CommandInterface::setSceneOnMainThread
-- writes to SCENE_TO_SET.
unfoldable pub handle_callback : ℕ → SceneCallbackHandler → Option ℤ
handle_callback param h = if param == 0 then none else some (pos h.scene_no)

abbrev pub server_count_limit : ℕ
server_count_limit = 40

-- class WemoEmulator. A handler that was never set is `none`.
pub record WemoEmulator : Type 0 where
  pub enabled : Bool
  pub callback_handlers : List (Option SceneCallbackHandler)
  pub fauxmo : Fauxmo
  pub device_count : ℕ
  pub is_running : Bool

-- WemoEmulator::WemoEmulator
abbrev pub new_emulator : Fauxmo → WemoEmulator
new_emulator f = record {
  enabled = false;
  callback_handlers = replicate server_count_limit none;
  fauxmo = f;
  device_count = 0;
  is_running = false;
}

-- WemoEmulator::begin. The callback that it installs is `on_message`.
abbrev pub begin_emulator : WemoEmulator → WemoEmulator
begin_emulator w = record w { is_running = false; enabled = true }

-- WemoEmulator::addDevice. The handler goes to the array with no test of its bound. Where a device
-- is added, the function ends with no `return`, and its result is never set.
unfoldable pub add_device :
    ℕ → List ℕ → SceneCallbackHandler → WemoEmulator → Option (WemoEmulator × Option Bool)
add_device chip_id device_name h w =
    if w.enabled
    then (add_fauxmo_device chip_id device_name w.fauxmo >>= λ f.
        if ltb w.device_count (length w.callback_handlers)
        then some (
          record w {
            fauxmo = f;
            callback_handlers = set w.callback_handlers w.device_count (some h);
            device_count = w.device_count + 1;
          },
          none,
        )
        else none)
    else some (w, some false)

-- The loop of the callback: the index of the first device of that name.
unfoldable pub find_device : List ℕ → ℕ → List Device → Option ℕ
find_device name i [] = none
find_device name i (d ∷ ds) = if same_bytes name d.name then some i else find_device name (suc i) ds

-- The callback that `begin` installs: the handler of the device of that name is called with 1, for a
-- device that is switched on or off. The result is what is written to SCENE_TO_SET.
unfoldable pub on_message : WemoEmulator → ℕ → List ℕ → Bool → Option (Option ℤ)
on_message w device_id device_name state = elim (find_device device_name 0 w.fauxmo.devices) [
  | none ↦ some none
  | some i ↦ get_elem? w.callback_handlers i >>= λ slot. slot >>= λ h. some (handle_callback 1 h)
]

-- WemoEmulator::stop
abbrev pub stop_emulator : WemoEmulator → WemoEmulator
stop_emulator w = w

-- WemoEmulator::replaceDevice, which replaces nothing.
abbrev pub replace_device : List ℕ → List ℕ → SceneCallbackHandler → WemoEmulator → Bool
replace_device device_name new_device_name h w = if w.enabled then false else false

-- WemoEmulator::getDeviceIndexByName
abbrev pub device_index_by_name : List ℕ → ℤ
device_index_by_name device_name = negsuc 0
