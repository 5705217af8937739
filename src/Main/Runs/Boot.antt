-- ===== src/Main/Runs/Boot.antt =====
-- The firmware from its start on a closed EEPROM: `setup` of FutronixESP8266/FutronixESP8266.ino, and any
-- orders after it.
use futronix_alexa.Base.{
  ℕ, ◌≡◌, ◌≤◌, ◌<◌, refl, subst, Bool, true, some, List, [], ◌∷◌, length, take, All, if◌then◌else◌,
  inl, ℤ, negsuc,
}
use futronix_alexa.Eeprom.Api.{Eeprom, Documented}
use futronix_alexa.Storage.Table.{Raw}
use futronix_alexa.Storage.Database.{max_scenes}
use futronix_alexa.Storage.Database.Refines.{look}
use futronix_alexa.Storage.Database.Begin.{IsZeroed}
use futronix_alexa.Ir.Frame.{Pulse, off}
use futronix_alexa.Ir.Decode.{receive_times}
use futronix_alexa.Device.Wifi.{any}
use futronix_alexa.Wemo.Fauxmo.{Slot, new_fauxmo}
use futronix_alexa.Wemo.Fauxmo.Rounds.{IsSearching}
use futronix_alexa.Wemo.Emulator.Routes.{IsRouted}
use futronix_alexa.App.{Futronix, new_futronix, begin_futronix}
use futronix_alexa.App.Servers.{scene_routes, IsStarted, begin_futronix_lem}
use futronix_alexa.Admin.{Firmware}
use futronix_alexa.Admin.Requests.{Panel}
use futronix_alexa.Main.Runs.{Event, run_events, observe_all, IsOrderly, thrice}
use futronix_alexa.Main.Runs.Steps.{IsAwake}
use futronix_alexa.Main.Runs.Orders.{run_events_lem}

-- The globals before the first turn.
abbrev pub at_start : {S : Type 0} → List ℕ → Futronix S → Firmware S
at_start buffer y = record { futronix = y; packet_buffer = buffer; scene_to_set = negsuc 0 }

-- The view of a started firmware.
abbrev pub first_panel : {S : Type 0} {lib : Eeprom S} → Documented lib → Futronix S → Panel
first_panel doc y = record { store = look doc y.db; queued = negsuc 0; current = y.current_scene }

module _ {S : Type 0} {lib : Eeprom S} (doc : Documented lib) {raw : Raw} (z : IsZeroed raw) where
  started-IsAwake :
      (local_ip : List ℕ) (y : Futronix S) (buffer : List ℕ) (connected : Bool)
      → connected ≡ true
      → IsStarted doc z connected y
      → length buffer ≡ 512
      → IsAwake doc local_ip (at_start buffer y) (first_panel doc y)
  started-IsAwake local_ip y buffer connected online s size = record {
    shows = record {
      stored = record { running = s.running; looks = refl };
      queue = refl;
      now = refl;
    };
    routed =
        subst (λ b. if b then IsRouted y.wemo (scene_routes max_scenes 0) else Unit) online
          s.routed;
    searching = subst (λ b. if b then IsSearching y.wemo.fauxmo else Unit) online s.searching;
    ready = inl (subst (λ b. if b then y.wemo.fauxmo.rounds_left ≡ 0 else Unit) online s.idle);
    buffer = size;
  }

  -- On a closed EEPROM of any content, over zeroed memory, with a chip id of 24 bits and any
  -- address, at least twelve polls of the Wifi state of which one of the first twelve finds a
  -- connection, and a packet buffer of 512 bytes: the firmware is made and begun, and then runs
  -- without a failure through any sequence of orders: any data by TCP for one of the five devices,
  -- in blocks with room for its terminator, and turns of `loop` with any broadcast and any web
  -- request (renames of any number but 9 and the least `int`) and no search. After it the firmware
  -- is still well formed and shows what the abstract view shows: the strings of the database, the
  -- queued and the current scene. A receiver reads from the pulses three times the command of each
  -- scene that the abstract view sends, in its order, and nothing else.
  pub boot_lem :
      (to_int : List ℕ → ℤ) (index_of : List ℕ → List ℕ → ℤ) (local_ip : List ℕ) (s : S)
      (chip_id port tick : ℕ) (clients : List Slot) (polls : List Bool) (buffer : List ℕ)
      (events : List Event)
      → doc.size s ≡ 0
      → chip_id < 16777216
      → 12 ≤ length polls
      → any (take 12 polls) ≡ true
      → length buffer ≡ 512
      → All (IsOrderly to_int) events
      → (x y : Futronix S) × (w : Firmware S) × (pulses : List Pulse) × (new_futronix lib raw s
            (new_fauxmo port clients tick)
          ≡ some x)
        × (begin_futronix lib raw chip_id polls x ≡ some (y, off ∷ []))
        × (run_events lib raw to_int index_of local_ip events (at_start buffer y)
            ≡ some (w, pulses))
        × (let (p, scenes) = observe_all to_int index_of events (first_panel doc y) in
            IsAwake doc local_ip w p
            × (receive_times (length (thrice scenes)) pulses ≡ some (thrice scenes, [])))
  boot_lem to_int index_of local_ip s chip_id port tick clients polls buffer events closed chip
        enough online size h =
      let (x, y, made, begun, started) =
        begin_futronix_lem doc z s chip_id port tick clients polls closed chip enough in
      let (w, pulses, ran, awake, received) =
        run_events_lem doc z.honest to_int index_of local_ip events (at_start buffer y)
          (first_panel doc y) h
          (started-IsAwake local_ip y buffer (any (take 12 polls)) online started size) in
      (x, y, w, pulses, made, begun, ran, (awake, received))
