-- ===== src/App/Servers.antt =====
-- FutronixESP8266::startWemoServers and begin: the devices that Alexa sees after the start.
use mathlib.Core.List.{append-nil}
use futronix_alexa.Base.{
  ℕ, zero, suc, ◌+◌, ◌≡◌, ◌≤◌, ◌<◌, refl, sym, ap, subst, map, length-map, ◌∙◌, Bool, true, false,
  some, List, [], ◌∷◌, ◌++◌, length, get_elem?, get_or, get_elem?-eq-get_or, c_str, append_assoc,
  if◌then◌else◌, arith, Bool-cases, inl, inr, if_true, if_false, take, same_bytes, literal, null,
  negsuc,
}
use futronix_alexa.Eeprom.Api.{Eeprom, Documented}
use futronix_alexa.Storage.Table.{Raw}
use futronix_alexa.Storage.Database.{
  Database, get_scene_count, max_scenes, new_database, begin_database, has_been_set_up,
  get_wifi_ssid, get_wifi_passwd, magic_word, magic_word_index,
}
use futronix_alexa.Storage.Database.Refines.{IsRunning, look}
use futronix_alexa.Storage.Database.Texts.{has_been_set_up_lem}
use futronix_alexa.Storage.Database.Begin.{IsZeroed, begin_database_lem}
use futronix_alexa.Ir.Frame.{off}
use futronix_alexa.Command.{new_command, begin_command}
use futronix_alexa.Device.Wifi.{connect_lem, any, new_wifi, begin_wifi}
use futronix_alexa.Wemo.Fauxmo.{Slot, Device, Fauxmo, new_fauxmo}
use futronix_alexa.Wemo.Fauxmo.Rounds.{IsSearching}
use futronix_alexa.Wemo.Emulator.{WemoEmulator, new_emulator, begin_emulator}
use futronix_alexa.Wemo.Emulator.Routes.{Route, IsRouted, length-snoc, add_device_lem}
use futronix_alexa.App.{
  Futronix, scene_names, start_loop, start_wemo_servers, new_futronix, begin_futronix, setup,
}
use futronix_alexa.App.Setup.{setup_lem}

-- The routes of `k` scenes from scene `n` on.
unfoldable pub scene_routes : ℕ → ℕ → List Route
scene_routes zero n = []
scene_routes (suc k) n =
    record { name = c_str (get_or scene_names n []); scene = n } ∷ scene_routes k (suc n)

start_loop_lem :
    (chip_id k n : ℕ) (w : WemoEmulator) (rs : List Route)
    → IsRouted w rs
    → chip_id < 16777216
    → n + k ≤ 20
    → length rs ≡ n
    → (w' : WemoEmulator) × (start_loop chip_id k n w ≡ some w')
      × IsRouted w' (rs ++ scene_routes k n)
      × (w'.fauxmo.current ≡ w.fauxmo.current)
      × (w'.fauxmo.rounds_left ≡ w.fauxmo.rounds_left)
unfolding start_loop scene_routes
start_loop_lem chip_id zero n w rs r chip few many =
    (w, refl, subst (IsRouted w) (sym (append-nil rs)) r, refl, refl)
start_loop_lem chip_id (suc k) n w rs r chip few many =
    let name = get_or scene_names n [] in
    let at : get_elem? scene_names n ≡ some name =
      get_elem?-eq-get_or scene_names n [] (omega arith) in
    let route : Route = record { name = c_str name; scene = n } in
    let (w1, e1, r1, c1, l1) = add_device_lem w rs chip_id name n r chip (omega arith) in
    let (w2, e2, r2, c2, l2) =
      start_loop_lem chip_id k (suc n) w1 (rs ++ route ∷ []) r1 chip (omega arith)
        (length-snoc rs route ∙ ap suc many) in
    (
      w2,
      rw (at, e1, e2),
      subst (IsRouted w2) (append_assoc rs (route ∷ []) (scene_routes k (suc n))) r2,
      c2 ∙ c1,
      l2 ∙ l1,
    )

new_emulator-IsRouted :
    (f : Fauxmo) → f.devices ≡ [] → IsRouted (begin_emulator (new_emulator f)) []
new_emulator-IsRouted f none' = record {
  on = refl;
  named = ap (map (λ (d : Device). d.name)) none';
  identified = ap (map (λ (d : Device). length d.uuid)) none';
  counted = refl;
  handled = tt;
  room = refl;
}

if_granted : (P : Type 0) (b : Bool) → b ≡ true → P → if b then P else Unit
if_granted P true e p = p
if_granted P false e p = tt

if_denied : (P : Type 0) (b : Bool) → b ≡ false → if b then P else Unit
if_denied P true e = absurd cc
if_denied P false e = tt

-- With the five scenes, a search that has not begun stands at a device.
IsSearching-routed :
    (w : WemoEmulator)
    → IsRouted w (scene_routes max_scenes 0)
    → w.fauxmo.current ≡ 0
    → IsSearching w.fauxmo
unfolding scene_routes
IsSearching-routed w r first =
    let many : length w.fauxmo.devices ≡ 5 =
      sym (length-map (λ (d : Device). d.name) w.fauxmo.devices) ∙ ap length r.named ∙ refl in
    record { inside = omega (arith, many, first) }

module _ {S : Type 0} {lib : Eeprom S} (doc : Documented lib) (raw : Raw) where
  -- With a running database and an enabled emulator that has no device, `startWemoServers` adds the
  -- five scenes of the database, each by its name; nothing else changes.
  pub start_wemo_servers_lem :
      (chip_id : ℕ) (x : Futronix S)
      → IsRunning doc x.db
      → IsRouted x.wemo []
      → chip_id < 16777216
      → (w : WemoEmulator) × (start_wemo_servers lib raw chip_id x ≡ some (record x { wemo = w }))
        × IsRouted w (scene_routes max_scenes 0)
        × (w.fauxmo.current ≡ x.wemo.fauxmo.current)
        × (w.fauxmo.rounds_left ≡ x.wemo.fauxmo.rounds_left)
  unfolding start_wemo_servers get_scene_count
  start_wemo_servers_lem chip_id x r routed chip =
      let (w, e, r', c, l) =
        start_loop_lem chip_id max_scenes 0 x.wemo [] routed chip (omega arith) refl in
      let count : get_scene_count lib raw x.db ≡ max_scenes = if_true _ _ r.on in
      (w, rw (count, e), r', c, l)

module _ {S : Type 0} {lib : Eeprom S} (doc : Documented lib) {raw : Raw} (z : IsZeroed raw) where
  -- The database that `begin` leaves: set up, by an earlier run or by this one.
  ready_database :
      (s : S)
      → doc.size s ≡ 0
      → (d1 d2 d3 : Database S) × (ready : Bool) × (begin_database lib raw (new_database s)
          ≡ some d1)
        × (has_been_set_up lib raw d1 ≡ some (ready, d2))
        × ((if ready then some d2 else setup lib raw (literal "mina") (literal "HappyTime") true d2)
            ≡ some d3)
        × IsRunning doc d3
  ready_database s closed =
      let (d1, e1, r1, v1) = begin_database_lem doc z s closed in
      let (d2, e2, b2) = has_been_set_up_lem doc z.honest d1 r1 in
      let ready = same_bytes (c_str magic_word) (get_or (look doc d1).in_rom magic_word_index []) in
      elim (Bool-cases ready) [
        | inl set' ↦ (d1, d2, d2, ready, e1, e2, if_true _ _ set', b2.running)
        | inr fresh ↦
            let (d3, e3, b3) =
              setup_lem doc z.honest (literal "mina") (literal "HappyTime") true d2 b2.running in
            (d1, d2, d3, ready, e1, e2, if_false _ _ fresh ∙ e3, b3.running)
      ]

  -- What the start of the firmware promises, when `connected` is the outcome of the Wifi.
  pub record IsStarted (connected : Bool) (y : Futronix S) : Type 0 where
    pub running : IsRunning doc y.db
    pub command_on : y.command ≡ record { enabled = true; ir_enabled = true }
    pub wifi_state : y.wifi.is_connected ≡ connected
    pub credentials_null : (y.wifi.ssid ≡ null) × (y.wifi.passwd ≡ null)
    pub routed : if connected then IsRouted y.wemo (scene_routes max_scenes 0) else Unit
    pub searching : if connected then IsSearching y.wemo.fauxmo else Unit
    pub idle : if connected then y.wemo.fauxmo.rounds_left ≡ 0 else Unit

  start : (s : S) (f : Fauxmo) → Futronix S
  start s f = record {
    db = new_database s;
    command = new_command;
    wifi = new_wifi null null;
    wemo = new_emulator f;
    current_scene = negsuc 0;
  }

  new_futronix_lem : (s : S) (f : Fauxmo) → new_futronix lib raw s f ≡ some (start s f)
  unfolding new_futronix start get_wifi_ssid get_wifi_passwd
  new_futronix_lem s f = refl

  -- On a closed EEPROM of any content, over zeroed memory, with a chip id of 24 bits and at least
  -- twelve polls of the Wifi state at hand, the firmware is made and begun without a failure. The
  -- database then runs, the diode was switched off once, and if one of the first twelve polls found
  -- a connection then the emulator has the five scenes, its search stands at one of them, and no
  -- answer is left to give. The Wifi credentials of the connection are NULL whatever the database
  -- holds.
  pub begin_futronix_lem :
      (s : S) (chip_id port tick : ℕ) (clients : List Slot) (polls : List Bool)
      → doc.size s ≡ 0
      → chip_id < 16777216
      → 12 ≤ length polls
      → (x y : Futronix S) × (new_futronix lib raw s (new_fauxmo port clients tick) ≡ some x)
        × (begin_futronix lib raw chip_id polls x ≡ some (y, off ∷ []))
        × IsStarted (any (take 12 polls)) y
  unfolding begin_futronix start
  begin_futronix_lem s chip_id port tick clients polls closed chip enough =
      let f = new_fauxmo port clients tick in
      let x = start s f in
      let (d1, d2, d3, ready, e1, e2, e3, r3) = ready_database s closed in
      let w = record (begin_wifi x.wifi) { is_connected = any (take 12 polls) } in
      let y = record x { db = d3; command = (begin_command new_command).0; wifi = w } in
      let made = new_futronix_lem s f in
      let tried = connect_lem polls (begin_wifi x.wifi) enough in
      elim (Bool-cases (any (take 12 polls))) [
        | inr offline ↦ (
          x,
          y,
          made,
          rw (e1, e2, e3, tried, offline),
          record {
            running = r3;
            command_on = refl;
            wifi_state = refl;
            credentials_null = (refl, refl);
            routed = if_denied _ _ offline;
            searching = if_denied _ _ offline;
            idle = if_denied _ _ offline;
          },
        )
        | inl online ↦
            let w' = record w { is_connected = true } in
            let y' = record y { wifi = w'; wemo = begin_emulator y.wemo } in
            let (wemo, started, routes, still, none_left) =
              start_wemo_servers_lem doc raw chip_id y' r3 (new_emulator-IsRouted f refl) chip in
            (
              x,
              record y' { wemo = wemo },
              made,
              rw (e1, e2, e3, tried, online, started),
              record {
                running = r3;
                command_on = refl;
                wifi_state = sym online;
                credentials_null = (refl, refl);
                routed = if_granted _ _ online routes;
                searching = if_granted _ _ online (IsSearching-routed wemo routes still);
                idle = if_granted _ _ online none_left;
              },
            )
      ]
