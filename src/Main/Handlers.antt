-- ===== src/Main/Handlers.antt =====
-- What the TCP handler does with the data of a client of one of the five devices, whatever it is.
use futronix_alexa.Base.{
  ℕ, zero, suc, ◌≡◌, ◌<◌, refl, sym, ap, ◌∙◌, Bool, true, false, ◌&&◌, ◌||◌, some, List, [], ◌∷◌,
  ◌++◌, map, map-set_same, length, length-set, get_elem?, get_elem?-map, get_or, set, store-some,
  c_str, codes, if◌then◌else◌, arith, ℤ, pos, eq_ℤ, some_inj, Bool-cases, inl, inr,
}
use futronix_alexa.Wemo.Fauxmo.{Device, Fauxmo, is_positive}
use futronix_alexa.Wemo.Fauxmo.Tcp.{
  Effect, reply, close, handle_tcp_packet, handle_setup, handle_control,
}
use futronix_alexa.Wemo.Fauxmo.Setup.{description, packet_text, setup_texts, marked}
use futronix_alexa.Wemo.Emulator.{WemoEmulator, on_message}
use futronix_alexa.Wemo.Emulator.Routes.{Route, IsRouted, lookup, on_message_lem}
use futronix_alexa.App.{scene_names}
use futronix_alexa.App.Servers.{scene_routes}
use futronix_alexa.Admin.{Firmware}
use futronix_alexa.Main.{queue_scenes, with_fauxmo, receive_tcp}
use futronix_alexa.Main.Switches.{
  lookup-scene_routes, scene_device, tcp_packet_empty, switches, queue_scenes-switches,
}

-- An object with the same devices, but for their marks.
pub record Keeps (f f' : Fauxmo) : Type 0 where
  pub same_names : map (λ (d : Device). d.name) f'.devices ≡ map (λ (d : Device). d.name) f.devices
  pub same_sizes :
      map (λ (d : Device). length d.uuid) f'.devices ≡ map (λ (d : Device). length d.uuid) f.devices
  pub same_length : length f'.devices ≡ length f.devices
  pub same_current : f'.current ≡ f.current
  pub same_rounds : f'.rounds_left ≡ f.rounds_left
  pub same_port : f'.base_port ≡ f.base_port

-- Effects without a callback.
AreQuiet : List Effect → Type 0
AreQuiet effects =
    (w : WemoEmulator) (more : List Effect) (scene : ℤ)
    → queue_scenes w (effects ++ more) scene ≡ queue_scenes w more scene

Keeps-IsRouted :
    (w : WemoEmulator) (f : Fauxmo) (rs : List Route)
    → Keeps w.fauxmo f
    → IsRouted w rs
    → IsRouted (record w { fauxmo = f }) rs
Keeps-IsRouted w f rs k r = record {
  on = r.on;
  named = k.same_names ∙ r.named;
  identified = k.same_sizes ∙ r.identified;
  counted = r.counted;
  handled = r.handled;
  room = r.room;
}

uuid_sizes :
    (k : ℕ) → k < 5 → get_elem? {A = ℕ} (map (λ (r : Route). 14) (scene_routes 5 0)) k ≡ some 14
unfolding scene_routes
uuid_sizes zero h = refl
uuid_sizes (suc zero) h = refl
uuid_sizes (suc (suc zero)) h = refl
uuid_sizes (suc (suc (suc zero))) h = refl
uuid_sizes (suc (suc (suc (suc zero)))) h = refl
uuid_sizes (suc (suc (suc (suc (suc k))))) h = absurd (omega arith)

names_short : (k : ℕ) → k < 5 → length (c_str (get_or scene_names k [])) < 40
names_short zero h = omega arith
names_short (suc zero) h = omega arith
names_short (suc (suc zero)) h = omega arith
names_short (suc (suc (suc zero))) h = omega arith
names_short (suc (suc (suc (suc zero)))) h = omega arith
names_short (suc (suc (suc (suc (suc k))))) h = absurd (omega arith)

module _ (index_of : List ℕ → List ℕ → ℤ) where
  -- Whether the handler calls back.
  abbrev pub is_switch : List ℕ → Bool
  is_switch content =
      eq_ℤ (index_of content (codes "POST /upnp/control/basicevent1")) (pos 0)
      && (is_positive (index_of content (codes "<BinaryState>0</BinaryState>"))
          || is_positive (index_of content (codes "<BinaryState>1</BinaryState>")))

  setup_any :
      (k : ℕ) (content : List ℕ) (d : Device) (f : Fauxmo)
      → get_elem? f.devices k ≡ some d
      → length d.uuid ≡ 14
      → length d.name < 40
      → (f' : Fauxmo) × (effects : List Effect) × (handle_setup index_of k content d f
          ≡ some (f', effects))
        × Keeps f f'
        × AreQuiet effects
  unfolding handle_setup queue_scenes AreQuiet
  setup_any k content d f at u short =
      elim (Bool-cases (eq_ℤ (index_of content (codes "GET /setup.xml")) (pos 0))) [
        | inl get ↦
            let (body, text) = setup_texts d u short in
            (
              marked k d f,
              reply (packet_text (description d)) ∷ close ∷ [],
              rw (get, body, text),
              record {
                same_names =
                    map-set_same (λ (x : Device). x.name) f.devices k d (record d { hit = true }) at
                      refl;
                same_sizes =
                    map-set_same (λ (x : Device). length x.uuid) f.devices k d
                      (record d { hit = true }) at refl;
                same_length = length-set f.devices k (record d { hit = true });
                same_current = refl;
                same_rounds = refl;
                same_port = refl;
              },
              λ w more scene. refl,
            )
        | inr other ↦ (
          f,
          [],
          rw other,
          record {
            same_names = refl;
            same_sizes = refl;
            same_length = refl;
            same_current = refl;
            same_rounds = refl;
            same_port = refl;
          },
          λ w more scene. refl,
        )
      ]

  queue_none :
      (w : WemoEmulator) (k : ℕ) (name : List ℕ) (off' on' : Bool) (old : ℤ)
      → (off' || on') ≡ false
      → queue_scenes w (switches k name off' on') old ≡ some old
  unfolding queue_scenes
  queue_none w k name true on' old h = absurd cc
  queue_none w k name false true old h = absurd cc
  queue_none w k name false false old h = refl

  control_any :
      (k : ℕ) (content : List ℕ) (d : Device) (w : WemoEmulator) (old scene : ℤ)
      → ((state : Bool) → on_message w k d.name state ≡ some (some scene))
      → (effects : List Effect) × (handle_control index_of k content d ≡ some effects)
        × (queue_scenes w effects old ≡ some (if is_switch content then scene else old))
  unfolding handle_control queue_scenes
  control_any k content d w old scene h =
      let off' = is_positive (index_of content (codes "<BinaryState>0</BinaryState>")) in
      let on' = is_positive (index_of content (codes "<BinaryState>1</BinaryState>")) in
      elim (Bool-cases (eq_ℤ (index_of content (codes "POST /upnp/control/basicevent1")) (pos 0))) [
        | inr other ↦ ([], rw other, rw other)
        | inl posted ↦ (
          switches k d.name off' on',
          rw (posted, tcp_packet_empty),
          elim (Bool-cases (off' || on')) [
            | inl some' ↦
                queue_scenes-switches w k d.name off' on' old scene h some' ∙ rw (posted, some')
            | inr none' ↦ queue_none w k d.name off' on' old none' ∙ rw (posted, none')
          ],
        )
      ]

  -- Any data for device `k`, in a block with room for its terminator: the scene `k` is queued if the
  -- data is a switch request, and nothing differs but the marks of the devices.
  pub receive_any :
      {S : Type 0} (k : ℕ) (data' : List ℕ) (len : ℕ) (w : Firmware S)
      → k < 5
      → IsRouted w.futronix.wemo (scene_routes 5 0)
      → len < length data'
      → (f : Fauxmo) × (effects : List Effect) × (receive_tcp index_of k data' len w
          ≡ some (
            record (with_fauxmo f w) {
              scene_to_set = if is_switch (c_str (set data' len 0)) then pos k else w.scene_to_set;
            },
            effects,
          ))
        × Keeps w.futronix.wemo.fauxmo f
        × IsRouted (with_fauxmo f w).futronix.wemo (scene_routes 5 0)
  unfolding receive_tcp handle_tcp_packet AreQuiet
  receive_any k data' len w few r room =
      let content = c_str (set data' len 0) in
      let f = w.futronix.wemo.fauxmo in
      let (d, at, name) = scene_device w.futronix.wemo k r few in
      let fourteen : length d.uuid ≡ 14 = some_inj (
        sym (get_elem?-map (λ (x : Device). length x.uuid) f.devices k d at)
        ∙ ap (λ ns. get_elem? ns k) r.identified
        ∙ uuid_sizes k few) in
      let short : length d.name < 40 = omega (arith, ap length name, names_short k few) in
      let (f', quiet, set_up, kept, calm) = setup_any k content d f at fourteen short in
      let r' = Keeps-IsRouted w.futronix.wemo f' (scene_routes 5 0) kept r in
      let w' = (with_fauxmo f' w).futronix.wemo in
      let known : lookup d.name (scene_routes 5 0) ≡ some (pos k) =
        ap (λ n. lookup n (scene_routes 5 0)) name ∙ lookup-scene_routes k few in
      let (effects, controlled, queued) =
        control_any k content d w' w.scene_to_set (pos k)
          (λ state. on_message_lem w' (scene_routes 5 0) k d.name state r' ∙ ap some known) in
      (
        f',
        quiet ++ effects,
        rw (
          store-some data' len 0 room,
          at,
          set_up,
          controlled,
          calm w' effects w.scene_to_set,
          queued,
        ),
        kept,
        r',
      )
