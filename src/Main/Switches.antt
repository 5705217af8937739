-- ===== src/Main/Switches.antt =====
-- The switch request by TCP: `receive_tcp` queues the scene of the device.
use futronix_alexa.Base.{
  ℕ, zero, suc, ◌≡◌, ◌<◌, refl, sym, ap, ◌∙◌, Bool, true, false, ◌||◌, Option, some, none, List, [],
  ◌∷◌, ◌++◌, map, length, get_elem?, get_elem?-map, get_elem?-some, get_or, set, store-some, c_str,
  codes, if◌then◌else◌, arith, ℤ, pos, eq_ℤ, length-map, decimal_loop, some_inj,
}
use futronix_alexa.Wemo.Fauxmo.{Device, Datagram, Fauxmo, is_positive, handle_fauxmo}
use futronix_alexa.Wemo.Fauxmo.Tcp.{
  Effect, reply, close, callback, handle_tcp_packet, handle_setup, handle_control, tcp_packet,
}
use futronix_alexa.Wemo.Emulator.{WemoEmulator, on_message}
use futronix_alexa.Wemo.Emulator.Routes.{Route, IsRouted, lookup, on_message_lem}
use futronix_alexa.App.{scene_names}
use futronix_alexa.App.Servers.{scene_routes}
use futronix_alexa.Admin.{Firmware}
use futronix_alexa.Main.{queue_scenes, with_fauxmo, receive_tcp, listen_wemo}

-- The reply with no body.
abbrev pub empty_reply : List ℕ
empty_reply = elim (tcp_packet []) [ none ↦ [] | some text ↦ text ]

pub tcp_packet_empty : tcp_packet [] ≡ some empty_reply
unfolding tcp_packet decimal_loop
tcp_packet_empty = refl

-- The callbacks of a switch request.
abbrev pub switches : ℕ → List ℕ → Bool → Bool → List Effect
switches device_id name off' on' =
    (if off' then callback device_id name false ∷ [] else [])
    ++ (if on' then callback device_id name true ∷ [] else [])
    ++ reply empty_reply ∷ close ∷ []

-- The callbacks queue the scene of the device's name, if there is at least one.
pub queue_scenes-switches :
    (w : WemoEmulator) (device_id : ℕ) (name : List ℕ) (off' on' : Bool) (old scene : ℤ)
    → ((state : Bool) → on_message w device_id name state ≡ some (some scene))
    → (off' || on') ≡ true
    → queue_scenes w (switches device_id name off' on') old ≡ some scene
unfolding queue_scenes
queue_scenes-switches w device_id name false false old scene h k = absurd cc
queue_scenes-switches w device_id name false true old scene h k = rw (h true)
queue_scenes-switches w device_id name true false old scene h k = rw (h false)
queue_scenes-switches w device_id name true true old scene h k = rw (h false, h true)

module _ (index_of : List ℕ → List ℕ → ℤ) where
  -- A text that `handleTCPPacket` takes for a request to switch a device on or off.
  pub record IsSwitch (content : List ℕ) : Type 0 where
    pub no_setup : eq_ℤ (index_of content (codes "GET /setup.xml")) (pos 0) ≡ false
    pub posted : eq_ℤ (index_of content (codes "POST /upnp/control/basicevent1")) (pos 0) ≡ true
    pub switched :
        (is_positive (index_of content (codes "<BinaryState>0</BinaryState>"))
          || is_positive (index_of content (codes "<BinaryState>1</BinaryState>")))
        ≡ true

  -- The effects of a switch request for a device.
  effects_of : ℕ → List ℕ → List ℕ → List Effect
  effects_of device_id name content =
      switches device_id name
        (is_positive (index_of content (codes "<BinaryState>0</BinaryState>")))
        (is_positive (index_of content (codes "<BinaryState>1</BinaryState>")))

  handle_switch :
      (device_id : ℕ) (data' : List ℕ) (len : ℕ) (f : Fauxmo) (d : Device)
      → len < length data'
      → get_elem? f.devices device_id ≡ some d
      → IsSwitch (c_str (set data' len 0))
      → handle_tcp_packet index_of device_id data' len f
        ≡ some (f, effects_of device_id d.name (c_str (set data' len 0)))
  unfolding handle_tcp_packet handle_setup handle_control effects_of
  handle_switch device_id data' len f d room at s =
      rw (store-some data' len 0 room, at, s.no_setup, s.posted, tcp_packet_empty)

  -- A request to switch a device on or off, in a block with room for its terminator, queues the
  -- scene that the routes give for the device's name, whatever was queued before, and changes
  -- nothing else.
  pub receive_tcp_lem :
      {S : Type 0} (device_id : ℕ) (data' : List ℕ) (len : ℕ) (w : Firmware S) (rs : List Route)
      (d : Device) (scene : ℤ)
      → IsRouted w.futronix.wemo rs
      → len < length data'
      → get_elem? w.futronix.wemo.fauxmo.devices device_id ≡ some d
      → lookup d.name rs ≡ some scene
      → IsSwitch (c_str (set data' len 0))
      → (effects : List Effect) × (receive_tcp index_of device_id data' len w
          ≡ some (record w { scene_to_set = scene }, effects))
  unfolding receive_tcp effects_of
  receive_tcp_lem device_id data' len w rs d scene r room at known s =
      let content = c_str (set data' len 0) in
      let queued =
        queue_scenes-switches w.futronix.wemo device_id d.name
          (is_positive (index_of content (codes "<BinaryState>0</BinaryState>")))
          (is_positive (index_of content (codes "<BinaryState>1</BinaryState>"))) w.scene_to_set
          scene
          (λ state. on_message_lem w.futronix.wemo rs device_id d.name state r ∙ ap some known)
          s.switched in
      (
        effects_of device_id d.name content,
        rw (handle_switch device_id data' len w.futronix.wemo.fauxmo d room at s, queued),
      )

-- The five names of the database's scenes are found under their own numbers.
pub lookup-scene_routes :
    (k : ℕ) → k < 5 → lookup (c_str (get_or scene_names k [])) (scene_routes 5 0) ≡ some (pos k)
unfolding lookup scene_routes
lookup-scene_routes zero h = refl
lookup-scene_routes (suc zero) h = refl
lookup-scene_routes (suc (suc zero)) h = refl
lookup-scene_routes (suc (suc (suc zero))) h = refl
lookup-scene_routes (suc (suc (suc (suc zero)))) h = refl
lookup-scene_routes (suc (suc (suc (suc (suc k))))) h = absurd (omega arith)

route_names :
    (k : ℕ)
    → k < 5
    → get_elem? (map (λ (r : Route). r.name) (scene_routes 5 0)) k
      ≡ some (c_str (get_or scene_names k []))
unfolding scene_routes
route_names zero h = refl
route_names (suc zero) h = refl
route_names (suc (suc zero)) h = refl
route_names (suc (suc (suc zero))) h = refl
route_names (suc (suc (suc (suc zero)))) h = refl
route_names (suc (suc (suc (suc (suc k))))) h = absurd (omega arith)

-- The device behind a scene.
pub scene_device :
    (w : WemoEmulator) (k : ℕ)
    → IsRouted w (scene_routes 5 0)
    → k < 5
    → (d : Device) × (get_elem? w.fauxmo.devices k ≡ some d)
      × (d.name ≡ c_str (get_or scene_names k []))
unfolding scene_routes
scene_device w k r h =
    let many : length w.fauxmo.devices ≡ 5 =
      sym (length-map (λ (d : Device). d.name) w.fauxmo.devices) ∙ ap length r.named ∙ refl in
    let (d, at) = get_elem?-some w.fauxmo.devices k (omega (arith, many)) in
    (
      d,
      at,
      some_inj (
          sym (get_elem?-map (λ (x : Device). x.name) w.fauxmo.devices k d at)
          ∙ ap (λ ns. get_elem? ns k) r.named
          ∙ route_names k h),
    )

module _ (index_of : List ℕ → List ℕ → ℤ) where
  -- On an emulator with the five scenes a request to switch device `k` queues scene `k`.
  pub receive_switch :
      {S : Type 0} (k : ℕ) (data' : List ℕ) (len : ℕ) (w : Firmware S)
      → k < 5
      → IsRouted w.futronix.wemo (scene_routes 5 0)
      → len < length data'
      → IsSwitch index_of (c_str (set data' len 0))
      → (effects : List Effect) × (receive_tcp index_of k data' len w
          ≡ some (record w { scene_to_set = pos k }, effects))
  receive_switch k data' len w few r room s =
      let (d, at, name) = scene_device w.futronix.wemo k r few in
      let known : lookup d.name (scene_routes 5 0) ≡ some (pos k) =
        ap (λ n. lookup n (scene_routes 5 0)) name ∙ lookup-scene_routes k few in
      receive_tcp_lem index_of k data' len w (scene_routes 5 0) d (pos k) r room at known s

  -- An enabled emulator passes a turn without a packet on.
  pub listened :
      {S : Type 0} (local_ip : List ℕ) (draw now : ℕ) (w : Firmware S) (f : Fauxmo)
      (answer : Option (ℕ × Datagram))
      → w.futronix.wemo.enabled ≡ true
      → handle_fauxmo index_of local_ip none draw now w.futronix.wemo.fauxmo ≡ some (f, answer)
      → listen_wemo index_of local_ip none draw now w ≡ some (with_fauxmo f w, answer)
  unfolding listen_wemo
  listened local_ip draw now w f answer on e = rw (on, e)
