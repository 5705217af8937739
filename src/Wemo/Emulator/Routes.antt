-- ===== src/Wemo/Emulator/Routes.antt =====
-- WemoEmulator as a table of routes: the name of each device, and the scene that it stands for.
use futronix_alexa.Base.{
  ℕ, suc, ◌+◌, ◌≡◌, ◌<◌, refl, sym, ap, subst, ◌∙◌, Bool, true, false, Option, some, none, List, [],
  ◌∷◌, ◌++◌, map, length, get_elem?, set, same_bytes, c_str, if◌then◌else◌, arith, Bool-cases, inl,
  inr, ◌⊎◌, ℤ, pos, if_true, if_false, lt→ltb, length-set, length-map,
}
use futronix_alexa.Wemo.Fauxmo.{Device, add_fauxmo_device}
use futronix_alexa.Wemo.Fauxmo.Names.{device_uuid_lem}
use futronix_alexa.Wemo.Emulator.{
  SceneCallbackHandler, WemoEmulator, handle_callback, add_device, find_device, on_message,
  server_count_limit,
}

-- A device's name and its scene.
pub record Route : Type 0 where
  pub name : List ℕ
  pub scene : ℕ

-- The scene of the first device of that name.
unfoldable pub lookup : List ℕ → List Route → Option ℤ
lookup text [] = none
lookup text (r ∷ rs) = if same_bytes text r.name then some (pos r.scene) else lookup text rs

-- The handlers of the routes stand at the start of the array.
abbrev pub AreHandled : List Route → List (Option SceneCallbackHandler) → Type 0
AreHandled [] hs = Unit
AreHandled (r ∷ rs) [] = ⊥
AreHandled (r ∷ rs) (h ∷ hs) = (h ≡ some (record { scene_no = r.scene })) × AreHandled rs hs

AreHandled-set :
    (rs : List Route) (hs : List (Option SceneCallbackHandler)) (name : List ℕ) (scene : ℕ)
    → AreHandled rs hs
    → length rs < length hs
    → AreHandled
        (rs ++ record { name = name; scene = scene } ∷ [])
        (set hs (length rs) (some (record { scene_no = scene })))
AreHandled-set [] [] name scene a h = absurd (omega arith)
AreHandled-set [] (x ∷ hs) name scene a h = (refl, tt)
AreHandled-set (r ∷ rs) [] name scene a h = a
AreHandled-set (r ∷ rs) (x ∷ hs) name scene a h =
    (a.0, AreHandled-set rs hs name scene a.1 (omega arith))

-- The state of an emulator with these routes.
pub record IsRouted (w : WemoEmulator) (rs : List Route) : Type 0 where
  pub on : w.enabled ≡ true
  pub named : map (λ (d : Device). d.name) w.fauxmo.devices ≡ map (λ (r : Route). r.name) rs
  pub identified : map (λ (d : Device). length d.uuid) w.fauxmo.devices ≡ map (λ (r : Route). 14) rs
  pub counted : w.device_count ≡ length rs
  pub handled : AreHandled rs w.callback_handlers
  pub room : length w.callback_handlers ≡ server_count_limit

-- The search over the devices, as one over the routes.
found :
    (text : List ℕ) (i : ℕ) (ds : List Device) (rs : List Route)
    (hs : List (Option SceneCallbackHandler))
    → map (λ (d : Device). d.name) ds ≡ map (λ (r : Route). r.name) rs
    → AreHandled rs hs
    → ((find_device text i ds ≡ none) × (lookup text rs ≡ none))
      ⊎ ((k : ℕ) × (h : SceneCallbackHandler) × (find_device text i ds ≡ some (i + k))
          × (get_elem? hs k ≡ some (some h))
          × (lookup text rs ≡ some (pos h.scene_no)))
unfolding find_device lookup
found text i [] [] hs e a = inl (refl, refl)
found text i [] (r ∷ rs) hs e a = absurd cc
found text i (d ∷ ds) [] hs e a = absurd cc
found text i (d ∷ ds) (r ∷ rs) [] e a = absurd a
found text i (d ∷ ds) (r ∷ rs) (x ∷ hs) e a =
    let names : d.name ≡ r.name = cc in
    let rest : map (λ (y : Device). y.name) ds ≡ map (λ (y : Route). y.name) rs = cc in
    elim (Bool-cases (same_bytes text r.name)) [
      | inl same ↦ inr (
        0,
        record { scene_no = r.scene },
        if_true _ _ (ap (same_bytes text) names ∙ same) ∙ ap some (omega arith),
        ap some a.0,
        if_true _ _ same,
      )
      | inr other ↦
          let past : find_device text i (d ∷ ds) ≡ find_device text (suc i) ds =
            if_false _ _ (ap (same_bytes text) names ∙ other) in
          elim (found text (suc i) ds rs hs rest a.1) [
            | inl (nowhere, unknown) ↦ inl (past ∙ nowhere, if_false _ _ other ∙ unknown)
            | inr (k, h, at, handler, known) ↦
                inr
                  (suc k, h, past ∙ at ∙ ap some (omega arith), handler, if_false _ _ other ∙ known)
          ]
    ]

-- In an emulator whose devices and handlers stand for a list of routes, a device that is switched
-- on or off by its name queues its scene, that of the first route of that name; a name that no
-- device has does nothing.
pub on_message_lem :
    (w : WemoEmulator) (rs : List Route) (device_id : ℕ) (text : List ℕ) (state : Bool)
    → IsRouted w rs
    → on_message w device_id text state ≡ some (lookup text rs)
unfolding on_message handle_callback
on_message_lem w rs device_id text state r =
    elim (found text 0 w.fauxmo.devices rs w.callback_handlers r.named r.handled) [
      | inl (nowhere, unknown) ↦ ground (arith, nowhere, unknown)
      | inr (k, h, at, handler, known) ↦
          let first : find_device text 0 w.fauxmo.devices ≡ some k = at ∙ ap some (omega arith) in
          ground (arith, first, handler, known)
    ]

map_snoc {ℓ} :
    {A B : Type ℓ} (f : A → B) (xs : List A) (x : A) → map f (xs ++ x ∷ []) ≡ map f xs ++ f x ∷ []
map_snoc f [] x = refl
map_snoc f (y ∷ xs) x = ap (◌∷◌ (f y)) (map_snoc f xs x)

pub length-snoc {ℓ} : {A : Type ℓ} (xs : List A) (x : A) → length (xs ++ x ∷ []) ≡ suc (length xs)
length-snoc [] x = refl
length-snoc (y ∷ xs) x = ap suc (length-snoc xs x)

-- `addDevice`, on a chip with an id of 24 bits and an enabled emulator of fewer than forty devices,
-- adds a route to the end, for the device's name and its handler's scene, and a device with a UUID
-- of 14 characters; the other routes stay, and so do the place of the search and its rounds. The
-- function's own result is never set.
pub add_device_lem :
    (w : WemoEmulator) (rs : List Route) (chip_id : ℕ) (name : List ℕ) (scene : ℕ)
    → IsRouted w rs
    → chip_id < 16777216
    → length rs < server_count_limit
    → (w' : WemoEmulator) × (add_device chip_id name (record { scene_no = scene }) w
        ≡ some (w', none))
      × IsRouted w' (rs ++ record { name = c_str name; scene = scene } ∷ [])
      × (w'.fauxmo.current ≡ w.fauxmo.current)
      × (w'.fauxmo.rounds_left ≡ w.fauxmo.rounds_left)
unfolding add_device add_fauxmo_device
add_device_lem w rs chip_id name scene r chip room =
    let many : length w.fauxmo.devices ≡ length rs =
      sym (length-map (λ (d : Device). d.name) w.fauxmo.devices)
      ∙ ap length r.named
      ∙ length-map (λ (x : Route). x.name) rs in
    let (uuid, made, fourteen, _) =
      device_uuid_lem chip_id (length w.fauxmo.devices) chip (omega (arith, many)) in
    let device : Device = record {
      name = c_str name;
      uuid = uuid;
      hit = false;
      port = w.fauxmo.base_port + length w.fauxmo.devices;
    } in
    let route : Route = record { name = c_str name; scene = scene } in
    (
      record w {
        fauxmo = record w.fauxmo { devices = w.fauxmo.devices ++ device ∷ [] };
        callback_handlers =
            set w.callback_handlers w.device_count (some (record { scene_no = scene }));
        device_count = w.device_count + 1;
      },
      rw (
        r.on,
        made,
        lt→ltb w.device_count (length w.callback_handlers) (omega (arith, r.counted, r.room)),
      ),
      record {
        on = r.on;
        named =
            map_snoc (λ (d : Device). d.name) w.fauxmo.devices device
            ∙ ap (λ ns. ns ++ c_str name ∷ []) r.named
            ∙ sym (map_snoc (λ (x : Route). x.name) rs route);
        identified =
            map_snoc (λ (d : Device). length d.uuid) w.fauxmo.devices device
            ∙ ap (λ ns. ns ++ length uuid ∷ []) r.identified
            ∙ ap (λ n. map (λ (r : Route). 14) rs ++ n ∷ []) fourteen
            ∙ sym (map_snoc (λ (x : Route). 14) rs route);
        counted = omega (arith, r.counted, length-snoc rs route);
        handled =
            subst
              (λ n.
                AreHandled (rs ++ route ∷ [])
                  (set w.callback_handlers n (some (record { scene_no = scene }))))
              (sym r.counted)
              (AreHandled-set rs w.callback_handlers (c_str name) scene r.handled
                (omega (arith, r.room)));
        room =
            length-set w.callback_handlers w.device_count (some (record { scene_no = scene }))
            ∙ r.room;
      },
      refl,
      refl,
    )
