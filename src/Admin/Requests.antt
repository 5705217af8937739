-- ===== src/Admin/Requests.antt =====
-- The requests of AdminServer.h against an abstract view of the firmware: the store of eight strings,
-- the queued scene and the current scene.
use futronix_alexa.Base.{
  ℕ, ◌≡◌, refl, ap, ◌∙◌, false, Option, some, none, List, [], get_or, c_str, literal, strcmp_eq,
  same_bytes, if◌then◌else◌, ◌>>=◌, ℤ,
}
use futronix_alexa.Eeprom.Api.{Eeprom, Documented}
use futronix_alexa.Storage.Table.{Raw}
use futronix_alexa.Storage.Table.View.{View, fetch, wipe, IsRaw}
use futronix_alexa.Storage.Database.{Database, max_scenes, magic_word, magic_word_index}
use futronix_alexa.Storage.Database.Refines.{Becomes, look, clear_database_lem}
use futronix_alexa.Storage.Database.Texts.{has_been_set_up_lem}
use futronix_alexa.App.{clear_scene_names}
use futronix_alexa.App.Setup.{set_up_view, setup_lem}
use futronix_alexa.App.Rename.{renamed, IsRenamable, rename_scene_lem}
use futronix_alexa.Admin.{
  Response, ok_empty, Request, get_scene_names, clear_names, rename, set_scene_to,
  get_current_scene, restart_wemo_servers, set_up, status, show_ℤ, Firmware, with_database,
  handle_set_up, handle_status, handle_rename_scene, handle_set_scene, handle_request,
  handle_get_scene_names,
}
use futronix_alexa.Admin.SceneNames.{report, fetch_names, handle_get_scene_names_lem}

-- What a user can tell of the firmware.
pub record Panel : Type 0 where
  pub store : View
  pub queued : ℤ
  pub current : ℤ

-- The magic word's record on the EEPROM.
abbrev marker : View → List ℕ
marker v = get_or v.in_rom magic_word_index []

module _ (to_int : List ℕ → ℤ) where
  -- The response to a request, and the view after it.
  unfoldable pub respond : Request → Panel → Option Response × Panel
  respond get_scene_names p = (
    some (record { code = 200; body = report max_scenes 0 p.store.in_rom }),
    record p { store = fetch_names max_scenes 0 p.store },
  )
  respond clear_names p = (some ok_empty, record p { store = wipe false p.store })
  respond (rename scene name) p =
      (some ok_empty, record p { store = renamed (to_int scene) name p.store })
  respond (set_scene_to scene) p = (some ok_empty, record p { queued = to_int scene })
  respond get_current_scene p = (some (record { code = 200; body = show_ℤ p.current }), p)
  respond restart_wemo_servers p = (none, p)
  respond (set_up clear_db_arg ssid passwd) p = (
    some ok_empty,
    record p { store = set_up_view ssid passwd (strcmp_eq clear_db_arg (literal "true")) p.store },
  )
  respond status p = (
    some (record {
      code = if same_bytes (c_str magic_word) (marker p.store) then 200 else 404;
      body = [];
    }),
    record p { store = fetch magic_word_index p.store },
  )

  -- A request whose number is not 9, if it renames.
  abbrev pub IsInRange : Request → Type 0
  IsInRange get_scene_names = Unit
  IsInRange clear_names = Unit
  IsInRange (rename scene name) = IsRenamable (to_int scene)
  IsInRange (set_scene_to scene) = Unit
  IsInRange get_current_scene = Unit
  IsInRange restart_wemo_servers = Unit
  IsInRange (set_up clear_db_arg ssid passwd) = Unit
  IsInRange status = Unit

-- Nothing else than the database, the queue and the current scene differs.
pub record Spares {S : Type 0} (w w' : Firmware S) : Type 0 where
  pub same_wemo : w'.futronix.wemo ≡ w.futronix.wemo
  pub same_buffer : w'.packet_buffer ≡ w.packet_buffer

abbrev with_store : View → Panel → Panel
with_store v p = record p { store = v }

module _ {S : Type 0} {lib : Eeprom S} (doc : Documented lib) where
  -- The firmware looks like this.
  pub record Shows (w : Firmware S) (p : Panel) : Type 0 where
    pub stored : Becomes doc w.futronix.db p.store
    pub queue : w.scene_to_set ≡ p.queued
    pub now : w.futronix.current_scene ≡ p.current

  -- What a request promises.
  abbrev pub Answered :
      Option (Option Response × Firmware S) → Firmware S → Option Response × Panel → Type 0
  Answered result w goal =
      (w' : Firmware S) × (result ≡ some (goal.0, w')) × Shows w' goal.1 × Spares w w'

module _ {S : Type 0} {lib : Eeprom S} (doc : Documented lib) {raw : Raw} (honest : IsRaw raw) where
  on_database :
      (h : Database S → Option (Response × Database S)) (r : Response) (d' : Database S) (v : View)
      (w : Firmware S) (p : Panel)
      → Shows doc w p
      → h w.futronix.db ≡ some (r, d')
      → Becomes doc d' v
      → Answered doc (with_database lib raw h w) w (some r, with_store v p)
  on_database h r d' v w p s e b = (
    record w { futronix = record w.futronix { db = d' } },
    rw e,
    record { stored = b; queue = s.queue; now = s.now },
    record { same_wemo = refl; same_buffer = refl },
  )

  -- A step from what the database looks like.
  onto :
      (d d' : Database S) (v : View) (f : View → View)
      → Becomes doc d v
      → Becomes doc d' (f (look doc d))
      → Becomes doc d' (f v)
  onto d d' v f b c = record { running = c.running; looks = c.looks ∙ ap f b.looks }

  respond_names :
      (w : Firmware S) (p : Panel)
      → Shows doc w p
      → Answered doc (with_database lib raw (handle_get_scene_names lib raw) w) w (
        some (record { code = 200; body = report max_scenes 0 p.store.in_rom }),
        with_store (fetch_names max_scenes 0 p.store) p,
      )
  respond_names w p s =
      let d = w.futronix.db in
      let (d', e, b) = handle_get_scene_names_lem doc honest d s.stored.running in
      on_database (handle_get_scene_names lib raw) _ d' _ w p s
        (e
          ∙ ap (λ (v : View). some (record { code = 200; body = report max_scenes 0 v.in_rom }, d'))
              s.stored.looks)
        (onto d d' p.store (fetch_names max_scenes 0) s.stored b)

  respond_clear :
      (w : Firmware S) (p : Panel)
      → Shows doc w p
      → Answered doc
          (with_database lib raw (λ d. clear_scene_names lib raw d >>= λ d'. some (ok_empty, d')) w)
          w
          (some ok_empty, with_store (wipe false p.store) p)
  unfolding clear_scene_names
  respond_clear w p s =
      let d = w.futronix.db in
      let (d', e, b) = clear_database_lem doc honest false d s.stored.running in
      on_database (λ x. clear_scene_names lib raw x >>= λ y. some (ok_empty, y)) ok_empty d' _ w p s
        (rw e) (onto d d' p.store (wipe false) s.stored b)

  respond_set_up :
      (clear_db_arg ssid passwd : List ℕ) (w : Firmware S) (p : Panel)
      → Shows doc w p
      → Answered doc (with_database lib raw (handle_set_up lib raw clear_db_arg ssid passwd) w) w (
        some ok_empty,
        with_store (set_up_view ssid passwd (strcmp_eq clear_db_arg (literal "true")) p.store) p,
      )
  unfolding handle_set_up
  respond_set_up clear_db_arg ssid passwd w p s =
      let d = w.futronix.db in
      let clear_it = strcmp_eq clear_db_arg (literal "true") in
      let (d', e, b) = setup_lem doc honest ssid passwd clear_it d s.stored.running in
      on_database (handle_set_up lib raw clear_db_arg ssid passwd) ok_empty d' _ w p s (rw e)
        (onto d d' p.store (set_up_view ssid passwd clear_it) s.stored b)

  respond_status :
      (w : Firmware S) (p : Panel)
      → Shows doc w p
      → Answered doc (with_database lib raw (handle_status lib raw) w) w (
        some (record {
          code = if same_bytes (c_str magic_word) (marker p.store) then 200 else 404;
          body = [];
        }),
        with_store (fetch magic_word_index p.store) p,
      )
  unfolding handle_status
  respond_status w p s =
      let d = w.futronix.db in
      let (d', e, b) = has_been_set_up_lem doc honest d s.stored.running in
      on_database (handle_status lib raw) _ d' _ w p s
        (rw e (
          ap
            (λ (v : View). some (
              record {
                code = if same_bytes (c_str magic_word) (marker v) then 200 else 404;
                body = [];
              },
              d',
            ))
            s.stored.looks))
        (onto d d' p.store (fetch magic_word_index) s.stored b)

  module _ (to_int : List ℕ → ℤ) where
    respond_rename :
        (scene name : List ℕ) (w : Firmware S) (p : Panel)
        → IsInRange to_int (rename scene name)
        → Shows doc w p
        → Answered doc
            (with_database lib raw (handle_rename_scene lib raw to_int scene name) w)
            w
            (some ok_empty, with_store (renamed (to_int scene) name p.store) p)
    unfolding handle_rename_scene
    respond_rename scene name w p h s =
        let d = w.futronix.db in
        let (d', e, b) = rename_scene_lem doc honest (to_int scene) name d s.stored.running h in
        on_database (handle_rename_scene lib raw to_int scene name) ok_empty d' _ w p s (rw e)
          (onto d d' p.store (renamed (to_int scene) name) s.stored b)

    -- With a zero byte in the buffer of `getEntry` behind the record: on a running database each
    -- request of the web server is served without a failure, renames if their number is neither 9
    -- nor the least `int`: the response is that of the abstract view, which the firmware shows
    -- again afterwards, and neither the emulator nor the packet buffer differs.
    pub handle_request_lem :
        (r : Request) (w : Firmware S) (p : Panel)
        → IsInRange to_int r
        → Shows doc w p
        → Answered doc (handle_request lib raw to_int r w) w (respond to_int r p)
    unfolding handle_request handle_set_scene respond
    handle_request_lem get_scene_names w p h s = respond_names w p s
    handle_request_lem clear_names w p h s = respond_clear w p s
    handle_request_lem (rename scene name) w p h s = respond_rename scene name w p h s
    handle_request_lem (set_scene_to scene) w p h s = (
      record w { scene_to_set = to_int scene },
      refl,
      record { stored = s.stored; queue = refl; now = s.now },
      record { same_wemo = refl; same_buffer = refl },
    )
    handle_request_lem get_current_scene w p h s = (
      w,
      ap (λ c. some (some (record { code = 200; body = show_ℤ c }), w)) s.now,
      s,
      record { same_wemo = refl; same_buffer = refl },
    )
    handle_request_lem restart_wemo_servers w p h s =
        (w, refl, s, record { same_wemo = refl; same_buffer = refl })
    handle_request_lem (set_up clear_db_arg ssid passwd) w p h s =
        respond_set_up clear_db_arg ssid passwd w p s
    handle_request_lem status w p h s = respond_status w p s
