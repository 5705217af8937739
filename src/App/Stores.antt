-- ===== src/App/Stores.antt =====
-- The setters of the database and `setup`, as steps of the abstract store.
use futronix_alexa.Base.{
  ℕ, zero, suc, ◌-◌, ◌≡◌, ◌<◌, refl, ap, ◌∙◌, Bool, true, false, some, List, [], ◌∷◌, map, arith,
  get_or, c_str, if◌then◌else◌, if_true, ◌>>=◌,
}
use futronix_alexa.Eeprom.Api.{Eeprom, Documented}
use futronix_alexa.Storage.Table.{Raw}
use futronix_alexa.Storage.Table.View.{View, put, commit, wipe, IsRaw}
use futronix_alexa.Storage.Database.{
  Database, record_count, record_fixed_size, wifi_ssid_index, wifi_passwd_index, magic_word_index,
  magic_word, put_data, set_wifi_ssid, set_wifi_passwd, set_scene_name, save_database,
}
use futronix_alexa.Storage.Database.Refines.{IsRunning, Becomes, put_data_lem, save_database_lem}

-- Record `i` of memory is given a text, and the view is committed with the magic word.
abbrev pub keep : ℕ → List ℕ → View → View
keep i text v = put (record_fixed_size - 1) i (c_str text) v

abbrev pub finish : View → View
finish v = commit (keep magic_word_index magic_word v)

-- The store that `setup` starts from.
abbrev pub start_view : Bool → View → View
start_view clear_it v = if clear_it then wipe true v else v

module _ {S : Type 0} {lib : Eeprom S} (doc : Documented lib) {raw : Raw} (honest : IsRaw raw) where
  pub put_running :
      (i : ℕ) (text : List ℕ) (d : Database S) (v : View)
      → Becomes doc d v
      → i < record_count
      → (d' : Database S) × (put_data lib raw i false text d ≡ some d')
        × Becomes doc d' (keep i text v)
  put_running i text d v b h =
      let (d', e, c) = put_data_lem doc honest i false text d b.running h in
      (d', e, record { running = c.running; looks = c.looks ∙ ap (keep i text) b.looks })

  pub save_running :
      (d : Database S) (v : View)
      → Becomes doc d v
      → (d' : Database S) × (save_database lib raw d ≡ some d') × Becomes doc d' (finish v)
  save_running d v b =
      let (d', e, c) = save_database_lem doc honest d b.running in
      (d', e, record { running = c.running; looks = c.looks ∙ ap finish b.looks })

  set_ssid_on :
      (text : List ℕ) (d : Database S)
      → IsRunning doc d
      → set_wifi_ssid lib raw text d ≡ put_data lib raw wifi_ssid_index false text d
  unfolding set_wifi_ssid
  set_ssid_on text d r = if_true _ _ r.on

  set_passwd_on :
      (text : List ℕ) (d : Database S)
      → IsRunning doc d
      → set_wifi_passwd lib raw text d ≡ put_data lib raw wifi_passwd_index false text d
  unfolding set_wifi_passwd
  set_passwd_on text d r = if_true _ _ r.on

  pub set_name_on :
      (n : ℕ) (text : List ℕ) (d : Database S)
      → IsRunning doc d
      → set_scene_name lib raw n text d ≡ put_data lib raw n false text d
  unfolding set_scene_name
  set_name_on n text d r = if_true _ _ r.on

  -- The four steps of `setup`, from a store `v` that is cleared already or not to be cleared.
  pub setup_tail :
      (ssid passwd : List ℕ) (d : Database S) (v : View)
      → Becomes doc d v
      → (d' : Database S) × ((set_wifi_ssid lib raw ssid d >>= λ d2.
            set_wifi_passwd lib raw passwd d2 >>= λ d3. save_database lib raw d3)
          ≡ some d')
        × Becomes doc d' (finish (keep wifi_passwd_index passwd (keep wifi_ssid_index ssid v)))
  setup_tail ssid passwd d v b =
      let (d2, e2, b2) = put_running wifi_ssid_index ssid d v b (omega arith) in
      let (d3, e3, b3) =
        put_running wifi_passwd_index passwd d2 (keep wifi_ssid_index ssid v) b2 (omega arith) in
      let (d4, e4, b4) = save_running d3 _ b3 in
      (d4, rw (set_ssid_on ssid d b.running, e2, set_passwd_on passwd d2 b2.running, e3, e4), b4)

pub get_or-blank :
    (xs : List (List ℕ)) (j : ℕ) → get_or {A = List ℕ} (map (λ (_ : List ℕ). []) xs) j [] ≡ []
get_or-blank [] j = refl
get_or-blank (x ∷ xs) zero = refl
get_or-blank (x ∷ xs) (suc j) = get_or-blank xs j
