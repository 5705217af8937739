-- ===== src/App/Setup.antt =====
-- FutronixESP8266::setup: what it leaves in the database.
use futronix_alexa.Base.{
  ℕ, ◌≡◌, refl, sym, ap, ◌∙◌, Bool, true, false, some, List, [], arith, length, get_or, set, c_str,
  length-map, length-set, get_or-set_self, get_or-set_ne, same_bytes, same_bytes_refl, if_true,
  some_inj, Pointer,
}
use futronix_alexa.Eeprom.Api.{Eeprom, Documented}
use futronix_alexa.Storage.Table.{Raw}
use futronix_alexa.Storage.Table.View.{View, wipe, IsRaw}
use futronix_alexa.Storage.Database.{
  Database, record_count, wifi_ssid_index, wifi_passwd_index, magic_word_index, magic_word,
  has_been_set_up,
}
use futronix_alexa.Storage.Database.Refines.{
  IsRunning, Becomes, look, cut, length-look_ram, clear_database_lem,
}
use futronix_alexa.Storage.Database.Texts.{has_been_set_up_lem}
use futronix_alexa.App.{setup}
use futronix_alexa.App.Stores.{keep, finish, start_view}
use futronix_alexa.Storage.Entry.Truncates.{held}
use futronix_alexa.Storage.Database.{get_wifi_ssid, get_wifi_passwd}
use futronix_alexa.Storage.Database.Refines.{get_data_lem}
use futronix_alexa.App.Stores.{setup_tail}
use futronix_alexa.Base.{subst}

-- The store that `setup` ends in, started from `v`.
abbrev pub set_up_view : List ℕ → List ℕ → Bool → View → View
set_up_view ssid passwd clear_it v =
    finish (keep wifi_passwd_index passwd (keep wifi_ssid_index ssid (start_view clear_it v)))

length-start_view :
    (clear_it : Bool) (v : View) → length (start_view clear_it v).in_ram ≡ length v.in_ram
length-start_view false v = refl
length-start_view true v = length-map (λ _. []) v.in_ram

-- The strings that `setup` writes, as they stand on the EEPROM.
set_up_strings :
    (ssid passwd : List ℕ) (clear_it : Bool) (v : View)
    → length v.in_ram ≡ record_count
    → let w = set_up_view ssid passwd clear_it v in
      (get_or w.in_rom wifi_ssid_index [] ≡ cut ssid)
      × (get_or w.in_rom wifi_passwd_index [] ≡ cut passwd)
      × (get_or w.in_rom magic_word_index [] ≡ c_str magic_word)
set_up_strings ssid passwd clear_it v h =
    let a = (start_view clear_it v).in_ram in
    let b = set a 5 (cut ssid) in
    let c = set b 6 (cut passwd) in
    let la = length-start_view clear_it v in
    let lb = length-set a 5 (cut ssid) in
    let lc = length-set b 6 (cut passwd) in
    (
      get_or-set_ne c {i = 7} {j = 5} (cut magic_word) [] (omega arith)
          ∙ get_or-set_ne b {i = 6} {j = 5} (cut passwd) [] (omega arith)
          ∙ get_or-set_self a 5 (cut ssid) [] (omega arith),
      get_or-set_ne c {i = 7} {j = 6} (cut magic_word) [] (omega arith)
          ∙ get_or-set_self b 6 (cut passwd) [] (omega arith),
      get_or-set_self c 7 (cut magic_word) [] (omega arith),
    )

module _ {S : Type 0} {lib : Eeprom S} (doc : Documented lib) {raw : Raw} (honest : IsRaw raw) where
  -- With a zero byte in the buffer of `getEntry` behind the record: on a running database `setup`
  -- succeeds, and leaves a running database. Seen as a store of eight strings it takes these steps:
  -- memory and EEPROM are emptied if asked, the two Wifi texts (cut to 49 bytes) and the magic word
  -- are kept in memory, and all of memory goes to the EEPROM.
  pub setup_lem :
      (ssid passwd : List ℕ) (clear_it : Bool) (d : Database S)
      → IsRunning doc d
      → (d' : Database S) × (setup lib raw ssid passwd clear_it d ≡ some d')
        × Becomes doc d' (set_up_view ssid passwd clear_it (look doc d))
  unfolding setup
  setup_lem ssid passwd false d r =
      setup_tail doc honest ssid passwd d (look doc d) (record { running = r; looks = refl })
  setup_lem ssid passwd true d r =
      let (d1, e1, b1) = clear_database_lem doc honest true d r in
      let (d', e, b) = setup_tail doc honest ssid passwd d1 (wipe true (look doc d)) b1 in
      (d', rw e1 e, b)

  -- Any result of `setup` is the one that `setup_lem` gives.
  set_up_becomes :
      (ssid passwd : List ℕ) (clear_it : Bool) (d d' : Database S)
      → IsRunning doc d
      → setup lib raw ssid passwd clear_it d ≡ some d'
      → Becomes doc d' (set_up_view ssid passwd clear_it (look doc d))
  set_up_becomes ssid passwd clear_it d d' r e =
      let (d1, e1, b) = setup_lem ssid passwd clear_it d r in
      subst (λ x. Becomes doc x (set_up_view ssid passwd clear_it (look doc d)))
        (some_inj (sym e1 ∙ e)) b

  -- After `setup` on a running database, `hasBeenSetUp` answers true.
  pub has_been_set_up-setup :
      (ssid passwd : List ℕ) (clear_it : Bool) (d d' : Database S)
      → IsRunning doc d
      → setup lib raw ssid passwd clear_it d ≡ some d'
      → (d'' : Database S) × (has_been_set_up lib raw d' ≡ some (true, d''))
  has_been_set_up-setup ssid passwd clear_it d d' r e =
      let b = set_up_becomes ssid passwd clear_it d d' r e in
      let (d2, e2, b2) = has_been_set_up_lem doc honest d' b.running in
      let strings = set_up_strings ssid passwd clear_it (look doc d) (length-look_ram doc d r) in
      let marked : get_or (look doc d').in_rom magic_word_index [] ≡ c_str magic_word =
        ap (λ (w : View). get_or w.in_rom magic_word_index []) b.looks ∙ strings.2 in
      (
        d2,
        e2
            ∙ ap (λ t. some (t, d2))
                (ap (same_bytes (c_str magic_word)) marked ∙ same_bytes_refl (c_str magic_word)),
      )

  -- After `setup` on a running database, `getWifiSsid` and `getWifiPasswd` give the two texts back,
  -- each cut to 49 bytes.
  pub get_wifi-setup :
      (ssid passwd : List ℕ) (clear_it : Bool) (d d' : Database S)
      → IsRunning doc d
      → setup lib raw ssid passwd clear_it d ≡ some d'
      → (p q : Pointer) × (d1 d2 : Database S) × (get_wifi_ssid lib raw d' ≡ some (p, d1))
        × (held p ≡ cut ssid)
        × (get_wifi_passwd lib raw d1 ≡ some (q, d2))
        × (held q ≡ cut passwd)
  unfolding get_wifi_ssid get_wifi_passwd
  get_wifi-setup ssid passwd clear_it d d' r e =
      let b = set_up_becomes ssid passwd clear_it d d' r e in
      let strings = set_up_strings ssid passwd clear_it (look doc d) (length-look_ram doc d r) in
      let (p, d1, e1, s1, t1, b1) =
        get_data_lem doc honest wifi_ssid_index false d' b.running (omega arith) in
      let (q, d2, e2, s2, t2, b2) =
        get_data_lem doc honest wifi_passwd_index false d1 b1.running (omega arith) in
      (
        p,
        q,
        d1,
        d2,
        if_true _ _ b.running.on ∙ e1,
        s1 ∙ ap (λ (w : View). get_or w.in_rom wifi_ssid_index []) b.looks ∙ strings.0,
        if_true _ _ b1.running.on ∙ e2,
        s2
            ∙ ap (λ (w : View). get_or w.in_rom wifi_passwd_index []) b1.looks
            ∙ ap (λ (w : View). get_or w.in_rom wifi_passwd_index []) b.looks
            ∙ strings.1,
      )
