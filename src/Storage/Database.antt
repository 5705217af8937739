-- ===== src/Storage/Database.antt =====
-- class Database of FutronixESP8266/Database.h: the records that the firmware keeps.
pub mod Refines
pub mod Texts
pub mod Begin
pub mod Numbers
pub mod Restart
use futronix_alexa.Base.{
  ℕ, zero, suc, Bool, true, false, Option, some, none, List, [], ◌∷◌, get_elem?, deref, Pointer,
  wild, null, literal, strcmp_eq, if◌then◌else◌, ◌>>=◌, ℤ, pos, negsuc,
}
use futronix_alexa.Eeprom.Api.{Eeprom}
use futronix_alexa.Storage.Entry.{Entry, new_entry}
use futronix_alexa.Storage.Table.{
  Raw, Table, new_table, begin_table, configure, get_entry, set_record, read_all_entries,
  clear_table, save_table,
}

abbrev pub record_fixed_size : ℕ
record_fixed_size = 50

abbrev pub max_scenes : ℕ
max_scenes = 5

abbrev pub wifi_ssid_index : ℕ
wifi_ssid_index = 5

abbrev pub wifi_passwd_index : ℕ
wifi_passwd_index = 6

abbrev pub magic_word_index : ℕ
magic_word_index = 7

abbrev pub record_count : ℕ
record_count = 8

abbrev pub magic_word : List ℕ
magic_word = literal "Futronix:012345678998765432102017:Futronix"

-- class Database
pub record Database (S : Type 0) : Type 0 where
  pub enabled : Bool
  pub eeprom : Table S

-- Database::Database
abbrev pub new_database : {S : Type 0} → S → Database S
new_database s = record { enabled = false; eeprom = new_table s }

-- `entriesConfig`, as `begin` fills it from index `n` on.
abbrev pub entries_config : ℕ → ℕ → List Entry
entries_config zero n = []
entries_config (suc k) n =
    record new_entry { index = n; fixed_size = record_fixed_size } ∷ entries_config k (suc n)

-- The text behind `entry->getData()`, read as a string.
abbrev pub text_at : {S : Type 0} → ℕ → Table S → Option (List ℕ)
text_at j t = get_elem? t.entries j >>= λ e. deref e.payload

module _ {S : Type 0} (lib : Eeprom S) (raw : Raw) where
  -- Database::getSceneCount
  unfoldable pub get_scene_count : Database S → ℕ
  get_scene_count d = if d.enabled then max_scenes else 0

  -- record = _eeprom.getEntry(index, force); record != NULL ? record->getData() : NULL
  unfoldable pub get_data : ℕ → Bool → Database S → Option (Pointer × Database S)
  get_data i force d = get_entry lib raw i force d.eeprom >>= λ (entry, t).
      let d' = record d { eeprom = t } in
      elim entry [
        | none ↦ some (null, d')
        | some j ↦ get_elem? t.entries j >>= λ e. some (e.payload, d')
      ]

  -- record = _eeprom.getEntry(index, force); if (record != NULL) record->setData(data)
  unfoldable pub put_data : ℕ → Bool → List ℕ → Database S → Option (Database S)
  put_data i force text d = get_entry lib raw i force d.eeprom >>= λ (entry, t). elim entry [
    | none ↦ some (record d { eeprom = t })
    | some j ↦ set_record lib raw j text t >>= λ t'. some (record d { eeprom = t' })
  ]

  -- Database::getWifiSsid
  unfoldable pub get_wifi_ssid : Database S → Option (Pointer × Database S)
  get_wifi_ssid d = if d.enabled then get_data wifi_ssid_index false d else some (null, d)

  -- Database::getWifiPasswd
  unfoldable pub get_wifi_passwd : Database S → Option (Pointer × Database S)
  get_wifi_passwd d = if d.enabled then get_data wifi_passwd_index false d else some (null, d)

  -- Database::hasBeenSetUp. `getEntry` returns no NULL at this index.
  unfoldable pub has_been_set_up : Database S → Option (Bool × Database S)
  has_been_set_up d =
      if d.enabled
      then (get_entry lib raw magic_word_index true d.eeprom >>= λ (entry, t).
          let d' = record d { eeprom = t } in
          elim entry [
            | none ↦ some (false, d')
            | some j ↦ text_at j t >>= λ m. some (strcmp_eq magic_word m, d')
          ])
      else some (false, d)

  -- Database::setWifiSsid
  unfoldable pub set_wifi_ssid : List ℕ → Database S → Option (Database S)
  set_wifi_ssid text d = if d.enabled then put_data wifi_ssid_index false text d else some d

  -- Database::setWifiPasswd
  unfoldable pub set_wifi_passwd : List ℕ → Database S → Option (Database S)
  set_wifi_passwd text d = if d.enabled then put_data wifi_passwd_index false text d else some d

  -- Database::getSceneName. Without `_enabled` it ends with no `return`, and the
  -- pointer that it gives is never set.
  unfoldable pub get_scene_name : ℕ → Database S → Option (Pointer × Database S)
  get_scene_name n d = if d.enabled then get_data n false d else some (wild, d)

  -- Database::setSceneName
  unfoldable pub set_scene_name : ℕ → List ℕ → Database S → Option (Database S)
  set_scene_name n text d = if d.enabled then put_data n false text d else some d

  -- The loop of `getSceneNumber`, with the rounds that are left.
  unfoldable pub find_scene : ℕ → ℕ → List ℕ → Database S → Option (ℤ × Database S)
  find_scene zero n name d = some (negsuc 0, d)
  find_scene (suc k) n name d = get_entry lib raw n false d.eeprom >>= λ (entry, t).
      let d' = record d { eeprom = t } in
      elim entry [
        | none ↦ find_scene k (suc n) name d'
        | some j ↦ text_at j t >>= λ m. elim (strcmp_eq name m) [
          | true ↦ some (pos n, d')
          | false ↦ find_scene k (suc n) name d'
        ]
      ]

  -- Database::getSceneNumber
  unfoldable pub get_scene_number : List ℕ → Database S → Option (ℤ × Database S)
  get_scene_number name d = if d.enabled then find_scene max_scenes 0 name d else some (negsuc 0, d)

  -- Database::begin
  unfoldable pub begin_database : Database S → Option (Database S)
  begin_database d =
      let t = configure lib raw (entries_config record_count 0) (begin_table lib raw d.eeprom) in
      read_all_entries lib raw t >>= λ t'. some (record { enabled = true; eeprom = t' })

  -- Database::clear
  unfoldable pub clear_database : Bool → Database S → Option (Database S)
  clear_database clear_memory d =
      if d.enabled
      then (clear_table lib raw clear_memory d.eeprom >>= λ t. some (record d { eeprom = t }))
      else some d

  -- Database::save
  unfoldable pub save_database : Database S → Option (Database S)
  save_database d =
      if d.enabled
      then (put_data magic_word_index true magic_word d >>= λ d'.
          save_table lib raw d'.eeprom >>= λ t. some (record d' { eeprom = t }))
      else some d
