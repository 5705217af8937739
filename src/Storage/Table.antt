-- ===== src/Storage/Table.antt =====
-- class EEPROMDatabase of FutronixESP8266/EEPromDatabase.h: the records, in memory and on the EEPROM.
-- A `DatabaseEntry*` is the index of its record. Debug output is left out.
pub mod View
pub mod Arrays
pub mod Fetch
pub mod Unterminated
pub mod Save
pub mod Alike
pub mod Clear
pub mod Load
use futronix_alexa.Base.{
  ℕ, suc, ◌+◌, Bool, false, not, ◌&&◌, Option, some, none, List, [], ◌∷◌, min, get_elem?, set, drop,
  store, memcpy, deref, ltb, if◌then◌else◌, ◌>>=◌, length,
}
use futronix_alexa.Eeprom.Api.{Eeprom}
use futronix_alexa.Eeprom.Interface.{
  EepromInterface, new_interface, begin_interface, read_raw, read_raw_from_0, write_raw,
  write_string, clear_rom,
}
use futronix_alexa.Storage.Entry.{Entry, set_data, set_data_from}

abbrev pub record_max_size : ℕ
record_max_size = 200

-- What memory holds before the program writes to it: the block that `malloc` hands back for the text
-- of a record (by record and size), the record array that `malloc` hands back, and a local array.
pub record Raw : Type 0 where
  pub heap : ℕ → ℕ → List ℕ
  pub array : ℕ → Entry
  pub stack : ℕ → List ℕ

-- class EEPROMDatabase. Before `configure` there is no record array.
pub record Table (S : Type 0) : Type 0 where
  pub rom : EepromInterface S
  pub entries : List Entry
  pub record_count : ℕ
  pub total_size : ℕ

-- EEPROMDatabase::EEPROMDatabase
abbrev pub new_table : {S : Type 0} → S → Table S
new_table s = record { rom = new_interface s; entries = []; record_count = 0; total_size = 0 }

-- The loop of `configure`, at record `n`. The array comes from `malloc`, so the fields that the loop
-- does not set hold what was in memory.
unfoldable pub configure_loop : Raw → List Entry → ℕ → ℕ → List Entry
configure_loop raw [] n start = []
configure_loop raw (c ∷ config) n start =
    let size = min c.fixed_size record_max_size in
    record (raw.array n) { start_index = start; fixed_size = size }
    ∷ configure_loop raw config (suc n) (start + size)

-- `_totalSize`, as the same loop sums it up.
unfoldable pub total_of : List Entry → ℕ
total_of [] = 0
total_of (e ∷ es) = e.fixed_size + total_of es

-- The loop of `save`: each record's block goes to `pBuf`.
unfoldable pub gather_loop : List Entry → ℕ → List ℕ → Option (List ℕ)
gather_loop [] off buf = some buf
gather_loop (e ∷ es) off buf = deref e.payload >>= λ m.
    memcpy buf off m e.fixed_size >>= λ buf'. gather_loop es (off + e.fixed_size) buf'

module _ (raw : Raw) where
  -- The loop of `readAllEntries`: each record takes the text at `pBuf`, and is marked uninitialized.
  unfoldable pub load_loop : ℕ → List Entry → List ℕ → Option (List Entry)
  load_loop n [] buf = some []
  load_loop n (e ∷ es) buf = set_data_from (raw.heap n e.fixed_size) buf e >>= λ e'.
      load_loop (suc n) es (drop e.fixed_size buf) >>= λ es'.
      some (record e' { initialized = false } ∷ es')

  -- The loop of `clear` over the records: setData("").
  unfoldable pub blank_loop : ℕ → List Entry → Option (List Entry)
  blank_loop n [] = some []
  blank_loop n (e ∷ es) = set_data (raw.heap n e.fixed_size) (0 ∷ []) e >>= λ e'.
      blank_loop (suc n) es >>= λ es'. some (e' ∷ es')

module _ {S : Type 0} (lib : Eeprom S) (raw : Raw) where
  -- EEPROMDatabase::begin
  unfoldable pub begin_table : Table S → Table S
  begin_table t = record t { rom = begin_interface lib t.rom }

  -- EEPROMDatabase::configure
  unfoldable pub configure : List Entry → Table S → Table S
  configure config t =
      let entries = configure_loop raw config 0 0 in
      record t { entries = entries; record_count = length config; total_size = total_of entries }

  -- EEPROMDatabase::getEntry(recordIndex, forceRefresh). NULL is `none`. The index `_recordCount`
  -- passes the test, and reads behind the array.
  unfoldable pub get_entry : ℕ → Bool → Table S → Option (Option ℕ × Table S)
  get_entry i force t =
      if ltb t.record_count i
      then some (none, t)
      else (get_elem? t.entries i >>= λ e.
          if e.initialized && not force
          then some (some i, t)
          else (read_raw lib t.rom (raw.stack record_max_size) e.start_index e.fixed_size
              >>= λ (buf, rom). set_data_from (raw.heap i e.fixed_size) buf e >>= λ e'.
                  some (some i, record t { rom = rom; entries = set t.entries i e' })))

  -- record->setData(data), through a pointer that `getEntry` returned
  unfoldable pub set_record : ℕ → List ℕ → Table S → Option (Table S)
  set_record i text t = get_elem? t.entries i >>= λ e.
      set_data (raw.heap i e.fixed_size) text e >>= λ e'.
      some (record t { entries = set t.entries i e' })

  -- EEPROMDatabase::setEntry(recordIndex, data, save)
  unfoldable pub set_entry : ℕ → List ℕ → Bool → Table S → Option (Table S)
  set_entry i text save t =
      if ltb t.record_count i
      then some t
      else (set_record i text t >>= λ t'.
          if save
          then (get_elem? t'.entries i >>= λ e. deref e.payload >>= λ m.
              write_string lib t'.rom m e.start_index >>= λ rom. some (record t' { rom = rom }))
          else some t')

  -- EEPROMDatabase::readAllEntries
  unfoldable pub read_all_entries : Table S → Option (Table S)
  read_all_entries t = store (raw.stack (t.total_size + 1)) t.total_size 0 >>= λ buf.
      read_raw_from_0 lib t.rom buf t.total_size >>= λ (buf', rom).
      load_loop raw 0 t.entries buf' >>= λ es. some (record t { rom = rom; entries = es })

  -- EEPROMDatabase::clear
  unfoldable pub clear_table : Bool → Table S → Option (Table S)
  clear_table clear_memory t =
      let t' = record t { rom = clear_rom lib t.rom } in
      if clear_memory
      then (blank_loop raw 0 t.entries >>= λ es. some (record t' { entries = es }))
      else some t'

  -- EEPROMDatabase::save
  unfoldable pub save_table : Table S → Option (Table S)
  save_table t = gather_loop t.entries 0 (raw.stack t.total_size) >>= λ buf.
      write_raw lib t.rom buf t.total_size >>= λ rom. some (record t { rom = rom })
