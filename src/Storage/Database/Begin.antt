-- ===== src/Storage/Database/Begin.antt =====
-- `Database::begin` on a chip that was just switched on.
use futronix_alexa.Base.{
  ℕ, zero, suc, ◌+◌, ◌≡◌, refl, true, false, some, List, [], ◌∷◌, map, arith, null,
}
use futronix_alexa.Eeprom.Api.{Eeprom, Documented}
use futronix_alexa.Eeprom.Interface.{begin_interface}
use futronix_alexa.Storage.Entry.{Entry}
use futronix_alexa.Storage.Table.{Raw, new_table, begin_table, configure, configure_loop, total_of}
use futronix_alexa.Storage.Table.View.{IsRaw, string_at}
use futronix_alexa.Storage.Table.Alike.{Alike-shape}
use futronix_alexa.Storage.Table.Load.{read_all_entries_lem, configure_loop-IsFresh}
use futronix_alexa.Storage.Database.{
  Database, new_database, record_count, entries_config, begin_database,
}
use futronix_alexa.Storage.Database.Refines.{IsRunning, look}

-- Memory where the record array has NULL pointers, as `malloc` does not promise.
pub record IsZeroed (raw : Raw) : Type 0 where
  pub honest : IsRaw raw
  pub array_null : (n : ℕ) → (raw.array n).payload ≡ null

-- Where the eight records of fifty bytes stand.
abbrev pub places : ℕ → ℕ → List Entry
places zero start = []
places (suc k) start =
    record { payload = null; start_index = start; index = 0; fixed_size = 50; initialized = false }
    ∷ places k (start + 50)

-- The eight strings that stand on a device.
abbrev pub rom_strings : (ℕ → ℕ) → List (List ℕ)
rom_strings f = map (string_at f) (places record_count 0)

module _ {S : Type 0} {lib : Eeprom S} (doc : Documented lib) {raw : Raw} (z : IsZeroed raw) where
  -- Over zeroed memory and a closed EEPROM of any content, `begin` succeeds; the database runs, and
  -- the eight strings that stand on the EEPROM at every fifty bytes are in memory as well.
  pub begin_database_lem :
      (s : S)
      → doc.size s ≡ 0
      → (d : Database S) × (begin_database lib raw (new_database s) ≡ some d)
        × IsRunning doc d
        × (look doc d
            ≡ record { in_rom = rom_strings (doc.cells s); in_ram = rom_strings (doc.cells s) })
  unfolding begin_database configure begin_table begin_interface configure_loop total_of
  begin_database_lem s closed =
      let config = entries_config record_count 0 in
      let t = configure lib raw config (begin_table lib raw (new_table s)) in
      let (t', loaded, valid, viewed, alike) =
        read_all_entries_lem doc z.honest.sized t
          (record { on = refl; closed = closed; idle = refl }) refl
          (configure_loop-IsFresh raw config 0 0 z.array_null (omega arith)) refl (omega arith)
          (omega arith) in
      (
        record { enabled = true; eeprom = t' },
        rw loaded,
        record { on = refl; valid = valid; shaped = Alike-shape t.entries t'.entries alike },
        viewed,
      )
