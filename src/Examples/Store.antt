-- ===== src/Examples/Store.antt =====
-- The theorems on the database, on a blank device.
use mathlib.Core.Quot
use futronix_alexa.App.Observed.{Observed, rename_class, rename_class_comm}
use futronix_alexa.Base.{
  ℕ, ◌≡◌, ◌≢◌, refl, ap, true, false, some, none, List, [], get_elem?, get_or, c_str, Pointer,
  literal, codes, pos, arith, ◌↔◌, has_zero, drop, replicate, length-replicate, get_elem?-some,
}
use futronix_alexa.Eeprom.Api.{Chip, chip_rom, chip_documented}
use futronix_alexa.Eeprom.Interface.{EepromInterface, do_write}
use futronix_alexa.Eeprom.Reads.{IsReady, window}
use futronix_alexa.Eeprom.Writes.{do_write_empty}
use futronix_alexa.Storage.Entry.Truncates.{held}
use futronix_alexa.Storage.Table.{Raw, Table, get_entry, set_record, save_table}
use futronix_alexa.Storage.Table.View.{IsSized, fetch, put, commit, view}
use futronix_alexa.Storage.Table.Fetch.{Reaches, get_entry_lem, set_record_lem}
use futronix_alexa.Storage.Entry.{Entry}
use futronix_alexa.Storage.Table.Unterminated.{get_entry_unterminated}
use futronix_alexa.Storage.Table.Save.{save_table_lem}
use futronix_alexa.Storage.Database.{
  Database, new_database, max_scenes, begin_database, has_been_set_up, get_scene_name,
  get_scene_number,
}
use futronix_alexa.Storage.Database.Refines.{IsRunning, Becomes, look, length-entries}
use futronix_alexa.Storage.Database.Begin.{begin_database_lem, rom_strings}
use futronix_alexa.Storage.Database.Restart.{begin_database-restart}
use futronix_alexa.Storage.Database.Numbers.{index_of_name, get_scene_number_lem}
use futronix_alexa.App.{setup, rename_scene, clear_scene_names}
use futronix_alexa.App.Stores.{keep, finish}
use futronix_alexa.App.Setup.{set_up_view, setup_lem}
use futronix_alexa.App.Rename.{
  rename_scene_lem, get_scene_name-rename_scene, rename_scene_overrun, clear_scene_names_lem,
}
use futronix_alexa.Examples.{blank_chip, zeroed, zeroed-IsZeroed, begun, begun-IsRunning}

abbrev home : List ℕ
home = literal "home"

abbrev secret : List ℕ
secret = literal "secret"

setup_lem_example :
    (d' : Database Chip) × (setup chip_rom zeroed home secret true begun ≡ some d')
    × Becomes chip_documented d' (set_up_view home secret true (look chip_documented begun))
setup_lem_example =
    setup_lem chip_documented zeroed-IsZeroed.honest home secret true begun begun-IsRunning

-- The database that `setup` leaves.
abbrev set_up_step :
    (d' : Database Chip) × (setup chip_rom zeroed home secret true begun ≡ some d')
    × Becomes chip_documented d' (set_up_view home secret true (look chip_documented begun))
set_up_step =
    setup_lem chip_documented zeroed-IsZeroed.honest home secret true begun begun-IsRunning

rename_scene_lem_example :
    (d' : Database Chip) × (rename_scene chip_rom zeroed (pos 3) home begun ≡ some d')
    × Becomes chip_documented d' (finish (keep 2 home (look chip_documented begun)))
rename_scene_lem_example =
    rename_scene_lem chip_documented zeroed-IsZeroed.honest (pos 3) home begun begun-IsRunning
      (omega arith, omega arith)

-- The database in which the third scene is renamed.
abbrev renamed_step :
    (d' : Database Chip) × (rename_scene chip_rom zeroed (pos 3) home begun ≡ some d')
    × Becomes chip_documented d' (finish (keep 2 home (look chip_documented begun)))
renamed_step =
    rename_scene_lem chip_documented zeroed-IsZeroed.honest (pos 3) home begun begun-IsRunning
      (omega arith, omega arith)

get_scene_name-rename_scene_example :
    (p : Pointer) × (d1 d2 : Database Chip) × (get_scene_name chip_rom zeroed 2 renamed_step.0
      ≡ some (p, d1))
    × (held p ≡ codes "home")
    × (has_been_set_up chip_rom zeroed d1 ≡ some (true, d2))
get_scene_name-rename_scene_example =
    get_scene_name-rename_scene chip_documented zeroed-IsZeroed.honest 2 home begun renamed_step.0
      begun-IsRunning (omega arith) renamed_step.1

rename_scene_overrun_example : rename_scene chip_rom zeroed (pos 9) home begun ≡ none
rename_scene_overrun_example =
    rename_scene_overrun chip_documented zeroed-IsZeroed.honest home begun begun-IsRunning

clear_scene_names_lem_example :
    (d' d'' : Database Chip) × (clear_scene_names chip_rom zeroed set_up_step.0 ≡ some d')
    × ((i : ℕ) → get_or (look chip_documented d').in_rom i [] ≡ [])
    × (has_been_set_up chip_rom zeroed d' ≡ some (false, d''))
clear_scene_names_lem_example =
    clear_scene_names_lem chip_documented zeroed-IsZeroed.honest set_up_step.0 set_up_step.2.running

begin_database_lem_example :
    (d : Database Chip) × (begin_database chip_rom zeroed (new_database blank_chip) ≡ some d)
    × IsRunning chip_documented d
    × (look chip_documented d
        ≡ record { in_rom = rom_strings (λ _. 255); in_ram = rom_strings (λ _. 255) })
begin_database_lem_example = begin_database_lem chip_documented zeroed-IsZeroed blank_chip refl

begin_database-restart_example :
    (d' : Database Chip) × (begin_database chip_rom zeroed
        (new_database renamed_step.0.eeprom.rom.device)
      ≡ some d')
    × IsRunning chip_documented d'
    × (look chip_documented d' ≡ record {
      in_rom = (look chip_documented renamed_step.0).in_rom;
      in_ram = (look chip_documented renamed_step.0).in_rom;
    })
begin_database-restart_example =
    begin_database-restart chip_documented zeroed-IsZeroed renamed_step.0 renamed_step.2.running

get_scene_number_lem_example :
    (d' : Database Chip) × (get_scene_number chip_rom zeroed home renamed_step.0
      ≡ some (index_of_name max_scenes 0 home (look chip_documented renamed_step.0).in_rom, d'))
    × IsRunning chip_documented d'
    × ((look chip_documented d').in_rom ≡ (look chip_documented renamed_step.0).in_rom)
get_scene_number_lem_example =
    get_scene_number_lem chip_documented zeroed-IsZeroed.honest home renamed_step.0
      renamed_step.2.running

save_table_lem_example :
    (t : Table Chip) × (save_table chip_rom zeroed begun.eeprom ≡ some t)
    × Reaches chip_documented begun.eeprom t (commit (view chip_documented begun.eeprom))
save_table_lem_example =
    save_table_lem chip_documented zeroed-IsZeroed.honest.sized begun.eeprom begun-IsRunning.valid

get_entry_lem_example :
    (t : Table Chip) × (get_entry chip_rom zeroed 3 false begun.eeprom ≡ some (some 3, t))
    × Reaches chip_documented begun.eeprom t (fetch 3 (view chip_documented begun.eeprom))
get_entry_lem_example =
    get_entry_lem chip_documented zeroed-IsZeroed.honest 3 false begun.eeprom begun-IsRunning.valid
      (omega (
        arith,
        begun-IsRunning.valid.counted,
        length-entries chip_documented begun begun-IsRunning,
      ))

set_record_lem_example :
    (t : Table Chip) × (set_record chip_rom zeroed 3 home begun.eeprom ≡ some t)
    × Reaches chip_documented begun.eeprom t
        (put 49 3 (c_str home) (view chip_documented begun.eeprom))
set_record_lem_example =
    set_record_lem chip_documented zeroed-IsZeroed.honest.sized 3 home begun.eeprom 50
      begun-IsRunning.valid (ap (λ sizes. get_elem? sizes 3) begun-IsRunning.shaped)

-- The interface to the blank device, after `begin`.
abbrev ready_rom : EepromInterface Chip
ready_rom = record { enabled = true; is_busy = false; device = blank_chip }

ready_rom-IsReady : IsReady chip_documented ready_rom
ready_rom-IsReady = record { on = refl; closed = refl; idle = refl }

do_write_empty_example :
    (e : EepromInterface Chip) × (do_write chip_rom ready_rom [] 100 0 true true ≡ some e)
    × IsReady chip_documented e
    × (chip_documented.cells e.device 100 ≡ 0)
    × (chip_documented.cells e.device 1 ≡ 0)
    × ((a : ℕ) → a ≢ 100 → a ≢ 1 → chip_documented.cells e.device a ≡ 255)
do_write_empty_example =
    do_write_empty chip_documented ready_rom [] 100 true ready_rom-IsReady (omega arith)

-- Memory in which no byte is zero.
abbrev dirty : Raw
dirty = record zeroed { heap = λ i n. replicate n 255; stack = λ n. replicate n 255 }

dirty-IsSized : IsSized dirty
dirty-IsSized = record {
  heap_size = λ i n. length-replicate n 255;
  stack_size = λ n. length-replicate n 255;
}

abbrev fourth : (e : Entry) × (get_elem? begun.eeprom.entries 3 ≡ some e)
fourth =
    get_elem?-some begun.eeprom.entries 3
      (omega (arith, length-entries chip_documented begun begun-IsRunning))

get_entry_unterminated_example : (get_entry chip_rom dirty 3 true begun.eeprom ≡ none) ↔ (
    (has_zero (
        window
          (chip_documented.cells begun.eeprom.rom.device)
          fourth.0.start_index
          fourth.0.fixed_size)
      ≡ false)
    × (has_zero (drop fourth.0.fixed_size (dirty.stack 200)) ≡ false))
get_entry_unterminated_example =
    get_entry_unterminated chip_documented dirty-IsSized 3 true begun.eeprom fourth.0
      begun-IsRunning.valid fourth.1

abbrev begun_class : Observed chip_documented
begun_class = Quot.mk (begun, begun-IsRunning)

rename_class_comm_example :
    let rename2 = rename_class chip_documented zeroed-IsZeroed.honest 2 home (omega arith) in
    let rename4 = rename_class chip_documented zeroed-IsZeroed.honest 4 secret (omega arith) in
    let before2 = rename_class chip_documented zeroed-IsZeroed.honest 2 secret (omega arith) in
    (rename2 (rename4 begun_class) ≡ rename4 (rename2 begun_class))
    × (rename2 (before2 begun_class) ≡ rename2 begun_class)
rename_class_comm_example =
    rename_class_comm chip_documented zeroed-IsZeroed.honest 2 4 home secret begun_class
      (omega arith) (omega arith) (omega arith)
