-- ===== src/Examples.antt =====
-- Concrete devices, memories and firmware, on which the theorems are applied.
pub mod Store
pub mod Radio
pub mod Network
pub mod Whole
pub mod Runs
pub mod Rtos
pub mod Older
use futronix_alexa.Base.{
  refl, sym, ap, subst, Option, some, none, replicate, length-replicate, null,
}
use futronix_alexa.Eeprom.Api.{Chip, chip_rom, chip_documented}
use futronix_alexa.Storage.Entry.{new_entry}
use futronix_alexa.Storage.Table.{Raw}
use futronix_alexa.Storage.Database.{Database, new_database, begin_database}
use futronix_alexa.Storage.Database.Refines.{IsRunning}
use futronix_alexa.Storage.Database.Begin.{IsZeroed, begin_database_lem}

-- A device as it is sold, with all bits set.
abbrev pub blank_chip : Chip
blank_chip = record { bytes = λ _. 255; opened = 0 }

-- Memory that is full of zeros.
abbrev pub zeroed : Raw
zeroed = record { heap = λ i n. replicate n 0; array = λ n. new_entry; stack = λ n. replicate n 0 }

pub zeroed-IsZeroed : IsZeroed zeroed
zeroed-IsZeroed = record {
  honest = record {
    sized = record {
      heap_size = λ i n. length-replicate n 0;
      stack_size = λ n. length-replicate n 0;
    };
    stack_ends = refl;
  };
  array_null = λ n. refl;
}

-- The database on the blank device, after `begin`.
abbrev or_else : Option (Database Chip) → Database Chip → Database Chip
or_else none d = d
or_else (some d') d = d'

abbrev pub begun : Database Chip
begun = or_else (begin_database chip_rom zeroed (new_database blank_chip)) (new_database blank_chip)

pub begun-IsRunning : IsRunning chip_documented begun
begun-IsRunning =
    let (d, e, r, v) = begin_database_lem chip_documented zeroed-IsZeroed blank_chip refl in
    subst (λ o. IsRunning chip_documented (or_else o (new_database blank_chip))) (sym e) r
