-- ===== src/Eeprom/Api.antt =====
-- The EEPROM library of the ESP8266 core, which the repository does not hold: its four calls are a
-- parameter, and what the program relies on is a record of its documented behaviour. `Chip` is a
-- concrete device that has it.
use futronix_alexa.Base.{ℕ, ◌≡◌, refl, ◌≢◌, ◌≤◌, ◌<◌, ltb, ◌==◌, if◌then◌else◌, arith}

-- EEPROM.begin(size), EEPROM.read(address), EEPROM.write(address, value), EEPROM.end()
pub record Eeprom (S : Type 0) : Type 0 where
  pub begin : S → ℕ → S
  pub read : S → ℕ → ℕ
  pub write : S → ℕ → ℕ → S
  pub finish : S → S

-- What the documentation promises. `cells` is the content, as it stands or will stand after the next
-- `end`; `size` is the number of bytes opened by `begin`, 0 while the device is closed.
pub record Documented {S : Type 0} (rom : Eeprom S) : Type 0 where
  pub cells : S → ℕ → ℕ
  pub size : S → ℕ
  pub size-begin : (s : S) (n : ℕ) → size (rom.begin s n) ≡ n
  pub cells-begin : (s : S) (n a : ℕ) → size s ≡ 0 → cells (rom.begin s n) a ≡ cells s a
  pub read_in : (s : S) (a : ℕ) → a < size s → rom.read s a ≡ cells s a
  pub size-write : (s : S) (a v : ℕ) → size (rom.write s a v) ≡ size s
  pub write_self : (s : S) (a v : ℕ) → a < size s → cells (rom.write s a v) a ≡ v
  pub write_ne : (s : S) (a v b : ℕ) → b ≢ a → cells (rom.write s a v) b ≡ cells s b
  pub write_out : (s : S) (a v b : ℕ) → size s ≤ a → cells (rom.write s a v) b ≡ cells s b
  pub size-finish : (s : S) → size (rom.finish s) ≡ 0
  pub cells-finish : (s : S) (a : ℕ) → cells (rom.finish s) a ≡ cells s a

-- A device: its bytes, and how many of them are open.
pub record Chip : Type 0 where
  pub bytes : ℕ → ℕ
  pub opened : ℕ

abbrev pub update : (ℕ → ℕ) → ℕ → ℕ → ℕ → ℕ
update f a v b = if b == a then v else f b

abbrev pub chip_rom : Eeprom Chip
chip_rom = record {
  begin = λ s n. record s { opened = n };
  read = λ s a. if ltb a s.opened then s.bytes a else 0;
  write = λ s a v. if ltb a s.opened then record s { bytes = update s.bytes a v } else s;
  finish = λ s. record s { opened = 0 };
}

pub chip_read_in : (s : Chip) (a : ℕ) → a < s.opened → chip_rom.read s a ≡ s.bytes a
chip_read_in s a h = ground arith

pub chip_size-write : (s : Chip) (a v : ℕ) → (chip_rom.write s a v).opened ≡ s.opened
chip_size-write s a v = ground arith

pub chip_write_self : (s : Chip) (a v : ℕ) → a < s.opened → (chip_rom.write s a v).bytes a ≡ v
chip_write_self s a v h = ground arith

pub chip_write_ne : (s : Chip) (a v b : ℕ) → b ≢ a → (chip_rom.write s a v).bytes b ≡ s.bytes b
chip_write_ne s a v b h = ground arith

pub chip_write_out :
    (s : Chip) (a v b : ℕ) → s.opened ≤ a → (chip_rom.write s a v).bytes b ≡ s.bytes b
chip_write_out s a v b h = ground arith

-- The concrete device does what the documentation says.
abbrev pub chip_documented : Documented chip_rom
chip_documented = record {
  cells = λ s. s.bytes;
  size = λ s. s.opened;
  size-begin = λ s n. refl;
  cells-begin = λ s n a h. refl;
  read_in = chip_read_in;
  size-write = chip_size-write;
  write_self = chip_write_self;
  write_ne = chip_write_ne;
  write_out = chip_write_out;
  size-finish = λ s. refl;
  cells-finish = λ s a. refl;
}
