-- ===== src/Eeprom/Interface.antt =====
-- FutronixESP8266/EEPROMInterface.h: reads and writes of whole stretches of the EEPROM. A buffer is
-- the memory block that its pointer stands at the start of; a method returns the buffer that it
-- filled. Addresses and lengths are the non-negative `int`s that the program passes.
use futronix_alexa.Base.{
  ℕ, zero, suc, ◌+◌, Bool, true, false, not, ◌&&◌, Option, some, List, min, store, ltb, ◌==◌,
  if◌then◌else◌, ◌>>=◌, get_elem?, strlen,
}
use futronix_alexa.Eeprom.Api.{Eeprom}

abbrev pub eeprom_size : ℕ
eeprom_size = 4096

-- class EEPROMInterface, with the device that it drives.
pub record EepromInterface (S : Type 0) : Type 0 where
  pub enabled : Bool
  pub is_busy : Bool
  pub device : S

-- EEPROMInterface::EEPROMInterface
abbrev pub new_interface : {S : Type 0} → S → EepromInterface S
new_interface s = record { enabled = false; is_busy = false; device = s }

module _ {S : Type 0} (rom : Eeprom S) where
  -- EEPROMInterface::begin
  unfoldable pub begin_interface : EepromInterface S → EepromInterface S
  begin_interface e = record e { enabled = true }

  -- EEPROMInterface::open
  unfoldable pub open_rom : EepromInterface S → EepromInterface S
  open_rom e =
      if e.enabled then record e { is_busy = true; device = rom.begin e.device eeprom_size } else e

  -- EEPROMInterface::close
  unfoldable pub close_rom : EepromInterface S → EepromInterface S
  close_rom e = if e.enabled then record e { is_busy = false; device = rom.finish e.device } else e

  -- The loop of `doRead`, with the rounds that are left: buffer[n] = EEPROM.read(n + start).
  unfoldable pub read_loop : ℕ → ℕ → ℕ → Bool → S → List ℕ → Option (List ℕ)
  read_loop zero n start stop s buf = some buf
  read_loop (suc k) n start stop s buf =
      let b = rom.read s (n + start) in
      store buf n b >>= λ buf'.
      if stop && (b == 0) then some buf' else read_loop k (suc n) start stop s buf'

  -- EEPROMInterface::doRead
  unfoldable pub do_read :
      EepromInterface S → List ℕ → ℕ → ℕ → Bool → Bool → Option (List ℕ × EepromInterface S)
  do_read e buf start len stop terminate =
      if e.enabled
      then (let opened = open_rom e in
          let len' = min len eeprom_size in
          (if terminate && ltb len' eeprom_size then store buf len' 0 else some buf) >>= λ buf'.
          read_loop len' 0 start stop opened.device buf' >>= λ filled.
          some (filled, close_rom opened))
      else some (buf, e)

  -- EEPROMInterface::readRaw(buffer, start, len)
  unfoldable pub read_raw : EepromInterface S → List ℕ → ℕ → ℕ → Option (List ℕ × EepromInterface S)
  read_raw e buf start len = do_read e buf start len false false

  -- EEPROMInterface::readRaw(buffer, len)
  unfoldable pub read_raw_from_0 :
      EepromInterface S → List ℕ → ℕ → Option (List ℕ × EepromInterface S)
  read_raw_from_0 e buf len = read_raw e buf 0 len

  -- EEPROMInterface::readAllRaw
  unfoldable pub read_all_raw : EepromInterface S → List ℕ → Option (List ℕ × EepromInterface S)
  read_all_raw e buf = read_raw e buf 0 eeprom_size

  -- EEPROMInterface::readString(buffer, start, len)
  unfoldable pub read_string :
      EepromInterface S → List ℕ → ℕ → ℕ → Option (List ℕ × EepromInterface S)
  read_string e buf start len = do_read e buf start len true true

  -- EEPROMInterface::readString(buffer, len)
  unfoldable pub read_string_from_0 :
      EepromInterface S → List ℕ → ℕ → Option (List ℕ × EepromInterface S)
  read_string_from_0 e buf len = read_string e buf 0 len

  -- EEPROMInterface::readAllString
  unfoldable pub read_all_string : EepromInterface S → List ℕ → Option (List ℕ × EepromInterface S)
  read_all_string e buf = read_string e buf 0 (eeprom_size + 1)

  -- The loop of `doWrite`, with the rounds that are left: the device, `dbIndex` and
  -- `nullTerminated` when it stops.
  unfoldable pub write_loop : ℕ → ℕ → ℕ → Bool → S → List ℕ → ℕ → Option (S × ℕ × Bool)
  write_loop zero n start stop s buf db_index = some (s, db_index, false)
  write_loop (suc k) n start stop s buf db_index = get_elem? buf n >>= λ b.
      let s' = rom.write s (n + start) b in
      if stop && (b == 0)
      then some (s', n + start, true)
      else write_loop k (suc n) start stop s' buf (n + start)

  -- EEPROMInterface::doWrite
  unfoldable pub do_write :
      EepromInterface S → List ℕ → ℕ → ℕ → Bool → Bool → Option (EepromInterface S)
  do_write e buf start len stop terminate =
      if e.enabled
      then (let opened = open_rom e in
          let len' = min len eeprom_size in
          let s0 =
            if (len' == 0) && terminate then rom.write opened.device start 0 else opened.device in
          write_loop len' 0 start stop s0 buf 0 >>= λ (s1, db_index, null_terminated).
          let s2 = if terminate && not null_terminated then rom.write s1 (db_index + 1) 0 else s1 in
          some (close_rom (record opened { device = s2 })))
      else some e

  -- EEPROMInterface::write(buffer, len)
  unfoldable pub write_raw : EepromInterface S → List ℕ → ℕ → Option (EepromInterface S)
  write_raw e buf len = do_write e buf 0 len false (ltb len eeprom_size)

  -- EEPROMInterface::writeString(buffer, start)
  unfoldable pub write_string : EepromInterface S → List ℕ → ℕ → Option (EepromInterface S)
  write_string e buf start = do_write e buf start (strlen buf) true (ltb (strlen buf) eeprom_size)

  -- EEPROMInterface::writeString(buffer)
  unfoldable pub write_string_from_0 : EepromInterface S → List ℕ → Option (EepromInterface S)
  write_string_from_0 e buf = write_string e buf 0

  -- The loop of `clear`: zeros at the next `k` addresses.
  unfoldable pub clear_loop : ℕ → ℕ → S → S
  clear_loop zero n s = s
  clear_loop (suc k) n s = clear_loop k (suc n) (rom.write s n 0)

  -- EEPROMInterface::clear
  unfoldable pub clear_rom : EepromInterface S → EepromInterface S
  clear_rom e =
      if e.enabled
      then (let opened = open_rom e in
          close_rom (record opened { device = clear_loop eeprom_size 0 opened.device }))
      else e
