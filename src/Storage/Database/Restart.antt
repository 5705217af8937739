-- ===== src/Storage/Database/Restart.antt =====
-- `Database::begin` on a device that an earlier run of the program left.
use futronix_alexa.Base.{
  ℕ, zero, suc, ◌+◌, ◌-◌, ◌≡◌, refl, sym, ap, ap₂, ◌∙◌, some, List, [], ◌∷◌, map, take, c_str,
  replicate,
}
use futronix_alexa.Eeprom.Api.{Eeprom, Documented}
use futronix_alexa.Eeprom.Reads.{window}
use futronix_alexa.Storage.Entry.{Entry}
use futronix_alexa.Storage.Table.{Raw}
use futronix_alexa.Storage.Table.View.{IsLaid, string_at}
use futronix_alexa.Storage.Database.{
  Database, new_database, record_count, record_fixed_size, begin_database,
}
use futronix_alexa.Storage.Database.Refines.{IsRunning, look}
use futronix_alexa.Storage.Database.Begin.{IsZeroed, places, rom_strings, begin_database_lem}

head_≡ : {x y : ℕ} {xs ys : List ℕ} → ◌≡◌ {A = List ℕ} (x ∷ xs) (y ∷ ys) → x ≡ y
head_≡ e = cc

tail_≡ : {x y : ℕ} {xs ys : List ℕ} → ◌≡◌ {A = List ℕ} (x ∷ xs) (y ∷ ys) → xs ≡ ys
tail_≡ e = cc

-- Records of fifty bytes that are laid out from `off` on stand where `places` says.
strings_placed :
    (f : ℕ → ℕ) (k off : ℕ) (es : List Entry)
    → IsLaid off es
    → map (λ (e : Entry). e.fixed_size) es ≡ replicate k record_fixed_size
    → map (string_at f) es ≡ map (string_at f) (places k off)
strings_placed f zero off [] h e = refl
strings_placed f zero off (x ∷ es) h e = absurd cc
strings_placed f (suc k) off [] h e = absurd cc
strings_placed f (suc k) off (x ∷ es) h e =
    let fifty : x.fixed_size ≡ 50 = head_≡ e in
    ap₂ ◌∷◌ (ap₂ (λ start size. take (size - 1) (c_str (window f start size))) h.0 fifty) (
      strings_placed f k (off + x.fixed_size) es h.5 (tail_≡ e)
      ∙ ap (λ size. map (string_at f) (places k (off + size))) fifty)

module _ {S : Type 0} {lib : Eeprom S} (doc : Documented lib) {raw : Raw} (z : IsZeroed raw) where
  -- Switched off and on again over zeroed memory, a running database loses nothing that it had on
  -- the EEPROM: `begin` succeeds, and both the EEPROM and memory hold those strings.
  pub begin_database-restart :
      (d : Database S)
      → IsRunning doc d
      → (d' : Database S) × (begin_database lib raw (new_database d.eeprom.rom.device) ≡ some d')
        × IsRunning doc d'
        × (look doc d' ≡ record { in_rom = (look doc d).in_rom; in_ram = (look doc d).in_rom })
  begin_database-restart d r =
      let (d', e, r', v) = begin_database_lem doc z d.eeprom.rom.device r.valid.ready.closed in
      let same : rom_strings (doc.cells d.eeprom.rom.device) ≡ (look doc d).in_rom = sym (
        strings_placed (doc.cells d.eeprom.rom.device) record_count 0 d.eeprom.entries r.valid.laid
          r.shaped) in
      (d', e, r', v ∙ ap (λ (s : List (List ℕ)). record { in_rom = s; in_ram = s }) same)
