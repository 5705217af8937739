-- ===== src/Storage/Table/Clear.antt =====
-- EEPROMDatabase::clear, as a step of the abstract store.
use futronix_alexa.Base.{
  ℕ, zero, suc, ◌+◌, ◌-◌, ◌≡◌, ◌≤◌, ◌<◌, refl, sym, ap, ap₂, ◌∙◌, inr, Bool, true, false, some,
  List, [], ◌∷◌, map, arith, take, c_str,
}
use futronix_alexa.Eeprom.Api.{Eeprom, Documented}
use futronix_alexa.Eeprom.Interface.{eeprom_size, clear_rom}
use futronix_alexa.Eeprom.Reads.{window}
use futronix_alexa.Eeprom.Writes.{clear_rom_lem}
use futronix_alexa.Storage.Entry.{Entry}
use futronix_alexa.Storage.Entry.Truncates.{held, set_data_lem}
use futronix_alexa.Storage.Table.{Raw, Table, total_of, blank_loop, clear_table}
use futronix_alexa.Storage.Table.View.{wipe, string_at, IsSized, IsLaid, IsValid, view}
use futronix_alexa.Storage.Table.Fetch.{Reaches}
use futronix_alexa.Storage.Table.Alike.{
  Alike, Alike-length, Alike-total_of, Alike-shape, Alike-string_at,
}

take-nil : (n : ℕ) → take {A = ℕ} n [] ≡ []
take-nil zero = refl
take-nil (suc n) = refl

-- Zeros read as the empty string.
c_str-zeros :
    (f : ℕ → ℕ) (a n : ℕ) → ((b : ℕ) → a ≤ b → b < a + n → f b ≡ 0) → c_str (window f a n) ≡ []
c_str-zeros f a zero h = refl
c_str-zeros f a (suc n) h = rw (h a (omega arith) (omega arith))

empty_strings :
    (f : ℕ → ℕ) (es : List Entry) (off end : ℕ)
    → IsLaid off es
    → off + total_of es ≤ end
    → ((a : ℕ) → a < end → f a ≡ 0)
    → map (string_at f) es ≡ map (λ _. []) es
unfolding total_of
empty_strings f [] off end h k z = refl
empty_strings f (e ∷ es) off end h k z =
    ap₂ ◌∷◌
      (ap (take (e.fixed_size - 1))
          (c_str-zeros f e.start_index e.fixed_size (λ b p q. z b (omega (arith, h.0))))
        ∙ take-nil (e.fixed_size - 1))
      (empty_strings f es (off + e.fixed_size) end h.5 (omega arith) z)

map_const :
    {A B : Type 0} (f : A → B) (xs : List A)
    → map {B = List ℕ} (λ _. []) (map f xs) ≡ map (λ _. []) xs
map_const f [] = refl
map_const f (x ∷ xs) = ap (◌∷◌ []) (map_const f xs)

module _ {raw : Raw} (sized : IsSized raw) where
  blank_loop_lem :
      (n : ℕ) (es : List Entry) (off : ℕ)
      → IsLaid off es
      → (es' : List Entry) × (blank_loop raw n es ≡ some es')
        × IsLaid off es'
        × Alike es es'
        × (map (λ e. held e.payload) es' ≡ map (λ _. []) es)
  unfolding blank_loop
  blank_loop_lem n [] off h = ([], refl, tt, tt, refl)
  blank_loop_lem n (e ∷ es) off h =
      let (p, written, text, string) =
        set_data_lem (raw.heap n e.fixed_size) (0 ∷ []) e
          (h.1, sized.heap_size n e.fixed_size, inr h.4) in
      let (es', rest, laid, alike, blank) = blank_loop_lem (suc n) es (off + e.fixed_size) h.5 in
      (
        record e { payload = p } ∷ es',
        rw (written, rest),
        (h.0, h.1, h.2, h.3, text, laid),
        (refl, refl, alike),
        ap₂ ◌∷◌ (string ∙ take-nil (e.fixed_size - 1)) blank,
      )

module _ {S : Type 0} {lib : Eeprom S} (doc : Documented lib) {raw : Raw}
    (sized : IsSized raw) where
  wiped_rom :
      (t : Table S)
      → IsValid doc t
      → map (string_at (doc.cells (clear_rom lib t.rom).device)) t.entries
        ≡ map (λ _. []) (view doc t).in_rom
  wiped_rom t v =
      empty_strings (doc.cells (clear_rom lib t.rom).device) t.entries 0 eeprom_size v.laid
        (omega (arith, v.summed, v.fits)) (clear_rom_lem doc t.rom v.ready).1
      ∙ sym (map_const (string_at (doc.cells t.rom.device)) t.entries)

  -- On a valid table `clear` succeeds, every string on the EEPROM is then empty, memory keeps its
  -- strings unless it is to be cleared too, and the table stays valid.
  pub clear_table_lem :
      (clear_memory : Bool) (t : Table S)
      → IsValid doc t
      → (t' : Table S) × (clear_table lib raw clear_memory t ≡ some t')
        × Reaches doc t t' (wipe clear_memory (view doc t))
  unfolding clear_table
  clear_table_lem false t v = (
    record t { rom = clear_rom lib t.rom },
    refl,
    record {
      valid = record {
        ready = (clear_rom_lem doc t.rom v.ready).0;
        counted = v.counted;
        laid = v.laid;
        summed = v.summed;
        nonempty = v.nonempty;
        fits = v.fits;
      };
      viewed = λ k. record { in_rom = wiped_rom t v k; in_ram = (view doc t).in_ram };
      shaped = refl;
    },
  )
  clear_table_lem true t v =
      let (es, blanked, laid, alike, blank) = blank_loop_lem sized 0 t.entries 0 v.laid in
      let f = doc.cells (clear_rom lib t.rom).device in
      (
        record t { rom = clear_rom lib t.rom; entries = es },
        rw blanked,
        record {
          valid = record {
            ready = (clear_rom_lem doc t.rom v.ready).0;
            counted = v.counted ∙ sym (Alike-length t.entries es alike);
            laid = laid;
            summed = v.summed ∙ sym (Alike-total_of t.entries es alike);
            nonempty = v.nonempty;
            fits = v.fits;
          };
          viewed = λ k. record {
            in_rom = (Alike-string_at f t.entries es alike ∙ wiped_rom t v) k;
            in_ram = (blank ∙ sym (map_const (λ (e : Entry). held e.payload) t.entries)) k;
          };
          shaped = Alike-shape t.entries es alike;
        },
      )
