-- ===== src/Storage/Table/Arrays.antt =====
-- The local array of `getEntry`: the record's bytes, and what stood behind them.
use futronix_alexa.Base.{
  ℕ, ◌≡◌, ◌≤◌, ap, ◌∙◌, Bool, some, List, arith, get_elem?, set, drop, splice, get_elem?-lt,
  splice_zero, ◌++◌, ◌>>=◌, ltb, false,
}
use futronix_alexa.Eeprom.Api.{Eeprom, Documented}
use futronix_alexa.Eeprom.Interface.{EepromInterface}
use futronix_alexa.Eeprom.Reads.{IsKept, window, length-window, read_raw_lem}
use futronix_alexa.Storage.Entry.{Entry, set_data_from}
use futronix_alexa.Storage.Table.{Raw, Table, record_max_size, get_entry}
use futronix_alexa.Storage.Table.View.{IsSized, IsValid, IsLaid-get}

module _ {S : Type 0} {lib : Eeprom S} (doc : Documented lib) where
  -- The local array of `getEntry`, with the record's bytes in front.
  abbrev pub array_of : Raw → Entry → Table S → List ℕ
  array_of raw e t =
      splice (raw.stack record_max_size) 0
        (window (doc.cells t.rom.device) e.start_index e.fixed_size)

  pub array_of-split :
      {raw : Raw} (e : Entry) (t : Table S)
      → IsSized raw
      → e.fixed_size ≤ record_max_size
      → array_of raw e t
        ≡ window (doc.cells t.rom.device) e.start_index e.fixed_size
          ++ drop e.fixed_size (raw.stack record_max_size)
  array_of-split {raw} e t sized h =
      let old = raw.stack record_max_size in
      let cells = window (doc.cells t.rom.device) e.start_index e.fixed_size in
      let wide = length-window (doc.cells t.rom.device) e.start_index e.fixed_size in
      splice_zero old cells (omega (arith, wide, sized.stack_size record_max_size))
      ∙ ap (λ n. cells ++ drop n old) wide

  -- What `getEntry` does with a record inside the array of a valid table.
  pub get_entry_read :
      {raw : Raw} (i : ℕ) (force : Bool) (t : Table S) (e : Entry)
      → IsSized raw
      → IsValid doc t
      → get_elem? t.entries i ≡ some e
      → (rom : EepromInterface S) × IsKept doc t.rom rom
        × (get_entry lib raw i force t ≡ (
            set_data_from (raw.heap i e.fixed_size) (array_of raw e t) e >>= λ e'.
            some (some i, record t { rom = rom; entries = set t.entries i e' })))
  unfolding get_entry
  get_entry_read {raw} i force t e sized v q =
      let at = IsLaid-get t.entries 0 i e v.laid q in
      let (rom, read, kept) =
        read_raw_lem doc t.rom (raw.stack record_max_size) e.start_index e.fixed_size v.ready
          (omega (arith, at.4, v.fits, v.summed))
          (omega (arith, at.1, sized.stack_size record_max_size)) in
      let inside : ltb t.record_count i ≡ false =
        ground (arith, v.counted, get_elem?-lt t.entries i q) in
      (rom, kept, ground (arith, inside, q, at.2, read))
