-- ===== src/Storage/Table/Unterminated.antt =====
-- `getEntry` where the record has no terminator on the EEPROM.
use futronix_alexa.Base.{
  ℕ, ◌≡◌, ◌↔◌, ◌≢◌, ap, ◌∙◌, inl, inr, true, false, Bool, Bool-cases, some, none, drop, get_elem?,
  has_zero, has_zero-append_left, has_zero-append_none, arith,
}
use futronix_alexa.Eeprom.Api.{Eeprom, Documented}
use futronix_alexa.Eeprom.Reads.{window}
use futronix_alexa.Storage.Entry.{Entry}
use futronix_alexa.Storage.Entry.Truncates.{
  set_data_lem, set_data_from-terminated, set_data_from-unterminated,
}
use futronix_alexa.Storage.Table.{Raw, Table, record_max_size, get_entry}
use futronix_alexa.Storage.Table.View.{IsSized, IsValid, IsLaid-get}
use futronix_alexa.Storage.Table.Arrays.{array_of, array_of-split, get_entry_read}

module _ {S : Type 0} {lib : Eeprom S} (doc : Documented lib) {raw : Raw}
    (sized : IsSized raw) where
  -- A zero in the record or behind it.
  get_entry_terminated :
      (i : ℕ) (force : Bool) (t : Table S) (e : Entry)
      → IsValid doc t
      → get_elem? t.entries i ≡ some e
      → has_zero (array_of doc raw e t) ≡ true
      → get_entry lib raw i force t ≢ none
  get_entry_terminated i force t e v q z n =
      let at = IsLaid-get t.entries 0 i e v.laid q in
      let (rom, kept, read) = get_entry_read doc i force t e sized v q in
      let fresh = raw.heap i e.fixed_size in
      let buf = array_of doc raw e t in
      let (p, written, text, string) =
        set_data_lem fresh buf e (at.0, sized.heap_size i e.fixed_size, inr at.3) in
      cc (n, read, set_data_from-terminated fresh buf e z, written)

  -- In a valid table a read of a record inside the array has no defined result exactly if neither
  -- the record on the EEPROM nor what the local buffer held behind it has a zero byte: `setData`
  -- then measures a text that does not end in the buffer.
  pub get_entry_unterminated :
      (i : ℕ) (force : Bool) (t : Table S) (e : Entry)
      → IsValid doc t
      → get_elem? t.entries i ≡ some e
      → (get_entry lib raw i force t ≡ none) ↔ (
          (has_zero (window (doc.cells t.rom.device) e.start_index e.fixed_size) ≡ false)
          × (has_zero (drop e.fixed_size (raw.stack record_max_size)) ≡ false))
  get_entry_unterminated i force t e v q =
      let at = IsLaid-get t.entries 0 i e v.laid q in
      let cells = window (doc.cells t.rom.device) e.start_index e.fixed_size in
      let behind = drop e.fixed_size (raw.stack record_max_size) in
      let split = ap has_zero (array_of-split doc e t sized (omega (arith, at.1))) in
      let fine = get_entry_terminated i force t e v q in
      let (rom, kept, read) = get_entry_read doc i force t e sized v q in
      (
        λ n. elim (Bool-cases (has_zero cells)) [
          | inl z ↦ absurd (fine (split ∙ has_zero-append_left cells behind z) n)
          | inr z ↦ (
            z,
            elim (Bool-cases (has_zero behind)) [
              | inl y ↦ absurd (fine (split ∙ has_zero-append_none cells behind z ∙ y) n)
              | inr y ↦ y
            ],
          )
        ],
        λ (z, y).
            read
            ∙ rw (
                set_data_from-unterminated (raw.heap i e.fixed_size) (array_of doc raw e t) e at.0
                  (split ∙ has_zero-append_none cells behind z ∙ y)),
      )
