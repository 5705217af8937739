-- ===== src/Storage/Database/Texts.antt =====
-- The reads of `Database` that compare a record's text.
use futronix_alexa.Base.{
  ℕ, ◌≡◌, ◌<◌, sym, ap, ◌∙◌, Bool, true, some, List, [], arith, get_or, c_str, get_elem?-some,
  get_or-set_self, same_bytes, if_true,
}
use futronix_alexa.Eeprom.Api.{Eeprom, Documented}
use futronix_alexa.Storage.Table.{Raw, Table, get_entry}
use futronix_alexa.Storage.Table.View.{View, fetch, IsRaw}
use futronix_alexa.Storage.Table.Fetch.{get_entry_lem}
use futronix_alexa.Storage.Database.{
  Database, record_count, record_fixed_size, magic_word, magic_word_index, has_been_set_up, text_at,
}
use futronix_alexa.Storage.Database.Refines.{
  IsRunning, Becomes, look, becomes, entry-IsText, deref_text, length-entries, length-look_ram,
}

module _ {S : Type 0} {lib : Eeprom S} (doc : Documented lib) {raw : Raw} (honest : IsRaw raw) where
  -- A read of record `i`, as its text.
  pub fetch_text_lem :
      (i : ℕ) (force : Bool) (d : Database S)
      → IsRunning doc d
      → i < record_count
      → (t' : Table S) × (m : List ℕ) × (get_entry lib raw i force d.eeprom ≡ some (some i, t'))
        × (text_at i t' ≡ some m)
        × (c_str m ≡ get_or (look doc d).in_rom i [])
        × Becomes doc (record d { eeprom = t' }) (fetch i (look doc d))
  fetch_text_lem i force d r h =
      let (t', got, reached) =
        get_entry_lem doc honest i force d.eeprom r.valid
          (omega (arith, r.valid.counted, length-entries doc d r)) in
      let d' = record d { eeprom = t' } in
      let b = becomes doc d t' (fetch i (look doc d)) r reached in
      let (e, q) = get_elem?-some t'.entries i (omega (arith, length-entries doc d' b.running)) in
      let (text, ram) = entry-IsText doc d' i e b.running q in
      let (m, read, string) = deref_text record_fixed_size e.payload text in
      (
        t',
        m,
        got,
        rw (q, read),
        string
            ∙ sym ram
            ∙ ap (λ (w : View). get_or w.in_ram i []) b.looks
            ∙ get_or-set_self (look doc d).in_ram i (get_or (look doc d).in_rom i []) []
                (omega (arith, length-look_ram doc d r)),
        b,
      )

  -- `hasBeenSetUp` compares the magic word with the string on the EEPROM.
  pub has_been_set_up_lem :
      (d : Database S)
      → IsRunning doc d
      → (d' : Database S) × (has_been_set_up lib raw d
          ≡ some
              (same_bytes (c_str magic_word) (get_or (look doc d).in_rom magic_word_index []), d'))
        × Becomes doc d' (fetch magic_word_index (look doc d))
  unfolding has_been_set_up
  has_been_set_up_lem d r =
      let (t', m, got, read, string, b) = fetch_text_lem magic_word_index true d r (omega arith) in
      (record d { eeprom = t' }, if_true _ _ r.on ∙ rw (got, read, string), b)
