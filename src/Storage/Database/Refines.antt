-- ===== src/Storage/Database/Refines.antt =====
-- The operations of `Database`, each as a step of the abstract store of eight strings.
use futronix_alexa.Base.{
  ℕ, ◌-◌, ◌≡◌, ◌<◌, refl, sym, ap, ◌∙◌, Bool, true, some, List, [], arith, length, get_elem?,
  get_or, take, c_str, deref, Pointer, replicate, length-map, get_elem?-some, get_elem?-map,
  get_elem?-lt, set-set, get_or-set_self, get_or-map, get_elem?-replicate, some_inj, subst, if_true,
}
use futronix_alexa.Eeprom.Api.{Eeprom, Documented}
use futronix_alexa.Storage.Entry.{Entry}
use futronix_alexa.Storage.Entry.Truncates.{IsText, held}
use futronix_alexa.Storage.Table.{Raw, Table}
use futronix_alexa.Storage.Table.View.{
  View, fetch, put, commit, wipe, string_at, IsRaw, IsValid, view, IsLaid-get,
}
use futronix_alexa.Storage.Table.Fetch.{Reaches, shape, get_entry_lem, set_record_lem}
use futronix_alexa.Storage.Table.Save.{save_table_lem}
use futronix_alexa.Storage.Table.Clear.{clear_table_lem}
use futronix_alexa.Storage.Database.{
  Database, record_count, record_fixed_size, magic_word, magic_word_index, get_data, put_data,
  clear_database, save_database,
}

-- A text cut to what a record of fifty bytes holds.
abbrev pub cut : List ℕ → List ℕ
cut text = take (record_fixed_size - 1) (c_str text)

pub cut-magic_word : cut magic_word ≡ c_str magic_word
cut-magic_word = refl

pub deref_text :
    (n : ℕ) (p : Pointer) → IsText n p → (m : List ℕ) × (deref p ≡ some m) × (c_str m ≡ held p)
deref_text n Pointer.null t = absurd t
deref_text n Pointer.wild t = absurd t
deref_text n (Pointer.block m) t = (m, refl, refl)

module _ {S : Type 0} {lib : Eeprom S} (doc : Documented lib) where
  pub record IsRunning (d : Database S) : Type 0 where
    pub on : d.enabled ≡ true
    pub valid : IsValid doc d.eeprom
    pub shaped : shape d.eeprom ≡ replicate record_count record_fixed_size

  abbrev pub look : Database S → View
  look d = view doc d.eeprom

  -- What a step promises: the database runs on, and its view is `v`.
  pub record Becomes (d' : Database S) (v : View) : Type 0 where
    pub running : IsRunning d'
    pub looks : look d' ≡ v

  pub length-entries : (d : Database S) → IsRunning d → length d.eeprom.entries ≡ record_count
  length-entries d r =
      sym (length-map (λ (e : Entry). e.fixed_size) d.eeprom.entries) ∙ ap length r.shaped

  pub length-look : (d : Database S) → IsRunning d → length (look d).in_rom ≡ record_count
  length-look d r =
      length-map (string_at (doc.cells d.eeprom.rom.device)) d.eeprom.entries ∙ length-entries d r

  pub length-look_ram : (d : Database S) → IsRunning d → length (look d).in_ram ≡ record_count
  length-look_ram d r =
      length-map (λ (e : Entry). held e.payload) d.eeprom.entries ∙ length-entries d r

  -- A step of the table is a step of the database.
  pub becomes :
      (d : Database S) (t' : Table S) (v : View)
      → IsRunning d
      → Reaches doc d.eeprom t' v
      → Becomes (record d { eeprom = t' }) v
  becomes d t' v r h = record {
    running = record { on = r.on; valid = h.valid; shaped = h.shaped ∙ r.shaped };
    looks = h.viewed;
  }

  -- The record behind an index holds a text of the fixed size, which is its string in memory.
  pub entry-IsText :
      (d : Database S) (i : ℕ) (e : Entry)
      → IsRunning d
      → get_elem? d.eeprom.entries i ≡ some e
      → IsText record_fixed_size e.payload × (get_or (look d).in_ram i [] ≡ held e.payload)
  entry-IsText d i e r q =
      let es = d.eeprom.entries in
      let size = λ (x : Entry). x.fixed_size in
      let inside : i < record_count = omega (arith, get_elem?-lt es i q, length-entries d r) in
      let fifty : e.fixed_size ≡ record_fixed_size = some_inj (
        sym (get_elem?-map size es i e q)
        ∙ ap (λ s. get_elem? s i) r.shaped
        ∙ get_elem?-replicate record_count i record_fixed_size inside) in
      (
        subst (λ n. IsText n e.payload) fifty (IsLaid-get es 0 i e r.valid.laid q).3,
        get_or-map (λ (x : Entry). held x.payload) es i e [] q,
      )

  module _ {raw : Raw} (honest : IsRaw raw) where
    -- A read of record `i` gives its string on the EEPROM.
    pub get_data_lem :
        (i : ℕ) (force : Bool) (d : Database S)
        → IsRunning d
        → i < record_count
        → (p : Pointer) × (d' : Database S) × (get_data lib raw i force d ≡ some (p, d'))
          × (held p ≡ get_or (look d).in_rom i [])
          × IsText record_fixed_size p
          × Becomes d' (fetch i (look d))
    unfolding get_data
    get_data_lem i force d r h =
        let v = r.valid in
        let many = length-entries d r in
        let (t', got, reached) =
          get_entry_lem doc honest i force d.eeprom v (omega (arith, v.counted)) in
        let b = becomes d t' (fetch i (look d)) r reached in
        let (e, q) =
          get_elem?-some t'.entries i
            (omega (arith, length-entries (record d { eeprom = t' }) b.running)) in
        let d' = record d { eeprom = t' } in
        let (text, ram) = entry-IsText d' i e b.running q in
        (
          e.payload,
          d',
          ground (arith, got, q),
          sym ram
              ∙ ap (λ (w : View). get_or w.in_ram i []) b.looks
              ∙ get_or-set_self (look d).in_ram i (get_or (look d).in_rom i []) []
                  (omega (arith, length-look_ram d r)),
          text,
          b,
        )

    -- A text set for record `i` is kept in memory, cut to the record's size.
    pub put_data_lem :
        (i : ℕ) (force : Bool) (text : List ℕ) (d : Database S)
        → IsRunning d
        → i < record_count
        → (d' : Database S) × (put_data lib raw i force text d ≡ some d')
          × Becomes d' (put (record_fixed_size - 1) i (c_str text) (look d))
    unfolding put_data
    put_data_lem i force text d r h =
        let v = r.valid in
        let (t1, got, first) =
          get_entry_lem doc honest i force d.eeprom v
            (omega (arith, v.counted, length-entries d r)) in
        let b = becomes d t1 (fetch i (look d)) r first in
        let (t2, written, second) =
          set_record_lem doc honest.sized i text t1 record_fixed_size first.valid (
            ap (λ s. get_elem? s i) b.running.shaped
            ∙ get_elem?-replicate record_count i record_fixed_size h) in
        let c =
          becomes (record d { eeprom = t1 }) t2
            (put (record_fixed_size - 1) i (c_str text) (view doc t1)) b.running second in
        (
          record d { eeprom = t2 },
          ground (arith, got, written),
          record {
            running = c.running;
            looks = c.looks ∙ ap (put (record_fixed_size - 1) i (c_str text)) b.looks ∙ λ k.
                record {
                  in_rom = (look d).in_rom;
                  in_ram = set-set (look d).in_ram i (get_or (look d).in_rom i []) (cut text) k;
                };
          },
        )

    -- `save` marks the database as set up, and puts all that memory holds on the EEPROM.
    pub save_database_lem :
        (d : Database S)
        → IsRunning d
        → (d' : Database S) × (save_database lib raw d ≡ some d')
          × Becomes d'
              (commit (put (record_fixed_size - 1) magic_word_index (c_str magic_word) (look d)))
    unfolding save_database
    save_database_lem d r =
        let (d1, marked, b) = put_data_lem magic_word_index true magic_word d r (omega arith) in
        let (t2, saved, reached) = save_table_lem doc honest.sized d1.eeprom b.running.valid in
        let c = becomes d1 t2 (commit (look d1)) b.running reached in
        (
          record d1 { eeprom = t2 },
          if_true _ _ r.on ∙ rw (marked, saved),
          record { running = c.running; looks = c.looks ∙ ap commit b.looks },
        )

    -- `clear` empties the strings on the EEPROM, and those in memory if asked.
    pub clear_database_lem :
        (clear_memory : Bool) (d : Database S)
        → IsRunning d
        → (d' : Database S) × (clear_database lib raw clear_memory d ≡ some d')
          × Becomes d' (wipe clear_memory (look d))
    unfolding clear_database
    clear_database_lem clear_memory d r =
        let (t', cleared, reached) =
          clear_table_lem doc honest.sized clear_memory d.eeprom r.valid in
        (
          record d { eeprom = t' },
          if_true _ _ r.on ∙ rw cleared,
          becomes d t' (wipe clear_memory (look d)) r reached,
        )
