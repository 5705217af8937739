-- ===== src/Storage/Table/Fetch.antt =====
-- `getEntry` and `setData` on its result, as steps of the abstract store.
use futronix_alexa.Base.{
  ℕ, ◌-◌, ◌≡◌, ◌≤◌, ◌<◌, refl, sym, ap, ap₂, ◌∙◌, inr, Bool, some, none, List, [], ◌∷◌, map,
  get_or-map, arith, length, get_elem?, get_or, set, take, drop, splice, c_str, Pointer, some_inj,
  length-set, length-map, map-set, map-set_same, get_elem?-some, get_elem?-none, get_elem?-lt,
  get_elem?-map, if_true, lt→ltb, splice_zero, take-c_str_extends, has_zero, has_zero-append_right,
  has_zero-drop, true,
}
use futronix_alexa.Eeprom.Api.{Eeprom, Documented}
use futronix_alexa.Eeprom.Interface.{EepromInterface}
use futronix_alexa.Eeprom.Reads.{IsKept, window, window_ext, length-window}
use futronix_alexa.Storage.Entry.{Entry}
use futronix_alexa.Storage.Entry.Truncates.{IsText, held, set_data_lem, set_data_from-terminated}
use futronix_alexa.Storage.Table.{Raw, Table, record_max_size, get_entry, set_record}
use futronix_alexa.Storage.Table.Arrays.{array_of, array_of-split, get_entry_read}
use futronix_alexa.Storage.Table.View.{
  View, fetch, put, string_at, IsRaw, IsSized, record_room, IsValid, view, IsLaid-get, IsLaid-set,
  total_of-set,
}

-- The sizes of the records.
abbrev pub shape : {S : Type 0} → Table S → List ℕ
shape t = map (λ e. e.fixed_size) t.entries

pub string_at_same :
    (f g : ℕ → ℕ) (es : List Entry)
    → ((a : ℕ) → f a ≡ g a)
    → map (string_at f) es ≡ map (string_at g) es
string_at_same f g [] h = refl
string_at_same f g (e ∷ es) h =
    ap₂ ◌∷◌
      (ap (λ m. take (e.fixed_size - 1) (c_str m))
        (window_ext f g e.start_index e.fixed_size (λ a _ _. h a)))
      (string_at_same f g es h)

-- The record's string in a longer buffer does not depend on what the buffer held behind it.
string-splice :
    (old m : List ℕ) (n : ℕ)
    → length m ≡ n
    → n ≤ length old
    → take (n - 1) (c_str (splice old 0 m)) ≡ take (n - 1) (c_str m)
string-splice old m n e h =
    rw (splice_zero old m (omega arith))
      (take-c_str_extends (n - 1) m (drop (length m) old) (omega arith))

module _ {S : Type 0} {lib : Eeprom S} (doc : Documented lib) where
  -- What a step from `t` to `t'` promises: `t'` is valid, its view is `v`, and no size changed.
  pub record Reaches (t t' : Table S) (v : View) : Type 0 where
    pub valid : IsValid doc t'
    pub viewed : view doc t' ≡ v
    pub shaped : shape t' ≡ shape t

  -- A new text in one record, over a device of the same content.
  pub replace_lem :
      (t : Table S) (i : ℕ) (e : Entry) (p : Pointer) (rom : EepromInterface S)
      → IsValid doc t
      → get_elem? t.entries i ≡ some e
      → IsText e.fixed_size p
      → IsKept doc t.rom rom
      → Reaches t
          (record t { rom = rom; entries = set t.entries i (record e { payload = p }) })
          (record (view doc t) { in_ram = set (view doc t).in_ram i (held p) })
  replace_lem t i e p rom v q text kept = record {
    valid = record {
      ready = kept.ready;
      counted = v.counted ∙ sym (length-set t.entries i e');
      laid = IsLaid-set t.entries 0 i e p v.laid q text;
      summed = v.summed ∙ sym (total_of-set t.entries i e p q);
      nonempty = v.nonempty;
      fits = v.fits;
    };
    viewed = λ k. record {
      in_rom =
          (string_at_same (doc.cells rom.device) (doc.cells t.rom.device) (set t.entries i e')
                kept.same
              ∙ map-set_same (string_at (doc.cells t.rom.device)) t.entries i e e' q refl)
            k;
      in_ram = map-set (λ (r : Entry). held r.payload) t.entries i e' k;
    };
    shaped = map-set_same (λ (r : Entry). r.fixed_size) t.entries i e e' q refl;
  }
    where
      e' : Entry
      e' = record e { payload = p }

  module _ {raw : Raw} (honest : IsRaw raw) where
    -- In a valid table, whose records have at most 50 bytes, with a zero byte in the local buffer
    -- behind the first 50: a record inside the array is read afresh from the EEPROM, whether or not
    -- that is asked for; nothing else of the store changes, and the table stays valid.
    pub get_entry_lem :
        (i : ℕ) (force : Bool) (t : Table S)
        → IsValid doc t
        → i < t.record_count
        → (t' : Table S) × (get_entry lib raw i force t ≡ some (some i, t'))
          × Reaches t t' (fetch i (view doc t))
    get_entry_lem i force t v h =
        let (e, q) = get_elem?-some t.entries i (omega (arith, v.counted)) in
        let at = IsLaid-get t.entries 0 i e v.laid q in
        let old = raw.stack record_max_size in
        let cells = window (doc.cells t.rom.device) e.start_index e.fixed_size in
        let (rom, kept, read) = get_entry_read doc i force t e honest.sized v q in
        let buf = array_of doc raw e t in
        let ended : has_zero buf ≡ true =
          ap has_zero (array_of-split doc e t honest.sized (omega (arith, at.1)))
          ∙ has_zero-append_right cells (drop e.fixed_size old)
              (has_zero-drop e.fixed_size record_room old at.1 honest.stack_ends) in
        let (p, written, text, string) =
          set_data_lem (raw.heap i e.fixed_size) buf e
            (at.0, honest.sized.heap_size i e.fixed_size, inr at.3) in
        let t' = record t { rom = rom; entries = set t.entries i (record e { payload = p }) } in
        let r = replace_lem t i e p rom v q text kept in
        let same : held p ≡ get_or (view doc t).in_rom i [] =
          string
          ∙ string-splice old cells e.fixed_size
              (length-window (doc.cells t.rom.device) e.start_index e.fixed_size)
              (omega (arith, at.1, honest.sized.stack_size record_max_size))
          ∙ sym (get_or-map (string_at (doc.cells t.rom.device)) t.entries i e [] q) in
        (
          t',
          rw (read, set_data_from-terminated (raw.heap i e.fixed_size) buf e ended, written),
          record {
            valid = r.valid;
            viewed =
                r.viewed
                ∙ ap (λ s. record (view doc t) { in_ram = set (view doc t).in_ram i s }) same;
            shaped = r.shaped;
          },
        )

  module _ {raw : Raw} (sized : IsSized raw) where
    -- In a valid table a text set for a record of `n` bytes is kept in memory, cut to `n - 1`
    -- bytes; nothing else of the store changes, and the table stays valid.
    pub set_record_lem :
        (i : ℕ) (text : List ℕ) (t : Table S) (n : ℕ)
        → IsValid doc t
        → get_elem? (shape t) i ≡ some n
        → (t' : Table S) × (set_record lib raw i text t ≡ some t')
          × Reaches t t' (put (n - 1) i (c_str text) (view doc t))
    unfolding set_record
    set_record_lem i text t n v h =
        let (e, q) = get_elem?-some t.entries i (
          omega (
            arith,
            get_elem?-lt (shape t) i h,
            length-map (λ (e : Entry). e.fixed_size) t.entries,
          )) in
        let at = IsLaid-get t.entries 0 i e v.laid q in
        let (p, written, text', string) =
          set_data_lem (raw.heap i e.fixed_size) text e
            (at.0, sized.heap_size i e.fixed_size, inr at.3) in
        let r =
          replace_lem t i e p t.rom v q text' (record { ready = v.ready; same = λ a. refl }) in
        let size : e.fixed_size ≡ n =
          some_inj (sym (get_elem?-map (λ (e : Entry). e.fixed_size) t.entries i e q) ∙ h) in
        (
          record t { entries = set t.entries i (record e { payload = p }) },
          ground (arith, q, written),
          record {
            valid = r.valid;
            viewed =
                r.viewed
                ∙ ap (λ s. record (view doc t) { in_ram = set (view doc t).in_ram i s })
                    (string ∙ ap (λ k. take (k - 1) (c_str text)) size);
            shaped = r.shaped;
          },
        )

-- `getEntry` past the array gives NULL, and changes nothing.
pub get_entry_null :
    {S : Type 0} (lib : Eeprom S) (raw : Raw) (i : ℕ) (force : Bool) (t : Table S)
    → t.record_count < i
    → get_entry lib raw i force t ≡ some (none, t)
unfolding get_entry
get_entry_null lib raw i force t h = if_true _ _ (lt→ltb t.record_count i h)

-- At the index `_recordCount` itself it reads behind the array.
pub get_entry_overrun :
    {S : Type 0} (lib : Eeprom S) (raw : Raw) (force : Bool) (t : Table S)
    → t.record_count ≡ length t.entries
    → get_entry lib raw t.record_count force t ≡ none
unfolding get_entry
get_entry_overrun lib raw force t h =
    ground (arith, get_elem?-none t.entries t.record_count (omega arith))
