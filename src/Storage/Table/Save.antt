-- ===== src/Storage/Table/Save.antt =====
-- EEPROMDatabase::save, as a step of the abstract store.
use futronix_alexa.Base.{
  ℕ, zero, suc, ◌+◌, ◌-◌, ◌≡◌, ◌≤◌, ◌<◌, refl, sym, ap, ap₂, ◌∙◌, false, some, List, [], ◌∷◌, ◌++◌,
  map, arith, length, get_or, take, take_all, splice, splice-splice, splice_all, splice-nil,
  length-splice, length-append, get_or-append_left, get_or-append_right, c_str, Pointer, null, wild,
  block, deref, memcpy-some, lt→ltb,
}
use futronix_alexa.Eeprom.Api.{Eeprom, Documented}
use futronix_alexa.Eeprom.Interface.{eeprom_size, write_raw}
use futronix_alexa.Eeprom.Reads.{window}
use futronix_alexa.Eeprom.Writes.{do_write_lem}
use futronix_alexa.Storage.Entry.{Entry}
use futronix_alexa.Storage.Entry.Truncates.{IsText, held}
use futronix_alexa.Storage.Table.{Raw, Table, total_of, gather_loop, save_table}
use futronix_alexa.Storage.Table.View.{commit, string_at, IsSized, IsLaid, IsValid, view}
use futronix_alexa.Storage.Table.Fetch.{Reaches}

-- The bytes of a record's block.
bytes : Pointer → List ℕ
bytes null = []
bytes wild = []
bytes (block m) = m

-- The blocks of all records, one behind the other.
image : List Entry → List ℕ
image [] = []
image (e ∷ es) = bytes e.payload ++ image es

-- What a text pointer is.
record IsBlock (n : ℕ) (p : Pointer) : Type 0 where
  read : deref p ≡ some (bytes p)
  sized : length (bytes p) ≡ n
  string : held p ≡ take (n - 1) (c_str (bytes p))

IsText-IsBlock : (n : ℕ) (p : Pointer) → IsText n p → IsBlock n p
unfolding bytes
IsText-IsBlock n null t = absurd t
IsText-IsBlock n wild t = absurd t
IsText-IsBlock n (block m) t = record {
  read = refl;
  sized = t.0;
  string = sym (take_all (n - 1) (c_str m) (omega (arith, t.1)));
}

length-image : (es : List Entry) (off : ℕ) → IsLaid off es → length (image es) ≡ total_of es
unfolding image total_of
length-image [] off h = refl
length-image (e ∷ es) off h = omega (
  arith,
  length-append (bytes e.payload) (image es),
  (IsText-IsBlock e.fixed_size e.payload h.4).sized,
  length-image es (off + e.fixed_size) h.5,
)

gather_loop_lem :
    (es : List Entry) (off : ℕ) (buf : List ℕ)
    → IsLaid off es
    → off + total_of es ≤ length buf
    → gather_loop es off buf ≡ some (splice buf off (image es))
unfolding gather_loop image total_of
gather_loop_lem [] off buf h k = rw (splice-nil buf off)
gather_loop_lem (e ∷ es) off buf h k =
    let b = IsText-IsBlock e.fixed_size e.payload h.4 in
    let m = bytes e.payload in
    let whole : take e.fixed_size m ≡ m = take_all e.fixed_size m (omega (arith, b.sized)) in
    rw (
      b.read,
      memcpy-some buf off m e.fixed_size (omega arith) (omega (arith, b.sized)),
      whole,
      gather_loop_lem es (off + e.fixed_size) (splice buf off m) h.5
          (omega (arith, length-splice buf off m)),
      splice-splice buf off (off + e.fixed_size) m (image es) (omega (arith, b.sized)),
    )

window-eq :
    (f : ℕ → ℕ) (off n : ℕ) (m : List ℕ)
    → length m ≡ n
    → ((i : ℕ) → i < n → f (off + i) ≡ get_or m i 0)
    → window f off n ≡ m
window-eq f off zero [] e h = refl
window-eq f off zero (b ∷ m) e h = absurd (omega arith)
window-eq f off (suc n) [] e h = absurd (omega arith)
window-eq f off (suc n) (b ∷ m) e h =
    ap₂ ◌∷◌ (ap f (omega arith) ∙ h 0 (omega arith)) (
      window-eq f (suc off) n m (omega arith) (λ i p. ap f (omega arith) ∙ h (suc i) (omega arith)))

-- A device that holds the blocks shows the strings of memory.
strings_of_image :
    (f : ℕ → ℕ) (es : List Entry) (off : ℕ)
    → IsLaid off es
    → ((i : ℕ) → i < length (image es) → f (off + i) ≡ get_or (image es) i 0)
    → map (string_at f) es ≡ map (λ e. held e.payload) es
unfolding image
strings_of_image f [] off h same = refl
strings_of_image f (e ∷ es) off h same =
    let b = IsText-IsBlock e.fixed_size e.payload h.4 in
    let m = bytes e.payload in
    let both = length-append m (image es) in
    let first : window f e.start_index e.fixed_size ≡ m = rw (h.0) (
      window-eq f off e.fixed_size m b.sized (λ i p.
        same i (omega (arith, b.sized))
        ∙ get_or-append_left m (image es) i 0 (omega (arith, b.sized)))) in
    ap₂ ◌∷◌ (ap (λ w. take (e.fixed_size - 1) (c_str w)) first ∙ sym b.string) (
      strings_of_image f es (off + e.fixed_size) h.5 (λ i p.
        ap f (omega (arith, b.sized))
        ∙ same (length m + i) (omega arith)
        ∙ get_or-append_right m (image es) i 0))

module _ {S : Type 0} {lib : Eeprom S} (doc : Documented lib) {raw : Raw}
    (sized : IsSized raw) where
  -- On a valid table `save` succeeds, the table stays valid with the same sizes and strings in
  -- memory, and the strings on the EEPROM are then those in memory.
  pub save_table_lem :
      (t : Table S)
      → IsValid doc t
      → (t' : Table S) × (save_table lib raw t ≡ some t') × Reaches doc t t' (commit (view doc t))
  unfolding save_table write_raw
  save_table_lem t v =
      let old = raw.stack t.total_size in
      let m = image t.entries in
      let total = length-image t.entries 0 v.laid in
      let gathered : gather_loop t.entries 0 old ≡ some m =
        gather_loop_lem t.entries 0 old v.laid
          (omega (arith, total, sized.stack_size t.total_size, v.summed))
        ∙ ap some
            (splice_all old m (omega (arith, total, sized.stack_size t.total_size, v.summed))) in
      let (rom, written, stored) =
        do_write_lem doc t.rom m 0 t.total_size false v.ready v.nonempty (omega (arith, v.fits))
          (omega (arith, total, v.summed)) (λ i p. refl) in
      let same = λ (i : ℕ) (p : i < length m).
        ap (doc.cells rom.device) (omega arith)
        ∙ stored.inside i (omega (arith, total, v.summed)) in
      (
        record t { rom = rom },
        rw (gathered, lt→ltb t.total_size eeprom_size v.fits, written),
        record {
          valid = record {
            ready = stored.ready;
            counted = v.counted;
            laid = v.laid;
            summed = v.summed;
            nonempty = v.nonempty;
            fits = v.fits;
          };
          viewed = λ k. record {
            in_rom = strings_of_image (doc.cells rom.device) t.entries 0 v.laid same k;
            in_ram = map (λ e. held e.payload) t.entries;
          };
          shaped = refl;
        },
      )
