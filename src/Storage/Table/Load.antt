-- ===== src/Storage/Table/Load.antt =====
-- EEPROMDatabase::configure and readAllEntries: what memory holds after them.
use futronix_alexa.Base.{
  ℕ, zero, suc, ◌+◌, ◌-◌, ◌≡◌, ◌≤◌, ◌<◌, refl, sym, ap, ap₂, ◌∙◌, inl, ◌⊎◌, false, true, has_zero,
  has_zero-append_right, some, List, [], ◌∷◌, ◌++◌, map, arith, length, take, drop, set, splice,
  c_str, null, min, store-some, length-set, splice_zero, take-c_str_extends, append_assoc,
  drop-length_append,
}
use futronix_alexa.Eeprom.Api.{Eeprom, Documented}
use futronix_alexa.Eeprom.Interface.{eeprom_size, read_raw_from_0}
use futronix_alexa.Eeprom.Reads.{IsReady, window, length-window, read_raw_lem}
use futronix_alexa.Storage.Entry.{Entry}
use futronix_alexa.Storage.Entry.Truncates.{IsText, held, set_data_lem, set_data_from-terminated}
use futronix_alexa.Storage.Table.{
  Raw, Table, record_max_size, total_of, configure_loop, load_loop, read_all_entries,
}
use futronix_alexa.Storage.Table.View.{record_room, string_at, IsSized, IsLaid, IsValid, view}
use futronix_alexa.Storage.Table.Fetch.{string_at_same}
use futronix_alexa.Storage.Table.Alike.{Alike, Alike-length, Alike-total_of, Alike-string_at}

-- Records laid out from `off` on, whose pointers are NULL or a text.
abbrev pub IsFresh : ℕ → List Entry → Type 0
IsFresh off [] = Unit
IsFresh off (e ∷ es) =
    (e.start_index ≡ off)
    × (0 < e.fixed_size)
    × (e.fixed_size ≤ record_room)
    × ((e.payload ≡ null) ⊎ IsText e.fixed_size e.payload)
    × IsFresh (off + e.fixed_size) es

window-append : (f : ℕ → ℕ) (a j k : ℕ) → window f a (j + k) ≡ window f a j ++ window f (a + j) k
window-append f a zero k = ap₂ (window f) (omega arith) (omega arith)
window-append f a (suc j) k =
    let count : suc j + k ≡ suc (j + k) = omega arith in
    let place : a + suc j ≡ suc a + j = omega arith in
    rw (count, place) (ap (◌∷◌ (f a)) (window-append f (suc a) j k))

drop-append : (n : ℕ) (xs ys : List ℕ) → length xs ≡ n → drop n (xs ++ ys) ≡ ys
drop-append n xs ys e = rw (← e) (drop-length_append xs ys)

module _ {raw : Raw} (sized : IsSized raw) where
  -- Each record takes its own stretch of the buffer.
  load_loop_lem :
      (f : ℕ → ℕ) (n : ℕ) (es : List Entry) (off : ℕ) (buf rest : List ℕ)
      → IsFresh off es
      → buf ≡ window f off (total_of es) ++ rest
      → has_zero rest ≡ true
      → (es' : List Entry) × (load_loop raw n es buf ≡ some es')
        × IsLaid off es'
        × Alike es es'
        × (map (λ e. held e.payload) es' ≡ map (string_at f) es)
  unfolding load_loop total_of
  load_loop_lem f n [] off buf rest h q z = ([], refl, tt, tt, refl)
  load_loop_lem f n (e ∷ es) off buf rest h q z =
      let size = e.fixed_size in
      let first = window f off size in
      let later = window f (off + size) (total_of es) ++ rest in
      let split : buf ≡ first ++ later =
        q
        ∙ ap (λ m. m ++ rest) (window-append f off size (total_of es))
        ∙ append_assoc first (window f (off + size) (total_of es)) rest in
      let (p, written, text, string) =
        set_data_lem (raw.heap n size) buf e (h.1, sized.heap_size n size, h.3) in
      let ended : has_zero buf ≡ true =
        ap has_zero split
        ∙ has_zero-append_right first later
            (has_zero-append_right (window f (off + size) (total_of es)) rest z) in
      let (es', loaded, laid, alike, strings) =
        load_loop_lem f (suc n) es (off + size) (drop size buf) rest h.4
          (ap (drop size) split ∙ drop-append size first later (length-window f off size)) z in
      let own : held p ≡ string_at f e =
        string
        ∙ ap (λ m. take (size - 1) (c_str m)) split
        ∙ take-c_str_extends (size - 1) first later (omega (arith, length-window f off size))
        ∙ ap (λ a. take (size - 1) (c_str (window f a size))) (sym (h.0)) in
      (
        record e { payload = p; initialized = false } ∷ es',
        rw (set_data_from-terminated (raw.heap n size) buf e ended, written, loaded),
        (h.0, h.1, h.2, refl, text, laid),
        (refl, refl, alike),
        ap₂ ◌∷◌ own strings,
      )

-- The terminator that `readAllEntries` puts behind the records.
has_zero_at : (m : List ℕ) (i : ℕ) → i < length m → has_zero (drop i (set m i 0)) ≡ true
has_zero_at [] i h = elim h [ ]
has_zero_at (b ∷ m) zero h = refl
has_zero_at (b ∷ m) (suc i) h = has_zero_at m i (omega arith)

-- The layout that `configure` makes, over a record array of NULL pointers.
abbrev pub AreSized : List Entry → Type 0
AreSized [] = Unit
AreSized (c ∷ config) = (0 < c.fixed_size) × (c.fixed_size ≤ record_room) × AreSized config

pub configure_loop-IsFresh :
    (raw : Raw) (config : List Entry) (n start : ℕ)
    → ((i : ℕ) → (raw.array i).payload ≡ null)
    → AreSized config
    → IsFresh start (configure_loop raw config n start)
unfolding configure_loop
configure_loop-IsFresh raw [] n start z h = tt
configure_loop-IsFresh raw (c ∷ config) n start z h = (
  refl,
  omega arith,
  omega arith,
  inl (z n),
  configure_loop-IsFresh raw config (suc n) (start + min c.fixed_size record_max_size) z h.2,
)

length-configure_loop :
    (raw : Raw) (config : List Entry) (n start : ℕ)
    → length (configure_loop raw config n start) ≡ length config
unfolding configure_loop
length-configure_loop raw [] n start = refl
length-configure_loop raw (c ∷ config) n start =
    ap suc (length-configure_loop raw config (suc n) (start + min c.fixed_size record_max_size))

module _ {S : Type 0} {lib : Eeprom S} (doc : Documented lib) {raw : Raw}
    (sized : IsSized raw) where
  -- `readAllEntries` makes a fresh record array valid, and memory holds what the EEPROM does.
  pub read_all_entries_lem :
      (t : Table S)
      → IsReady doc t.rom
      → t.record_count ≡ length t.entries
      → IsFresh 0 t.entries
      → t.total_size ≡ total_of t.entries
      → 0 < t.total_size
      → t.total_size < eeprom_size
      → (t' : Table S) × (read_all_entries lib raw t ≡ some t')
        × IsValid doc t'
        × (view doc t' ≡ record {
          in_rom = map (string_at (doc.cells t.rom.device)) t.entries;
          in_ram = map (string_at (doc.cells t.rom.device)) t.entries;
        })
        × Alike t.entries t'.entries
  unfolding read_all_entries read_raw_from_0
  read_all_entries_lem t ready counted fresh summed nonempty fits =
      let f = doc.cells t.rom.device in
      let total = t.total_size in
      let array = raw.stack (total + 1) in
      let wide = sized.stack_size (total + 1) in
      let buf = set array total 0 in
      let (rom, read, kept) =
        read_raw_lem doc t.rom buf 0 total ready (omega arith)
          (omega (arith, wide, length-set array total 0)) in
      let filled = splice buf 0 (window f 0 total) in
      let rest = drop (length (window f 0 total)) buf in
      let ended : has_zero rest ≡ true =
        rw (length-window f 0 total) (has_zero_at array total (omega (arith, wide))) in
      let (es, loaded, laid, alike, strings) =
        load_loop_lem sized f 0 t.entries 0 filled rest fresh
          (splice_zero buf (window f 0 total)
              (omega (arith, wide, length-window f 0 total, length-set array total 0))
            ∙ ap (λ k. window f 0 k ++ rest) summed)
          ended in
      (
        record t { rom = rom; entries = es },
        rw (store-some array total 0 (omega (arith, wide)), read, loaded),
        record {
          ready = kept.ready;
          counted = counted ∙ sym (Alike-length t.entries es alike);
          laid = laid;
          summed = summed ∙ sym (Alike-total_of t.entries es alike);
          nonempty = nonempty;
          fits = fits;
        },
        λ k. record {
          in_rom =
              (string_at_same (doc.cells rom.device) f es kept.same
                  ∙ Alike-string_at f t.entries es alike)
                k;
          in_ram = strings k;
        },
        alike,
      )
