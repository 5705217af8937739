-- ===== src/Storage/Table/View.antt =====
-- The records as an abstract store: a list of strings on the EEPROM and one in memory.
use futronix_alexa.Base.{
  ℕ, ◌+◌, ◌-◌, ◌≡◌, ◌≤◌, ◌<◌, refl, ap, Bool, false, if◌then◌else◌, some, List, [], ◌∷◌, map, suc,
  has_zero, drop, true, zero, arith, length, get_elem?, get_or, set, take, c_str, Pointer, some_inj,
  subst, sym,
}
use futronix_alexa.Eeprom.Api.{Eeprom, Documented}
use futronix_alexa.Eeprom.Interface.{eeprom_size}
use futronix_alexa.Eeprom.Reads.{IsReady, window}
use futronix_alexa.Storage.Entry.{Entry}
use futronix_alexa.Storage.Entry.Truncates.{IsText, held}
use futronix_alexa.Storage.Table.{Raw, Table, record_max_size, total_of}

-- What a client can tell of the records: their strings on the EEPROM and in memory.
pub record View : Type 0 where
  pub in_rom : List (List ℕ)
  pub in_ram : List (List ℕ)

-- Record `i` is read afresh.
abbrev pub fetch : ℕ → View → View
fetch i v = record v { in_ram = set v.in_ram i (get_or v.in_rom i []) }

-- A text of at most `n` bytes is kept for record `i`, in memory.
abbrev pub put : ℕ → ℕ → List ℕ → View → View
put n i text v = record v { in_ram = set v.in_ram i (take n text) }

-- The strings in memory go to the EEPROM.
abbrev pub commit : View → View
commit v = record v { in_rom = v.in_ram }

-- The EEPROM is emptied, and memory too if asked.
abbrev pub wipe : Bool → View → View
wipe clear_memory v =
    let blank = map (λ _. []) v.in_rom in
    record { in_rom = blank; in_ram = if clear_memory then map (λ _. []) v.in_ram else v.in_ram }

-- The string of a record, in an EEPROM of the content `f`.
abbrev pub string_at : (ℕ → ℕ) → Entry → List ℕ
string_at f e = take (e.fixed_size - 1) (c_str (window f e.start_index e.fixed_size))

-- The longest record for which `getEntry` finds a terminator behind it.
abbrev pub record_room : ℕ
record_room = 50

-- Blocks and local arrays have the size that was asked for.
pub record IsSized (raw : Raw) : Type 0 where
  pub heap_size : (i n : ℕ) → length (raw.heap i n) ≡ n
  pub stack_size : (n : ℕ) → length (raw.stack n) ≡ n

-- Besides, a zero byte stands behind the first `record_room` bytes of the local array of `getEntry`,
-- which does not terminate what it reads into it.
pub record IsRaw (raw : Raw) : Type 0 where
  pub sized : IsSized raw
  pub stack_ends : has_zero (drop record_room (raw.stack record_max_size)) ≡ true

-- Records of 1 to `record_room` bytes laid out one behind the other from `off` on, each with a text,
-- none of them cached.
abbrev pub IsLaid : ℕ → List Entry → Type 0
IsLaid off [] = Unit
IsLaid off (e ∷ es) =
    (e.start_index ≡ off)
    × (0 < e.fixed_size)
    × (e.fixed_size ≤ record_room)
    × (e.initialized ≡ false)
    × IsText e.fixed_size e.payload
    × IsLaid (off + e.fixed_size) es

module _ {S : Type 0} {lib : Eeprom S} (doc : Documented lib) where
  pub record IsValid (t : Table S) : Type 0 where
    pub ready : IsReady doc t.rom
    pub counted : t.record_count ≡ length t.entries
    pub laid : IsLaid 0 t.entries
    pub summed : t.total_size ≡ total_of t.entries
    pub nonempty : 0 < t.total_size
    pub fits : t.total_size < eeprom_size

  abbrev pub view : Table S → View
  view t = record {
    in_rom = map (string_at (doc.cells t.rom.device)) t.entries;
    in_ram = map (λ e. held e.payload) t.entries;
  }

-- What the layout says of one record.
abbrev pub IsPlaced : ℕ → Entry → Type 0
IsPlaced end e =
    (0 < e.fixed_size)
    × (e.fixed_size ≤ record_room)
    × (e.initialized ≡ false)
    × IsText e.fixed_size e.payload
    × (e.start_index + e.fixed_size ≤ end)

pub IsLaid-get :
    (es : List Entry) (off i : ℕ) (e : Entry)
    → IsLaid off es
    → get_elem? es i ≡ some e
    → IsPlaced (off + total_of es) e
unfolding total_of
IsLaid-get [] off i e h q = cc
IsLaid-get (x ∷ es) off zero e h q =
    subst (IsPlaced (off + (x.fixed_size + total_of es))) (some_inj q)
      (h.1, h.2, h.3, h.4, omega arith)
IsLaid-get (x ∷ es) off (suc i) e h q =
    let r = IsLaid-get es (off + x.fixed_size) i e h.5 q in (r.0, r.1, r.2, r.3, omega (arith, r.4))

-- A new text in one record keeps the layout.
pub IsLaid-set :
    (es : List Entry) (off i : ℕ) (e : Entry) (p : Pointer)
    → IsLaid off es
    → get_elem? es i ≡ some e
    → IsText e.fixed_size p
    → IsLaid off (set es i (record e { payload = p }))
IsLaid-set [] off i e p h q t = cc
IsLaid-set (x ∷ es) off zero e p h q t =
    subst (λ y. IsText y.fixed_size p → IsLaid off (record y { payload = p } ∷ es)) (some_inj q)
      (λ t'. (h.0, h.1, h.2, h.3, t', h.5)) t
IsLaid-set (x ∷ es) off (suc i) e p h q t =
    (h.0, h.1, h.2, h.3, h.4, IsLaid-set es (off + x.fixed_size) i e p h.5 q t)

pub total_of-set :
    (es : List Entry) (i : ℕ) (e : Entry) (p : Pointer)
    → get_elem? es i ≡ some e
    → total_of (set es i (record e { payload = p })) ≡ total_of es
unfolding total_of
total_of-set [] i e p q = refl
total_of-set (x ∷ es) zero e p q = ap (λ (y : Entry). y.fixed_size + total_of es) (sym (some_inj q))
total_of-set (x ∷ es) (suc i) e p q = ap (◌+◌ x.fixed_size) (total_of-set es i e p q)
