-- ===== src/Storage/Entry.antt =====
-- class DatabaseEntry of FutronixESP8266/EEPromDatabase.h: a fixed-length text record.
pub mod Truncates
use futronix_alexa.Base.{
  ℕ, ◌-◌, Bool, false, not, ◌&&◌, has_zero, Option, some, none, List, min, store, memcpy, strlen,
  Pointer, null, wild, block, ltb, if◌then◌else◌, ◌>>=◌,
}

-- class DatabaseEntry; `payload` is `_data`.
pub record Entry : Type 0 where
  pub payload : Pointer
  pub start_index : ℕ
  pub index : ℕ
  pub fixed_size : ℕ
  pub initialized : Bool

-- DatabaseEntry::DatabaseEntry()
abbrev pub new_entry : Entry
new_entry = record {
  payload = null;
  start_index = 0;
  index = 0;
  fixed_size = 10;
  initialized = false;
}

-- DatabaseEntry::DatabaseEntry(index, fixedSize)
abbrev pub sized_entry : ℕ → ℕ → Entry
sized_entry i n = record new_entry { index = i; fixed_size = n }

-- The block behind `_data`, where `malloc` would hand back `fresh`. The test `_data == NULL` of a
-- pointer that was never set takes it for a block.
abbrev pub block_of : List ℕ → Pointer → Option (List ℕ)
block_of fresh null = some fresh
block_of fresh wild = none
block_of fresh (block m) = some m

-- The three lines of `setData` that copy the text: `len`, cut to `fixedSize - 1`, the `memcpy`, and
-- the terminator.
unfoldable pub copy_text : List ℕ → List ℕ → ℕ → Option (List ℕ)
copy_text m text n =
    let len = min (strlen text) (n - 1) in memcpy m 0 text len >>= λ m'. store m' len 0

-- DatabaseEntry::setData
unfoldable pub set_data : List ℕ → List ℕ → Entry → Option Entry
set_data fresh text e =
    if ltb 0 e.fixed_size
    then (block_of fresh e.payload >>= λ m.
        copy_text m text e.fixed_size >>= λ m'. some (record e { payload = block m' }))
    else some e

-- setData(buf) of an array that the caller filled: without a zero in it, `strlen` reads behind it.
unfoldable pub set_data_from : List ℕ → List ℕ → Entry → Option Entry
set_data_from fresh buf e =
    if ltb 0 e.fixed_size && not (has_zero buf) then none else set_data fresh buf e

-- DatabaseEntry::DatabaseEntry(index, fixedSize, data)
unfoldable pub filled_entry : List ℕ → ℕ → ℕ → List ℕ → Option Entry
filled_entry fresh i n text = set_data fresh text (sized_entry i n)
