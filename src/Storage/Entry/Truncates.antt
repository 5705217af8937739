-- ===== src/Storage/Entry/Truncates.antt =====
-- DatabaseEntry::setData: what becomes of a record's text.
use futronix_alexa.Base.{
  ℕ, suc, ◌-◌, ◌≡◌, ◌<◌, refl, ap, ◌∙◌, ◌⊎◌, inl, inr, true, false, none, has_zero, lt→ltb, some,
  List, ◌++◌, ◌∷◌, [], arith, min, length, take, drop, splice, length-take, length-append,
  length-drop, length-splice, take-min, c_str, strlen, strlen-le, take-c_str, c_str-append_zero,
  c_str-HasNoZero, take-HasNoZero, set-splice, memcpy-some, store-some, Pointer, null, wild, block,
}
use futronix_alexa.Storage.Entry.{Entry, block_of, copy_text, set_data, set_data_from}

-- A block of `n` bytes that holds a string with its terminator.
abbrev pub IsText : ℕ → Pointer → Type 0
IsText n null = ⊥
IsText n wild = ⊥
IsText n (block m) = (length m ≡ n) × (strlen m < n)

-- The string that a record holds in memory.
abbrev pub held : Pointer → List ℕ
held null = []
held wild = []
held (block m) = c_str m

-- The block that `setData` writes: the text's front, a zero, and what was behind.
filled : ℕ → List ℕ → List ℕ → List ℕ
filled n text m = let front = take (n - 1) (c_str text) in front ++ 0 ∷ drop (suc (length front)) m

c_str-filled : (n : ℕ) (text m : List ℕ) → c_str (filled n text m) ≡ take (n - 1) (c_str text)
unfolding filled
c_str-filled n text m =
    c_str-append_zero (take (n - 1) (c_str text)) _
      (take-HasNoZero (n - 1) (c_str text) (c_str-HasNoZero text))

writes_filled :
    (n : ℕ) (text m : List ℕ) → 0 < n → length m ≡ n → copy_text m text n ≡ some (filled n text m)
unfolding copy_text filled
writes_filled n text m h k =
    let len = min (strlen text) (n - 1) in
    let front = take (n - 1) (c_str text) in
    let copied : take len text ≡ front =
      take-c_str len text (omega arith) ∙ take-min (n - 1) (c_str text) in
    let fits : length front ≡ len = omega (arith, length-take (n - 1) (c_str text)) in
    rw (
      memcpy-some m 0 text len (omega arith) (omega (arith, strlen-le text)),
      copied,
      store-some (splice m 0 front) len 0 (omega (arith, length-splice m 0 front)),
      ← fits,
      set-splice m front (omega arith),
    )

length-filled : (n : ℕ) (text m : List ℕ) → 0 < n → length m ≡ n → length (filled n text m) ≡ n
unfolding filled
length-filled n text m h k =
    let front = take (n - 1) (c_str text) in
    omega (
      arith,
      length-take (n - 1) (c_str text),
      length-append front (0 ∷ drop (suc (length front)) m),
      length-drop (suc (length front)) m,
    )

-- What can be set: the record has room, and its pointer is NULL or a text.
abbrev pub IsSettable : List ℕ → Entry → Type 0
IsSettable fresh e =
    (0 < e.fixed_size)
    × (length fresh ≡ e.fixed_size)
    × ((e.payload ≡ null) ⊎ IsText e.fixed_size e.payload)

block_of-length :
    (fresh : List ℕ) (n : ℕ) (p : Pointer)
    → length fresh ≡ n
    → (p ≡ null) ⊎ IsText n p
    → (m : List ℕ) × (block_of fresh p ≡ some m) × (length m ≡ n)
block_of-length fresh n null h t = (fresh, refl, h)
block_of-length fresh n wild h (inl e) = cc
block_of-length fresh n wild h (inr t) = absurd t
block_of-length fresh n (block m) h (inl e) = cc
block_of-length fresh n (block m) h (inr t) = (m, refl, t.0)

-- For a record of at least one byte whose pointer is NULL, where `malloc` gives a block of that
-- size, or a text of that size, `setData` succeeds; the record then holds a text of its size, with
-- as much of the given text as fits before the terminator.
pub set_data_lem :
    (fresh text : List ℕ) (e : Entry)
    → IsSettable fresh e
    → (p : Pointer) × (set_data fresh text e ≡ some (record e { payload = p }))
      × IsText e.fixed_size p
      × (held p ≡ take (e.fixed_size - 1) (c_str text))
unfolding set_data
set_data_lem fresh text e h =
    let n = e.fixed_size in
    let (m, found, room) = block_of-length fresh n e.payload h.1 h.2 in
    let stored = filled n text m in
    let string = c_str-filled n text m in
    (
      block stored,
      ground (arith, found, writes_filled n text m h.0 room),
      (
        length-filled n text m h.0 room,
        omega (arith, ap length string, length-take (n - 1) (c_str text)),
      ),
      string,
    )

-- An array with a zero in it is read as a string.
pub set_data_from-terminated :
    (fresh buf : List ℕ) (e : Entry)
    → has_zero buf ≡ true
    → set_data_from fresh buf e ≡ set_data fresh buf e
unfolding set_data_from
set_data_from-terminated fresh buf e h = ground (arith, h)

pub set_data_from-unterminated :
    (fresh buf : List ℕ) (e : Entry)
    → 0 < e.fixed_size
    → has_zero buf ≡ false
    → set_data_from fresh buf e ≡ none
unfolding set_data_from
set_data_from-unterminated fresh buf e h z = rw (lt→ltb 0 e.fixed_size h, z)
