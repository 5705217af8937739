-- ===== src/Eeprom/Reads.antt =====
-- What the reads and the bracket of `open` and `close` do to a device that behaves as documented.
use Prim.Native.Nat.add
use futronix_alexa.Base.{
  ℕ, zero, suc, ◌+◌, ◌≡◌, ◌≤◌, ◌<◌, refl, ap, ap₂, ◌∙◌, true, false, some, List, [], ◌∷◌, arith,
  length, splice, set, store-some, splice-set, splice-nil, length-set, min, Bool-cases, inl, inr,
}
use futronix_alexa.Eeprom.Api.{Eeprom, Documented}
use futronix_alexa.Eeprom.Interface.{
  EepromInterface, eeprom_size, open_rom, close_rom, read_loop, do_read, read_raw,
}

-- `f a`, `f (a + 1)`, …: the `k` values from `a` on.
abbrev pub window : (ℕ → ℕ) → ℕ → ℕ → List ℕ
window f a zero = []
window f a (suc k) = f a ∷ window f (suc a) k

pub length-window : (f : ℕ → ℕ) (a k : ℕ) → length (window f a k) ≡ k
length-window f a zero = refl
length-window f a (suc k) = ap suc (length-window f (suc a) k)

pub window_ext :
    (f g : ℕ → ℕ) (a k : ℕ)
    → ((b : ℕ) → a ≤ b → b < a + k → f b ≡ g b)
    → window f a k ≡ window g a k
window_ext f g a zero h = refl
window_ext f g a (suc k) h =
    ap₂ ◌∷◌ (h a (omega arith) (omega arith))
      (window_ext f g (suc a) k (λ b p q. h b (omega arith) (omega arith)))

module _ {S : Type 0} {rom : Eeprom S} (doc : Documented rom) where
  open doc use {cells, size, size-begin, cells-begin, read_in, size-finish, cells-finish}

  -- Enabled, closed and not busy: the state between two calls.
  pub record IsReady (e : EepromInterface S) : Type 0 where
    pub on : e.enabled ≡ true
    pub closed : size e.device ≡ 0
    pub idle : e.is_busy ≡ false

  -- Ready again, and with the same content.
  pub record IsKept (e e' : EepromInterface S) : Type 0 where
    pub ready : IsReady e'
    pub same : (a : ℕ) → cells e'.device a ≡ cells e.device a

  pub size-open :
      (e : EepromInterface S) → e.enabled ≡ true → size (open_rom rom e).device ≡ eeprom_size
  unfolding open_rom
  size-open e h = rw h (size-begin e.device eeprom_size)

  pub cells-open :
      (e : EepromInterface S) (a : ℕ)
      → IsReady e
      → cells (open_rom rom e).device a ≡ cells e.device a
  unfolding open_rom
  cells-open e a r = rw (r.on) (cells-begin e.device eeprom_size a r.closed)

  pub enabled-open : (e : EepromInterface S) → (open_rom rom e).enabled ≡ e.enabled
  unfolding open_rom
  enabled-open e = ground arith

  -- Closing an enabled interface makes it ready and keeps the content.
  pub close-IsReady : (e : EepromInterface S) → e.enabled ≡ true → IsReady (close_rom rom e)
  unfolding close_rom
  close-IsReady e h = record {
    on = ground arith;
    closed = rw h (size-finish e.device);
    idle = rw h;
  }

  pub cells-close :
      (e : EepromInterface S) (a : ℕ) → cells (close_rom rom e).device a ≡ cells e.device a
  unfolding close_rom
  cells-close e a = elim (Bool-cases e.enabled) [
    | inl h ↦ rw h (cells-finish e.device a)
    | inr h ↦ rw h
  ]

  pub open-close-IsKept :
      (e : EepromInterface S) → IsReady e → IsKept e (close_rom rom (open_rom rom e))
  open-close-IsKept e r = record {
    ready = close-IsReady (open_rom rom e) (enabled-open e ∙ r.on);
    same = λ a. cells-close (open_rom rom e) a ∙ cells-open e a r;
  }

  -- The read loop copies the cells over the buffer.
  read_loop_lem :
      (k n start : ℕ) (s : S) (buf : List ℕ)
      → n + k ≤ length buf
      → n + start + k ≤ size s
      → read_loop rom k n start false s buf ≡ some (splice buf n (window (cells s) (n + start) k))
  unfolding read_loop
  read_loop_lem zero n start s buf h p = rw (splice-nil buf n)
  read_loop_lem (suc k) n start s buf h p = rw (
    store-some buf n (rom.read s (n + start)) (omega arith),
    read_loop_lem k (suc n) start s (set buf n (rom.read s (n + start)))
        (omega (arith, length-set buf n (rom.read s (n + start)))) (omega arith),
    add.suc,
    splice-set,
    read_in s (n + start) (omega arith),
  )

  read_loop_from_0 :
      (e : EepromInterface S) (buf : List ℕ) (start len : ℕ)
      → IsReady e
      → start + len ≤ eeprom_size
      → len ≤ length buf
      → read_loop rom (min len eeprom_size) 0 start false (open_rom rom e).device buf
        ≡ some (splice buf 0 (window (cells e.device) start len))
  read_loop_from_0 e buf start len r h k =
      let short : min len eeprom_size ≡ len = omega arith in
      let here : 0 + start ≡ start = omega arith in
      rw (
        short,
        read_loop_lem len 0 start (open_rom rom e).device buf (omega arith)
            (omega (arith, size-open e r.on)),
        here,
        window_ext (cells (open_rom rom e).device) (cells e.device) start len
            (λ b _ _. cells-open e b r),
      )

  -- On a ready interface, a raw read inside the device fills the front of a buffer that is long
  -- enough with the cells from `start` on, and leaves the rest of the buffer, the cells and the
  -- interface as they were.
  pub read_raw_lem :
      (e : EepromInterface S) (buf : List ℕ) (start len : ℕ)
      → IsReady e
      → start + len ≤ eeprom_size
      → len ≤ length buf
      → (e' : EepromInterface S) × (read_raw rom e buf start len
          ≡ some (splice buf 0 (window (cells e.device) start len), e'))
        × IsKept e e'
  unfolding read_raw do_read
  read_raw_lem e buf start len r h k = (
    close_rom rom (open_rom rom e),
    ground (arith, r.on, read_loop_from_0 e buf start len r h k),
    open-close-IsKept e r,
  )
