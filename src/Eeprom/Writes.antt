-- ===== src/Eeprom/Writes.antt =====
-- What the writes do to a device that behaves as documented.
use native.Mathlib.Decide.{ℕ_discrete}
use futronix_alexa.Base.{
  ℕ, zero, suc, ◌+◌, ◌-◌, ◌≡◌, ◌≢◌, ◌≤◌, ◌<◌, refl, ap, ◌∙◌, Bool, true, false, ◌&&◌, some, List,
  arith, length, get_or, get_elem?-eq-get_or, min, ◌==◌, if◌then◌else◌, ltb, leb, if_true,
}
use futronix_alexa.Eeprom.Api.{Eeprom, Documented}
use futronix_alexa.Eeprom.Interface.{
  EepromInterface, eeprom_size, open_rom, close_rom, write_loop, do_write, clear_loop, clear_rom,
}
use futronix_alexa.Eeprom.Reads.{
  IsReady, size-open, cells-open, enabled-open, close-IsReady, cells-close,
}

module _ {S : Type 0} {rom : Eeprom S} (doc : Documented rom) where
  open doc use {cells, size, size-write, write_self, write_ne, write_out}

  -- What the write loop has done when it stops: `k` bytes of the buffer, from `n` on, are written at
  -- their offset from `start`.
  pub record Wrote (k n start : ℕ) (s s' : S) (buf : List ℕ) (db_index last : ℕ) : Type 0 where
    pub size_kept : size s' ≡ size s
    pub inside : (i : ℕ) → n ≤ i → i < n + k → cells s' (i + start) ≡ get_or buf i 0
    pub below : (a : ℕ) → a < n + start → cells s' a ≡ cells s a
    pub above : (a : ℕ) → n + start + k ≤ a → cells s' a ≡ cells s a
    pub last_index : last ≡ (if k == 0 then db_index else n + start + k - 1)

  write_first :
      (k n start : ℕ) (s s' : S) (buf : List ℕ) (db_index last : ℕ)
      → n + start < size s
      → Wrote k (suc n) start (rom.write s (n + start) (get_or buf n 0)) s' buf (n + start) last
      → Wrote (suc k) n start s s' buf db_index last
  write_first k n start s s' buf db_index last h w = record {
    size_kept = w.size_kept ∙ size-write s (n + start) v;
    inside = λ i p q. elim (ℕ_discrete i n) [
      | yes e ↦ rw e (w.below (n + start) (omega arith) ∙ write_self s (n + start) v h)
      | no ne ↦ w.inside i (omega arith) (omega arith)
    ];
    below = λ a p. w.below a (omega arith) ∙ write_ne s (n + start) v a (omega arith);
    above = λ a p. w.above a (omega arith) ∙ write_ne s (n + start) v a (omega arith);
    last_index = ground (arith, w.last_index);
  }
    where
      v : ℕ
      v = get_or buf n 0

  -- The loop writes all `k` bytes, unless it is to stop at a zero and meets one.
  write_loop_lem :
      (k n start : ℕ) (stop : Bool) (s : S) (buf : List ℕ) (db_index : ℕ)
      → n + k ≤ length buf
      → n + start + k ≤ size s
      → ((i : ℕ) → n ≤ i → i < n + k → (stop && (get_or buf i 0 == 0)) ≡ false)
      → (s' : S) × (last : ℕ) × (write_loop rom k n start stop s buf db_index
          ≡ some (s', last, false))
        × Wrote k n start s s' buf db_index last
  unfolding write_loop
  write_loop_lem zero n start stop s buf db_index h p runs = (
    s,
    db_index,
    refl,
    record {
      size_kept = refl;
      inside = λ i q r. absurd (omega arith);
      below = λ a q. refl;
      above = λ a q. refl;
      last_index = refl;
    },
  )
  write_loop_lem (suc k) n start stop s buf db_index h p runs =
      let v = get_or buf n 0 in
      let (s', last, e, w) =
        write_loop_lem k (suc n) start stop (rom.write s (n + start) v) buf (n + start)
          (omega arith) (omega (arith, size-write s (n + start) v))
          (λ i q r. runs i (omega arith) (omega arith)) in
      (
        s',
        last,
        rw (get_elem?-eq-get_or buf n 0 (omega arith), runs n (omega arith) (omega arith), e),
        write_first k n start s s' buf db_index last (omega arith) w,
      )

  -- What a terminated write of `len` bytes has left on the device.
  pub record IsStored (e e' : EepromInterface S) (buf : List ℕ) (start len : ℕ) : Type 0 where
    pub ready : IsReady doc e'
    pub inside : (i : ℕ) → i < len → cells e'.device (i + start) ≡ get_or buf i 0
    pub ended : cells e'.device (start + len) ≡ 0
    pub below : (a : ℕ) → a < start → cells e'.device a ≡ cells e.device a
    pub above : (a : ℕ) → start + len < a → cells e'.device a ≡ cells e.device a

  -- A terminated write of at least one byte, none of which stops it early, from a buffer that holds
  -- them, that ends inside the device, on a ready interface, stores the bytes and a zero behind
  -- them, and changes no other cell.
  pub do_write_lem :
      (e : EepromInterface S) (buf : List ℕ) (start len : ℕ) (stop : Bool)
      → IsReady doc e
      → 0 < len
      → start + len < eeprom_size
      → len ≤ length buf
      → ((i : ℕ) → i < len → (stop && (get_or buf i 0 == 0)) ≡ false)
      → (e' : EepromInterface S) × (do_write rom e buf start len stop true ≡ some e')
        × IsStored e e' buf start len
  unfolding do_write
  do_write_lem e buf start len stop r pos_len h k runs =
      let opened = open_rom rom e in
      let wide : size opened.device ≡ eeprom_size = size-open doc e r.on in
      let (s', last, eq, w) =
        write_loop_lem len 0 start stop opened.device buf 0 (omega arith) (omega arith)
          (λ i _ q. runs i (omega arith)) in
      let short : min len eeprom_size ≡ len = omega arith in
      let here : last + 1 ≡ start + len = ground (arith, w.last_index) in
      let s2 = rom.write s' (start + len) 0 in
      let final = record opened { device = s2 } in
      (
        close_rom rom final,
        ground (arith, r.on, short, eq, here, ap (λ k. rom.write s' k 0) here),
        record {
          ready = close-IsReady doc final (enabled-open doc e ∙ r.on);
          inside = λ i q.
              cells-close doc final (i + start)
              ∙ write_ne s' (start + len) 0 (i + start) (omega arith)
              ∙ w.inside i (omega arith) (omega arith);
          ended =
              cells-close doc final (start + len)
              ∙ write_self s' (start + len) 0 (omega (arith, w.size_kept));
          below = λ a q.
              cells-close doc final a
              ∙ write_ne s' (start + len) 0 a (omega arith)
              ∙ w.below a (omega arith)
              ∙ cells-open doc e a r;
          above = λ a q.
              cells-close doc final a
              ∙ write_ne s' (start + len) 0 a (omega arith)
              ∙ w.above a (omega arith)
              ∙ cells-open doc e a r;
        },
      )

  -- The loop of `clear` zeroes its addresses.
  clear_loop_lem :
      (k n : ℕ) (s : S) (a : ℕ)
      → n + k ≤ size s
      → cells (clear_loop rom k n s) a ≡ (if leb n a && ltb a (n + k) then 0 else cells s a)
  unfolding clear_loop
  clear_loop_lem zero n s a h = ground arith
  clear_loop_lem (suc k) n s a h = ground (
    arith,
    clear_loop_lem k (suc n) (rom.write s n 0) a (omega (arith, size-write s n 0)),
    λ (p : a ≢ n). write_ne s n 0 a p,
    write_self s n 0 (omega arith),
    λ (p : a ≡ n). ap (cells (rom.write s n 0)) p,
  )

  clear_rom_on :
      (e : EepromInterface S)
      → e.enabled ≡ true
      → clear_rom rom e
        ≡ close_rom rom (record (open_rom rom e) {
          device = clear_loop rom eeprom_size 0 (open_rom rom e).device;
        })
  unfolding clear_rom
  clear_rom_on e h = if_true _ _ h

  -- `clear` on a ready interface leaves zeros in all 4096 cells, and the interface ready.
  pub clear_rom_lem :
      (e : EepromInterface S)
      → IsReady doc e
      → IsReady doc (clear_rom rom e)
        × ((a : ℕ) → a < eeprom_size → cells (clear_rom rom e).device a ≡ 0)
  clear_rom_lem e r =
      let opened = open_rom rom e in
      let final = record opened { device = clear_loop rom eeprom_size 0 opened.device } in
      rw (clear_rom_on e r.on) (
        close-IsReady doc final (enabled-open doc e ∙ r.on),
        λ a h.
            cells-close doc final a
            ∙ clear_loop_lem eeprom_size 0 opened.device a (omega (arith, size-open doc e r.on))
            ∙ if_true {b = leb 0 a && ltb a (0 + eeprom_size)} 0 (cells opened.device a)
                (ground arith),
      )

  -- On a ready interface, a terminated write of no byte inside the device zeroes the start address,
  -- and address 1 as well, and no other cell: `dbIndex` is still 0 when the terminator is put at
  -- `dbIndex + 1`.
  pub do_write_empty :
      (e : EepromInterface S) (buf : List ℕ) (start : ℕ) (stop : Bool)
      → IsReady doc e
      → start < eeprom_size
      → (e' : EepromInterface S) × (do_write rom e buf start 0 stop true ≡ some e')
        × IsReady doc e'
        × (cells e'.device start ≡ 0)
        × (cells e'.device 1 ≡ 0)
        × ((a : ℕ) → a ≢ start → a ≢ 1 → cells e'.device a ≡ cells e.device a)
  unfolding do_write write_loop
  do_write_empty e buf start stop r h =
      let opened = open_rom rom e in
      let wide : size opened.device ≡ eeprom_size = size-open doc e r.on in
      let s1 = rom.write opened.device start 0 in
      let s2 = rom.write s1 1 0 in
      let final = record opened { device = s2 } in
      (
        close_rom rom final,
        ground (arith, r.on),
        close-IsReady doc final (enabled-open doc e ∙ r.on),
        cells-close doc final start ∙ elim (ℕ_discrete start 1) [
          | yes p ↦
              ap (cells s2) p ∙ write_self s1 1 0 (omega (arith, size-write opened.device start 0))
          | no p ↦ write_ne s1 1 0 start p ∙ write_self opened.device start 0 (omega arith)
        ],
        cells-close doc final 1
            ∙ write_self s1 1 0 (omega (arith, size-write opened.device start 0)),
        λ a p q.
            cells-close doc final a
            ∙ write_ne s1 1 0 a q
            ∙ write_ne opened.device start 0 a p
            ∙ cells-open doc e a r,
      )
