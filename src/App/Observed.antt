-- ===== src/App/Observed.antt =====
-- The running databases up to what a client can read of them: what stands behind the terminators of the
-- records, and in which order they were written, is forgotten. On this quotient the operations of
-- FutronixESP8266/FutronixESP8266.h are functions.
use mathlib.Core.Quot
use mathlib.Core.Quot.{Quot, Quot-set}
use native.Mathlib.Nat.{ℕ_set}
use futronix_alexa.Base.{
  ℕ, suc, ◌≡◌, ◌≢◌, ◌<◌, refl, subst, some_inj, sym, ap, ◌∙◌, some, Option, List, arith, set,
  set_comm, set-set, pos,
}
use futronix_alexa.Eeprom.Api.{Eeprom, Documented}
use futronix_alexa.Storage.Table.{Raw}
use futronix_alexa.Storage.Table.View.{View, IsRaw}
use futronix_alexa.Storage.Database.{Database, magic_word, magic_word_index}
use futronix_alexa.Storage.Database.Refines.{IsRunning, Becomes, look, cut}
use futronix_alexa.App.{rename_scene}
use futronix_alexa.App.Stores.{keep, finish}
use futronix_alexa.App.Rename.{rename_record}

View_set : IsSet View
View_set = hlevel ℕ_set

-- A name for one record, and the magic word of the save behind it.
abbrev named : (xs : List (List ℕ)) (i : ℕ) (a c : List ℕ) → List (List ℕ)
named xs i a c = set (set xs i a) magic_word_index c

named_once :
    (xs : List (List ℕ)) (i j : ℕ) (a b c : List ℕ)
    → i < magic_word_index
    → named (named xs j b c) i a c ≡ set (set (set xs j b) i a) magic_word_index c
named_once xs i j a b c h =
    let ys = set xs j b in
    ap (λ zs. set zs magic_word_index c) (set_comm ys magic_word_index i c a (omega arith))
    ∙ set-set (set ys i a) magic_word_index c c

-- Two records of the store that are renamed one after the other, each with a save.
finish_comm :
    (i j : ℕ) (a b : List ℕ) (v : View)
    → i < magic_word_index
    → j < magic_word_index
    → i ≢ j
    → finish (keep i a (finish (keep j b v))) ≡ finish (keep j b (finish (keep i a v)))
finish_comm i j a b v h k d =
    let xs = v.in_ram in
    let c = cut magic_word in
    ap {A = List (List ℕ)} (λ zs. record { in_rom = zs; in_ram = zs })
      (named_once xs i j (cut a) (cut b) c h
        ∙ ap (λ zs. set zs magic_word_index c) (set_comm xs j i (cut b) (cut a) (λ e. d (sym e)))
        ∙ sym (named_once xs j i (cut b) (cut a) c k))

finish_twice :
    (i : ℕ) (a b : List ℕ) (v : View)
    → i < magic_word_index
    → finish (keep i a (finish (keep i b v))) ≡ finish (keep i a v)
finish_twice i a b v h =
    let xs = v.in_ram in
    let c = cut magic_word in
    ap {A = List (List ℕ)} (λ zs. record { in_rom = zs; in_ram = zs })
      (named_once xs i i (cut a) (cut b) c h
        ∙ ap (λ zs. set zs magic_word_index c) (set-set xs i (cut b) (cut a)))

module _ {S : Type 0} {lib : Eeprom S} (doc : Documented lib) where
  abbrev pub Running : Type 0
  Running = (d : Database S) × IsRunning doc d

  -- Two databases of which a client reads the same strings.
  abbrev pub LookSame : Running → Running → Type 0
  LookSame x y = look doc x.0 ≡ look doc y.0

  abbrev pub Observed : Type 0
  Observed = Quot LookSame

  -- What can be read of all databases of a class.
  pub shown : Observed → View
  shown = Quot.lift View_set (λ x. look doc x.0) (λ x y h. h)

  -- Nothing but that tells two classes apart.
  pub shown_inj : (q q' : Observed) → shown q ≡ shown q' → q ≡ q'
  unfolding shown
  shown_inj =
      Quot.ind (λ _. hlevel Quot-set) λ x. Quot.ind (λ _. hlevel Quot-set) λ y h. Quot.sound h

  -- An operation that takes a step of the abstract store.
  abbrev pub Takes : (Database S → Option (Database S)) → (View → View) → Type 0
  Takes op f =
      (d : Database S)
      → IsRunning doc d
      → (d' : Database S) × (op d ≡ some d') × Becomes doc d' (f (look doc d))

  -- The operation on the classes.
  pub on_classes :
      (op : Database S → Option (Database S)) (f : View → View) → Takes op f → Observed → Observed
  on_classes op f takes =
      Quot.lift Quot-set (λ x. let (d', e, b) = takes x.0 x.1 in Quot.mk (d', b.running))
        (λ x y h.
          let (d', e, b) = takes x.0 x.1 in
          let (c', i, c) = takes y.0 y.1 in Quot.sound (b.looks ∙ ap f h ∙ sym c.looks))

  shown-on_classes :
      (op : Database S → Option (Database S)) (f : View → View) (takes : Takes op f) (q : Observed)
      → shown (on_classes op f takes q) ≡ f (shown q)
  unfolding shown on_classes
  shown-on_classes op f takes = Quot.ind (λ _. hlevel View_set) λ x. (takes x.0 x.1).2.looks

  module _ {raw : Raw} (honest : IsRaw raw) where
    -- `renameScene` of a record before the last.
    pub rename_class : (n : ℕ) → List ℕ → n < magic_word_index → Observed → Observed
    rename_class n name h =
        on_classes (λ d. rename_scene lib raw (pos (suc n)) name d) (λ v. finish (keep n name v))
          (λ d r. rename_record doc honest n name d r (omega arith))

    shown-rename_class :
        (n : ℕ) (name : List ℕ) (h : n < magic_word_index) (q : Observed)
        → shown (rename_class n name h q) ≡ finish (keep n name (shown q))
    unfolding rename_class
    shown-rename_class n name h q = shown-on_classes _ _ _ q

    -- On a class it is `renameScene` of any of its databases.
    rename_class-mk :
        (n : ℕ) (name : List ℕ) (h : n < magic_word_index) (d d' : Database S) (r : IsRunning doc d)
        → rename_scene lib raw (pos (suc n)) name d ≡ some d'
        → (r' : IsRunning doc d') × (rename_class n name h (Quot.mk (d, r)) ≡ Quot.mk (d', r'))
    unfolding rename_class on_classes
    rename_class-mk n name h d d' r e =
        let (d0, e0, b0) = rename_record doc honest n name d r (omega arith) in
        subst
          (λ x. (r' : IsRunning doc x) × (rename_class n name h (Quot.mk (d, r)) ≡ Quot.mk (x, r')))
          (some_inj (sym e0 ∙ e)) (b0.running, refl)

    shown_twice :
        (i j : ℕ) (a b : List ℕ) (q : Observed) (h : i < magic_word_index)
        (k : j < magic_word_index)
        → shown (rename_class i a h (rename_class j b k q))
          ≡ finish (keep i a (finish (keep j b (shown q))))
    shown_twice i j a b q h k =
        shown-rename_class i a h (rename_class j b k q)
        ∙ ap (λ v. finish (keep i a v)) (shown-rename_class j b k q)

    -- With a zero byte in the buffer of `getEntry` behind the record: on the quotient of the
    -- running databases by what a client reads of them, `renameScene` is a function; renames of two
    -- different records before the last commute, and a second rename of a record undoes the first.
    -- The bytes behind the terminators, which the quotient forgets, may differ.
    pub rename_class_comm :
        (i j : ℕ) (a b : List ℕ) (q : Observed) (h : i < magic_word_index)
        (k : j < magic_word_index)
        → i ≢ j
        → (rename_class i a h (rename_class j b k q) ≡ rename_class j b k (rename_class i a h q))
          × (rename_class i a h (rename_class i b h q) ≡ rename_class i a h q)
    rename_class_comm i j a b q h k d = (
      shown_inj _ _ (
          shown_twice i j a b q h k
          ∙ finish_comm i j a b (shown q) h k d
          ∙ sym (shown_twice j i b a q k h)),
      shown_inj _ _ (
          shown_twice i i a b q h h
          ∙ finish_twice i a b (shown q) h
          ∙ sym (shown-rename_class i a h q)),
    )
