-- ===== src/Storage/Table/Alike.antt =====
-- Record lists that differ in their texts only.
use futronix_alexa.Base.{
  ℕ, ◌+◌, ◌-◌, ◌≡◌, refl, ap, ap₂, List, [], ◌∷◌, map, length, suc, take, c_str,
}
use futronix_alexa.Eeprom.Reads.{window}
use futronix_alexa.Storage.Entry.{Entry}
use futronix_alexa.Storage.Table.{total_of}
use futronix_alexa.Storage.Table.View.{string_at}

-- The same records, at the same places.
abbrev pub Alike : List Entry → List Entry → Type 0
Alike [] [] = Unit
Alike [] (e' ∷ es') = ⊥
Alike (e ∷ es) [] = ⊥
Alike (e ∷ es) (e' ∷ es') =
    (e'.start_index ≡ e.start_index) × (e'.fixed_size ≡ e.fixed_size) × Alike es es'

pub Alike-length : (es es' : List Entry) → Alike es es' → length es' ≡ length es
Alike-length [] [] h = refl
Alike-length [] (e' ∷ es') h = absurd h
Alike-length (e ∷ es) [] h = absurd h
Alike-length (e ∷ es) (e' ∷ es') h = ap suc (Alike-length es es' h.2)

pub Alike-total_of : (es es' : List Entry) → Alike es es' → total_of es' ≡ total_of es
unfolding total_of
Alike-total_of [] [] h = refl
Alike-total_of [] (e' ∷ es') h = absurd h
Alike-total_of (e ∷ es) [] h = absurd h
Alike-total_of (e ∷ es) (e' ∷ es') h = ap₂ ◌+◌ h.1 (Alike-total_of es es' h.2)

pub Alike-shape :
    (es es' : List Entry)
    → Alike es es'
    → map (λ (e : Entry). e.fixed_size) es' ≡ map (λ (e : Entry). e.fixed_size) es
Alike-shape [] [] h = refl
Alike-shape [] (e' ∷ es') h = absurd h
Alike-shape (e ∷ es) [] h = absurd h
Alike-shape (e ∷ es) (e' ∷ es') h = ap₂ ◌∷◌ h.1 (Alike-shape es es' h.2)

-- The strings on a device depend on the places alone.
pub Alike-string_at :
    (f : ℕ → ℕ) (es es' : List Entry) → Alike es es' → map (string_at f) es' ≡ map (string_at f) es
Alike-string_at f [] [] h = refl
Alike-string_at f [] (e' ∷ es') h = absurd h
Alike-string_at f (e ∷ es) [] h = absurd h
Alike-string_at f (e ∷ es) (e' ∷ es') h =
    ap₂ ◌∷◌ (ap₂ (λ a n. take (n - 1) (c_str (window f a n))) h.0 h.1)
      (Alike-string_at f es es' h.2)
