-- ===== src/Base/Lists.antt =====
-- Lists measured and indexed by native numbers; `splice` overwrites a stretch of a list in place.
use Prim.Native.Nat.{ℕ, zero, suc, ◌+◌, ◌-◌, ◌≤◌, ◌<◌, min}
use Prim.Native.Nat.add
use mathlib.Core.Path.{◌≡◌, refl, ap, ap₂}
use mathlib.Core.Logic.{◌≢◌}
use mathlib.Core.List.{List, [], ◌∷◌, ◌++◌, map}
use mathlib.Core.Option.{Option, none, some}
use native.Mathlib.Omega.{arith}

module _ {ℓ} {A : Type ℓ} where
  abbrev pub length : List A → ℕ
  length [] = 0
  length (x ∷ xs) = suc (length xs)

  abbrev pub get_elem? : List A → ℕ → Option A
  get_elem? [] i = none
  get_elem? (x ∷ xs) zero = some x
  get_elem? (x ∷ xs) (suc i) = get_elem? xs i

  abbrev pub get_or : List A → ℕ → A → A
  get_or [] i d = d
  get_or (x ∷ xs) zero d = x
  get_or (x ∷ xs) (suc i) d = get_or xs i d

  abbrev pub set : List A → ℕ → A → List A
  set [] i v = []
  set (x ∷ xs) zero v = v ∷ xs
  set (x ∷ xs) (suc i) v = x ∷ set xs i v

  abbrev pub take : ℕ → List A → List A
  take zero xs = []
  take (suc n) [] = []
  take (suc n) (x ∷ xs) = x ∷ take n xs

  abbrev pub drop : ℕ → List A → List A
  drop zero xs = xs
  drop (suc n) [] = []
  drop (suc n) (x ∷ xs) = drop n xs

  abbrev pub replicate : ℕ → A → List A
  replicate zero a = []
  replicate (suc n) a = a ∷ replicate n a

  -- `splice ys n xs` is `ys` with `xs` written over it from index `n` on; what does not fit is lost.
  abbrev pub splice : List A → ℕ → List A → List A
  splice [] n xs = []
  splice (y ∷ ys) zero [] = y ∷ ys
  splice (y ∷ ys) zero (x ∷ xs) = x ∷ splice ys zero xs
  splice (y ∷ ys) (suc n) xs = y ∷ splice ys n xs

  -- Every element satisfies `P`.
  abbrev pub All {κ} : (A → Type κ) → List A → Type κ
  All P [] = Unit
  All P (x ∷ xs) = P x × All P xs

module _ {ℓ} {A : Type ℓ} where
  pub length-append : (xs ys : List A) → length (xs ++ ys) ≡ length xs + length ys
  length-append [] ys = omega arith
  length-append (x ∷ xs) ys = omega (arith, length-append xs ys)

  pub length-set : (xs : List A) (i : ℕ) (v : A) → length (set xs i v) ≡ length xs
  length-set [] i v = refl
  length-set (x ∷ xs) zero v = refl
  length-set (x ∷ xs) (suc i) v = ap suc (length-set xs i v)

  pub get_elem?-set_self :
      (xs : List A) (i : ℕ) (v : A) → i < length xs → get_elem? (set xs i v) i ≡ some v
  get_elem?-set_self [] i v h = elim h [ ]
  get_elem?-set_self (x ∷ xs) zero v h = refl
  get_elem?-set_self (x ∷ xs) (suc i) v h = get_elem?-set_self xs i v (omega arith)

  pub get_elem?-set_ne :
      (xs : List A) {i j : ℕ} (v : A) → i ≢ j → get_elem? (set xs i v) j ≡ get_elem? xs j
  get_elem?-set_ne [] v h = refl
  get_elem?-set_ne (x ∷ xs) {i = zero} {j = zero} v h = absurd (h refl)
  get_elem?-set_ne (x ∷ xs) {i = zero} {j = suc j} v h = refl
  get_elem?-set_ne (x ∷ xs) {i = suc i} {j = zero} v h = refl
  get_elem?-set_ne (x ∷ xs) {i = suc i} {j = suc j} v h = get_elem?-set_ne xs v (λ e. h (ap suc e))

  pub get_elem?-eq-get_or :
      (xs : List A) (i : ℕ) (d : A) → i < length xs → get_elem? xs i ≡ some (get_or xs i d)
  get_elem?-eq-get_or [] i d h = elim h [ ]
  get_elem?-eq-get_or (x ∷ xs) zero d h = refl
  get_elem?-eq-get_or (x ∷ xs) (suc i) d h = get_elem?-eq-get_or xs i d (omega arith)

  pub length-take : (n : ℕ) (xs : List A) → length (take n xs) ≡ min n (length xs)
  length-take zero xs = omega arith
  length-take (suc n) [] = omega arith
  length-take (suc n) (x ∷ xs) = omega (arith, length-take n xs)

  pub length-drop : (n : ℕ) (xs : List A) → length (drop n xs) ≡ length xs - n
  length-drop zero xs = omega arith
  length-drop (suc n) [] = omega arith
  length-drop (suc n) (x ∷ xs) = omega (arith, length-drop n xs)

  pub length-replicate : (n : ℕ) (a : A) → length (replicate n a) ≡ n
  length-replicate zero a = refl
  length-replicate (suc n) a = ap suc (length-replicate n a)

  pub take_all : (n : ℕ) (xs : List A) → length xs ≤ n → take n xs ≡ xs
  take_all zero [] h = refl
  take_all zero (x ∷ xs) h = absurd (omega arith)
  take_all (suc n) [] h = refl
  take_all (suc n) (x ∷ xs) h = ap (◌∷◌ x) (take_all n xs (omega arith))

  pub take-append_left : (n : ℕ) (xs ys : List A) → n ≤ length xs → take n (xs ++ ys) ≡ take n xs
  take-append_left zero xs ys h = refl
  take-append_left (suc n) [] ys h = elim h [ ]
  take-append_left (suc n) (x ∷ xs) ys h = ap (◌∷◌ x) (take-append_left n xs ys (omega arith))

  pub take-length_append : (xs ys : List A) → take (length xs) (xs ++ ys) ≡ xs
  take-length_append [] ys = refl
  take-length_append (x ∷ xs) ys = ap (◌∷◌ x) (take-length_append xs ys)

  pub drop-length_append : (xs ys : List A) → drop (length xs) (xs ++ ys) ≡ ys
  drop-length_append [] ys = refl
  drop-length_append (x ∷ xs) ys = drop-length_append xs ys

  pub length-splice : (ys : List A) (n : ℕ) (xs : List A) → length (splice ys n xs) ≡ length ys
  length-splice [] n xs = refl
  length-splice (y ∷ ys) zero [] = refl
  length-splice (y ∷ ys) zero (x ∷ xs) = ap suc (length-splice ys zero xs)
  length-splice (y ∷ ys) (suc n) xs = ap suc (length-splice ys n xs)

  pub splice-nil : (ys : List A) (n : ℕ) → splice ys n [] ≡ ys
  splice-nil [] n = refl
  splice-nil (y ∷ ys) zero = refl
  splice-nil (y ∷ ys) (suc n) = ap (◌∷◌ y) (splice-nil ys n)

  -- Writing one element and then the rest behind it is writing all of them.
  pub splice-set :
      (ys : List A) (n : ℕ) (x : A) (xs : List A)
      → splice (set ys n x) (suc n) xs ≡ splice ys n (x ∷ xs)
  splice-set [] n x xs = refl
  splice-set (y ∷ ys) zero x xs = refl
  splice-set (y ∷ ys) (suc n) x xs = ap (◌∷◌ y) (splice-set ys n x xs)

  pub splice_all : (ys xs : List A) → length xs ≡ length ys → splice ys 0 xs ≡ xs
  splice_all [] [] h = refl
  splice_all [] (x ∷ xs) h = absurd (omega arith)
  splice_all (y ∷ ys) [] h = absurd (omega arith)
  splice_all (y ∷ ys) (x ∷ xs) h = ap (◌∷◌ x) (splice_all ys xs (omega arith))

  -- Two writes, the second right behind the first.
  pub splice-splice :
      (ys : List A) (n m : ℕ) (xs zs : List A)
      → m ≡ n + length xs
      → splice (splice ys n xs) m zs ≡ splice ys n (xs ++ zs)
  splice-splice [] n m xs zs e = refl
  splice-splice (y ∷ ys) zero zero [] zs e = refl
  splice-splice (y ∷ ys) zero (suc m) [] zs e = absurd (omega arith)
  splice-splice (y ∷ ys) zero zero (x ∷ xs) zs e = absurd (omega arith)
  splice-splice (y ∷ ys) zero (suc m) (x ∷ xs) zs e =
      ap (◌∷◌ x) (splice-splice ys zero m xs zs (omega arith))
  splice-splice (y ∷ ys) (suc n) zero xs zs e = absurd (omega arith)
  splice-splice (y ∷ ys) (suc n) (suc m) xs zs e =
      ap (◌∷◌ y) (splice-splice ys n m xs zs (omega arith))

  pub splice_zero :
      (ys xs : List A) → length xs ≤ length ys → splice ys 0 xs ≡ xs ++ drop (length xs) ys
  splice_zero [] [] h = refl
  splice_zero [] (x ∷ xs) h = absurd (omega arith)
  splice_zero (y ∷ ys) [] h = refl
  splice_zero (y ∷ ys) (x ∷ xs) h = ap (◌∷◌ x) (splice_zero ys xs (omega arith))

  pub get_or-append_left :
      (xs ys : List A) (i : ℕ) (d : A) → i < length xs → get_or (xs ++ ys) i d ≡ get_or xs i d
  get_or-append_left [] ys i d h = elim h [ ]
  get_or-append_left (x ∷ xs) ys zero d h = refl
  get_or-append_left (x ∷ xs) ys (suc i) d h = get_or-append_left xs ys i d (omega arith)

  pub get_or-append_right :
      (xs ys : List A) (i : ℕ) (d : A) → get_or (xs ++ ys) (length xs + i) d ≡ get_or ys i d
  get_or-append_right [] ys i d = rw add.zero
  get_or-append_right (x ∷ xs) ys i d = rw add.suc (get_or-append_right xs ys i d)

module _ {ℓ κ} {A : Type ℓ} {B : Type κ} (f : A → B) where
  pub length-map : (xs : List A) → length (map f xs) ≡ length xs
  length-map [] = refl
  length-map (x ∷ xs) = ap suc (length-map xs)

  pub map-set : (xs : List A) (i : ℕ) (x : A) → map f (set xs i x) ≡ set (map f xs) i (f x)
  map-set [] i x = refl
  map-set (y ∷ xs) zero x = refl
  map-set (y ∷ xs) (suc i) x = ap (◌∷◌ (f y)) (map-set xs i x)

  -- Replacing an element by one of the same image changes no image.
  pub map-set_same :
      (xs : List A) (i : ℕ) (x y : A)
      → get_elem? xs i ≡ some x
      → f y ≡ f x
      → map f (set xs i y) ≡ map f xs
  map-set_same [] i x y e h = refl
  map-set_same (z ∷ xs) zero x y e h = ap (λ b. b ∷ map f xs) (ground (arith, e, h))
  map-set_same (z ∷ xs) (suc i) x y e h = ap (◌∷◌ (f z)) (map-set_same xs i x y e h)

  pub map_ext : (g : A → B) (xs : List A) → All (λ x. f x ≡ g x) xs → map f xs ≡ map g xs
  map_ext g [] h = refl
  map_ext g (x ∷ xs) h = ap₂ ◌∷◌ h.0 (map_ext g xs h.1)

-- The sizes of lists.
pub ruleset sizes =
    (arith, length-append, length-map, length-set, length-splice, length-replicate, length-take)
