-- ===== src/Base/Memory.antt =====
-- C memory: a block is the list of its bytes, a string is what stands before the first zero byte.
-- Bytes are only moved and compared, so a byte is any number. `none` is undefined behaviour: a read
-- or a write outside its block.
use Prim.Native.Nat.{ℕ, zero, suc, ◌+◌, ◌≤◌, ◌<◌, min}
use Prim.Native.Char.{code}
use Prim.Native.String.{String}
use mathlib.Core.Path.{◌≡◌, refl, ap, ◌∙◌}
use mathlib.Core.Logic.{◌≢◌}
use mathlib.Core.Bool.{Bool, true, false, ◌&&◌}
use mathlib.Core.List.{List, [], ◌∷◌, ◌++◌}
use mathlib.Core.Option.{Option, none, some}
use native.Mathlib.Omega.{arith}
use futronix_alexa.Base.Lists.{length, set, take, drop, splice}
use futronix_alexa.Base.Tests.{leb, ltb, ◌==◌, if◌then◌else◌, le→leb, lt→ltb}

infixl 5 ◌>>=◌
abbrev pub ◌>>=◌ {ℓ κ} : {A : Type ℓ} {B : Type κ} → Option A → (A → Option B) → Option B
none >>= f = none
some a >>= f = f a

-- buf[i] = v
abbrev pub store : List ℕ → ℕ → ℕ → Option (List ℕ)
store buf i v = if ltb i (length buf) then some (set buf i v) else none

-- Whether a block holds a string with its terminator.
abbrev pub has_zero : List ℕ → Bool
has_zero [] = false
has_zero (zero ∷ m) = true
has_zero (suc b ∷ m) = has_zero m

-- The bytes before the first zero. A text that is handed over as a string may leave its terminator
-- out; where the program reads a string in an array of its own, `has_zero` is tested first.
abbrev pub c_str : List ℕ → List ℕ
c_str [] = []
c_str (zero ∷ m) = []
c_str (suc b ∷ m) = suc b ∷ c_str m

abbrev pub strlen : List ℕ → ℕ
strlen m = length (c_str m)

-- Whether two texts are the same bytes.
abbrev pub same_bytes : List ℕ → List ℕ → Bool
same_bytes [] [] = true
same_bytes [] (b ∷ t) = false
same_bytes (a ∷ s) [] = false
same_bytes (a ∷ s) (b ∷ t) = (a == b) && same_bytes s t

-- strcmp(s, t) == 0
abbrev pub strcmp_eq : List ℕ → List ℕ → Bool
strcmp_eq s t = same_bytes (c_str s) (c_str t)

-- memcpy(dst + off, src, n)
abbrev pub memcpy : List ℕ → ℕ → List ℕ → ℕ → Option (List ℕ)
memcpy dst off src n =
    if leb (off + n) (length dst) && leb n (length src)
    then some (splice dst off (take n src))
    else none

-- A `char*`: NULL, one that was never set, or the start of a block.
pub data Pointer : Type 0 where
  null : Pointer
  wild : Pointer
  block : List ℕ → Pointer

-- Only the start of a block may be read through.
abbrev pub deref : Pointer → Option (List ℕ)
deref null = none
deref wild = none
deref (block m) = some m

-- The code points of a text: its bytes, if it is ASCII.
abbrev pub codes : String → List ℕ
codes String.[] = []
codes (String.◌∷◌ c s) = code c ∷ codes s

-- The block of a string literal.
abbrev pub literal : String → List ℕ
literal s = codes s ++ 0 ∷ []

-- No zero byte among the bytes.
abbrev pub HasNoZero : List ℕ → Type 0
HasNoZero [] = Unit
HasNoZero (b ∷ s) = (b ≢ 0) × HasNoZero s

pub store-some : (buf : List ℕ) (i v : ℕ) → i < length buf → store buf i v ≡ some (set buf i v)
store-some buf i v h = rw (lt→ltb i (length buf) h)

pub memcpy-some :
    (dst : List ℕ) (off : ℕ) (src : List ℕ) (n : ℕ)
    → off + n ≤ length dst
    → n ≤ length src
    → memcpy dst off src n ≡ some (splice dst off (take n src))
memcpy-some dst off src n h k = rw (le→leb _ _ h, le→leb _ _ k)

pub c_str-HasNoZero : (m : List ℕ) → HasNoZero (c_str m)
c_str-HasNoZero [] = tt
c_str-HasNoZero (zero ∷ m) = tt
c_str-HasNoZero (suc b ∷ m) = (omega arith, c_str-HasNoZero m)

pub has_zero-append_left : (s t : List ℕ) → has_zero s ≡ true → has_zero (s ++ t) ≡ true
has_zero-append_left [] t h = cc
has_zero-append_left (zero ∷ s) t h = refl
has_zero-append_left (suc b ∷ s) t h = has_zero-append_left s t h

pub has_zero-append_right : (s t : List ℕ) → has_zero t ≡ true → has_zero (s ++ t) ≡ true
has_zero-append_right [] t h = h
has_zero-append_right (zero ∷ s) t h = refl
has_zero-append_right (suc b ∷ s) t h = has_zero-append_right s t h

pub has_zero-append_none : (s t : List ℕ) → has_zero s ≡ false → has_zero (s ++ t) ≡ has_zero t
has_zero-append_none [] t h = refl
has_zero-append_none (zero ∷ s) t h = cc
has_zero-append_none (suc b ∷ s) t h = has_zero-append_none s t h

-- A zero that stands further behind.
pub has_zero-drop :
    (i j : ℕ) (s : List ℕ) → i ≤ j → has_zero (drop j s) ≡ true → has_zero (drop i s) ≡ true
has_zero-drop zero zero s h z = z
has_zero-drop zero (suc j) [] h z = z
has_zero-drop zero (suc j) (zero ∷ s) h z = refl
has_zero-drop zero (suc j) (suc b ∷ s) h z = has_zero-drop zero j s (omega arith) z
has_zero-drop (suc i) zero s h z = absurd (omega arith)
has_zero-drop (suc i) (suc j) [] h z = z
has_zero-drop (suc i) (suc j) (b ∷ s) h z = has_zero-drop i j s (omega arith) z

pub take-HasNoZero : (n : ℕ) (s : List ℕ) → HasNoZero s → HasNoZero (take n s)
take-HasNoZero zero s h = tt
take-HasNoZero (suc n) [] h = tt
take-HasNoZero (suc n) (b ∷ s) h = (h.0, take-HasNoZero n s h.1)

pub strlen-le : (m : List ℕ) → strlen m ≤ length m
strlen-le [] = omega arith
strlen-le (zero ∷ m) = omega arith
strlen-le (suc b ∷ m) = omega (arith, strlen-le m)

-- A text without zeros, put in front of a zero, is read back as it is.
pub c_str-append_zero : (s m : List ℕ) → HasNoZero s → c_str (s ++ 0 ∷ m) ≡ s
c_str-append_zero [] m h = refl
c_str-append_zero (zero ∷ s) m h = absurd (h.0 refl)
c_str-append_zero (suc b ∷ s) m h = ap (◌∷◌ (suc b)) (c_str-append_zero s m h.1)

-- A text without zeros is its own string.
pub c_str_self : (s : List ℕ) → HasNoZero s → c_str s ≡ s
c_str_self [] h = refl
c_str_self (zero ∷ s) h = absurd (h.0 refl)
c_str_self (suc b ∷ s) h = ap (◌∷◌ (suc b)) (c_str_self s h.1)

-- Reading at most `n` bytes of a string does not depend on what stands behind the first `n`.
pub take-c_str_extends :
    (n : ℕ) (m rest : List ℕ) → n ≤ length m → take n (c_str (m ++ rest)) ≡ take n (c_str m)
take-c_str_extends zero m rest h = refl
take-c_str_extends (suc n) [] rest h = elim h [ ]
take-c_str_extends (suc n) (zero ∷ m) rest h = refl
take-c_str_extends (suc n) (suc b ∷ m) rest h =
    ap (◌∷◌ (suc b)) (take-c_str_extends n m rest (omega arith))

-- Copying the string's first bytes is copying the block's.
pub take-c_str : (n : ℕ) (m : List ℕ) → n ≤ strlen m → take n m ≡ take n (c_str m)
take-c_str zero m h = refl
take-c_str (suc n) [] h = refl
take-c_str (suc n) (zero ∷ m) h = absurd (omega arith)
take-c_str (suc n) (suc b ∷ m) h = ap (◌∷◌ (suc b)) (take-c_str n m (omega arith))

pub same_bytes_refl : (s : List ℕ) → same_bytes s s ≡ true
same_bytes_refl [] = refl
same_bytes_refl (a ∷ s) = ground (arith, same_bytes_refl s)

pub same_bytes_sound : (s t : List ℕ) → same_bytes s t ≡ true → s ≡ t
same_bytes_sound [] [] h = refl
same_bytes_sound [] (b ∷ t) h = cc
same_bytes_sound (a ∷ s) [] h = cc
same_bytes_sound (a ∷ s) (b ∷ t) h = ground (arith, same_bytes_sound s t)

take_at : (i j : ℕ) (s : List ℕ) → i ≡ j → take i s ≡ take j s
take_at i j s e = ap (λ n. take n s) e

pub take-min : (k : ℕ) (s : List ℕ) → take (min (length s) k) s ≡ take k s
take-min zero [] = refl
take-min (suc k) [] = take_at (min 0 (suc k)) 0 [] (omega arith)
take-min zero (a ∷ s) = take_at (min (suc (length s)) 0) 0 (a ∷ s) (omega arith)
take-min (suc k) (a ∷ s) =
    take_at (min (suc (length s)) (suc k)) (suc (min (length s) k)) (a ∷ s) (omega arith)
    ∙ ap (◌∷◌ a) (take-min k s)

-- Text copied to the front of a block, and a zero put behind it.
pub set-splice :
    (m s : List ℕ)
    → length s < length m
    → set (splice m 0 s) (length s) 0 ≡ s ++ 0 ∷ drop (suc (length s)) m
set-splice [] s h = absurd (omega arith)
set-splice (b ∷ m) [] h = refl
set-splice (b ∷ m) (a ∷ s) h = ap (◌∷◌ a) (set-splice m s (omega arith))
