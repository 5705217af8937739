-- ===== src/Rtos/Json.antt =====
-- `jsoneq` of RTOS/futronix-alexa-rtos/aws_iot.c: whether a token of a text is a given string. Its
-- calls are commented out for now.
use futronix_alexa.Base.{
  ℕ, zero, suc, ◌-◌, ◌≡◌, ◌≤◌, ◌↔◌, refl, Bool, true, false, ◌&&◌, List, [], ◌∷◌, length, take,
  drop, ◌==◌, if◌then◌else◌, ℤ, pos, negsuc, arith, HasNoZero, length-drop, length-take,
}

-- The types of a token of the jsmn library.
pub data TokenType : Type 0 where
  primitive object array string : TokenType

-- jsmntok_t, as far as it is read here.
pub record Token : Type 0 where
  pub kind : TokenType
  pub start : ℕ
  pub end : ℕ

abbrev is_string : TokenType → Bool
is_string TokenType.string = true
is_string TokenType.primitive = false
is_string TokenType.object = false
is_string TokenType.array = false

-- strncmp(a, b, n) == 0
unfoldable pub same_front : ℕ → List ℕ → List ℕ → Bool
same_front zero a b = true
same_front (suc n) [] [] = true
same_front (suc n) [] (y ∷ b) = y == 0
same_front (suc n) (x ∷ a) [] = x == 0
same_front (suc n) (x ∷ a) (y ∷ b) = (x == y) && (if x == 0 then true else same_front n a b)

-- jsoneq: 0 or -1. `json` and `s` are the characters of C strings.
unfoldable pub json_eq : List ℕ → Token → List ℕ → ℤ
json_eq json tok s =
    if is_string tok.kind
      && ((length s == tok.end - tok.start)
          && same_front (tok.end - tok.start) (drop tok.start json) s)
    then pos 0
    else negsuc 0

-- The characters of a token.
abbrev pub token_text : List ℕ → Token → List ℕ
token_text json tok = take (tok.end - tok.start) (drop tok.start json)

same_front_lem :
    (n : ℕ) (a s : List ℕ)
    → HasNoZero s
    → length s ≡ n
    → n ≤ length a
    → (same_front n a s ≡ true) ↔ (take n a ≡ s)
unfolding same_front
same_front_lem zero a [] h e k = (λ _. refl, λ _. refl)
same_front_lem zero a (y ∷ s) h e k = absurd (omega arith)
same_front_lem (suc n) [] s h e k = absurd (omega arith)
same_front_lem (suc n) (x ∷ a) [] h e k = absurd (omega arith)
same_front_lem (suc n) (x ∷ a) (y ∷ s) h e k =
    let rest = same_front_lem n a s h.1 (omega arith) (omega arith) in
    let clean = h.0 in (λ p. ground (arith, rest.0, p), λ p. ground (arith, rest.1, p))

-- For a token that lies inside the text, `jsoneq` gives 0 exactly if the token is a string and its
-- characters are those of `s`, and -1 otherwise.
pub json_eq_lem :
    (json : List ℕ) (tok : Token) (s : List ℕ)
    → HasNoZero s
    → tok.start ≤ tok.end
    → tok.end ≤ length json
    → (json_eq json tok s ≡ pos 0) ↔ ((tok.kind ≡ TokenType.string) × (token_text json tok ≡ s))
unfolding json_eq
json_eq_lem json tok s h k l = ground (
  arith,
  same_front_lem (tok.end - tok.start) (drop tok.start json) s h,
  length-drop tok.start json,
  length-take (tok.end - tok.start) (drop tok.start json),
)
