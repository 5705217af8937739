-- ===== src/Rtos/Ssl/Contexts.antt =====
-- `ssl_init` and `ssl_destroy` of RTOS/futronix-alexa-rtos/ssl_connection.c: the contexts of the
-- mbedtls library that make up an SSLConnection.
use futronix_alexa.Base.{
  ℕ, ◌≡◌, refl, Bool, true, false, Option, some, none, List, [], ◌∷◌, ◌++◌, ◌>>=◌, Option-cases,
  inl, inr, get_or, set, replicate, if◌then◌else◌,
}

-- The contexts of an SSLConnection.
pub data Context : Type 0 where
  net_ctx ssl_ctx ssl_conf drbg_ctx entropy_ctx ca_cert client_cert client_key : Context

-- mbedtls_..._init and mbedtls_..._free of a context.
pub data ContextCall : Type 0 where
  init : Context → ContextCall
  free : Context → ContextCall

-- ssl_init
abbrev pub init_contexts : List ContextCall
init_contexts =
    init net_ctx
    ∷ init ssl_ctx
    ∷ init ssl_conf
    ∷ init ca_cert
    ∷ init client_cert
    ∷ init client_key
    ∷ init drbg_ctx
    ∷ init entropy_ctx
    ∷ []

-- ssl_destroy
abbrev pub destroy_contexts : List ContextCall
destroy_contexts =
    free net_ctx
    ∷ free ssl_ctx
    ∷ free ssl_conf
    ∷ free drbg_ctx
    ∷ free entropy_ctx
    ∷ free ca_cert
    ∷ free client_cert
    ∷ free client_key
    ∷ []

-- Which contexts are in use: by their place in the structure.
abbrev place : Context → ℕ
place net_ctx = 0
place ssl_ctx = 1
place ssl_conf = 2
place drbg_ctx = 3
place entropy_ctx = 4
place ca_cert = 5
place client_cert = 6
place client_key = 7

abbrev pub InUse : Type 0
InUse = List Bool

-- A context is initialised only while it is not in use, and freed only while it is.
unfoldable pub call : ContextCall → InUse → Option InUse
call (init x) u = if get_or u (place x) true then none else some (set u (place x) true)
call (free x) u = if get_or u (place x) false then some (set u (place x) false) else none

unfoldable pub call_all : List ContextCall → InUse → Option InUse
call_all [] u = some u
call_all (x ∷ more) u = call x u >>= λ u'. call_all more u'

pub call_all-append :
    (xs ys : List ContextCall) (u : InUse)
    → call_all (xs ++ ys) u ≡ (call_all xs u >>= λ u'. call_all ys u')
unfolding call_all
call_all-append [] ys u = refl
call_all-append (x ∷ xs) ys u = elim (Option-cases (call x u)) [
  | inl e ↦ rw e
  | inr (u', e) ↦ rw e (call_all-append xs ys u')
]

-- All are in use, or none is.
abbrev pub all_or_none : Bool → InUse
all_or_none b = replicate 8 b
