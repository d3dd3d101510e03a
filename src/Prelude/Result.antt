-- ===== src/Prelude/Result.antt =====
-- Go's ways to leave a function: a value with a nil error, an error, or a panic.
use Prim.Native.String.{String, ◌++◌ as ◌<>◌}
use mathlib.Core.Path.{◌≡◌, refl}
use mathlib.Core.Logic.{◌≢◌}
use native.Mathlib.Omega.{arith}
use mathlib.Core.Bool.{Bool, false}
use mathlib.Core.Option.{Option, none, some}

-- An `error`, by its text and by whether the API server's "not found" is its cause.
pub record Error : Type 0 where
  pub message : String
  pub not_found : Bool

-- `fmt.Errorf`: a text alone.
abbrev pub errorf : String → Error
errorf s = record { message = s; not_found = false }

-- `errors.Wrap`: a text in front, and the cause kept.
abbrev pub wrap : String → Error → Error
wrap s e = record e { message = s <> ": " <> e.message }

pub data Result {ℓ} (A : Type ℓ) : Type ℓ where
  ok : A → Result A
  panic : Error → Result A
  err : Error → Result A

module _ {ℓ κ} {From : Type ℓ} {To : Type κ} where
  -- The next part of a function runs where the part before has a nil error.
  infixl 5 ◌>>=◌
  abbrev pub ◌>>=◌ : Result From → (From → Result To) → Result To
  panic failure >>= next = panic failure
  err failure >>= next = err failure
  ok value >>= next = next value

-- `runtime.Must`: an error becomes a panic.
abbrev pub must {ℓ} : {A : Type ℓ} → Result A → Result A
must (ok a) = ok a
must (err e) = panic e
must (panic e) = panic e

-- The dereference of a pointer, which panics if it is nil.
abbrev pub non_nil {ℓ} : {A : Type ℓ} → Option A → Result A
non_nil none = panic (errorf "invalid memory address or nil pointer dereference")
non_nil (some a) = ok a

-- `if err != nil { return fmt.Errorf("…: %v", err) }`
abbrev pub with_prefix {ℓ} : {A : Type ℓ} → String → Result A → Result A
with_prefix s (ok a) = ok a
with_prefix s (err e) = err (errorf (s <> ": " <> e.message))
with_prefix s (panic e) = panic e

pub ok-injective {ℓ} : {A : Type ℓ} {a b : A} → ok a ≡ ok b → a ≡ b
ok-injective h = ground arith

-- Where a function ends well, so did its first part.
pub >>=-eq-ok {ℓ κ} :
    {From : Type ℓ} {To : Type κ} (first : Result From) (next : From → Result To) {y : To}
    → (first >>= next) ≡ ok y
    → (x : From) × (first ≡ ok x) × (next x ≡ ok y)
>>=-eq-ok (panic failure) next h = cc
>>=-eq-ok (err failure) next h = cc
>>=-eq-ok (ok value) next h = (value, refl, h)

-- A step that cannot fail moves into the action before it.
pub >>=-map {ℓ κ μ} :
    {A : Type ℓ} {B : Type κ} {C : Type μ} (m : Result A) (h : A → B) (f : B → Result C)
    → (m >>= λ a. f (h a)) ≡ ((m >>= λ a. ok (h a)) >>= f)
>>=-map (ok a) h f = refl
>>=-map (err e) h f = refl
>>=-map (panic e) h f = refl

-- An action that does not fail, and then a value.
pub >>=-ne-err {ℓ κ} :
    {A : Type ℓ} {B : Type κ} (m : Result A) (h : A → B) {e : Error}
    → ((d : Error) → m ≢ err d)
    → (m >>= λ a. ok (h a)) ≢ err e
>>=-ne-err (ok a) h no_err p = cc
>>=-ne-err (err d) h no_err p = absurd (no_err d refl)
>>=-ne-err (panic d) h no_err p = cc
