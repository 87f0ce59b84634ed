-- ===== src/Prelude/Results.antt =====
-- Python code that may raise: a value, or the exception's class.
use mathlib.Core.Path.{◌≡◌, refl}
use mathlib.Core.List.{List}
use mathlib.Core.Option.{Option, none, some}
use Prim.Native.Nat.{ℕ}
use home_ailab.Prelude.Lists.{get_elem?, set}

pub data Error : Type 0 where
  index_error key_error value_error type_error attribute_error os_error : Error

pub data Result {ℓ} (A : Type ℓ) : Type ℓ where
  ok : A → Result A
  raise : Error → Result A

infixl 5 ◌>>=◌
abbrev pub ◌>>=◌ {ℓ κ} : {V : Type ℓ} {W : Type κ} → Result V → (V → Result W) → Result W
raise e >>= rest = raise e
ok v >>= rest = rest v

module _ {ℓ} {A : Type ℓ} where
  abbrev pub from_option : Error → Option A → Result A
  from_option e none = raise e
  from_option e (some a) = ok a

  -- the call raises nothing, and its result satisfies `P`
  abbrev pub Returns : (A → Type 0) → Result A → Type 0
  Returns P (ok a) = P a
  Returns P (raise e) = ⊥

  pub Returns-ok : (P : A → Type 0) {m : Result A} (a : A) → m ≡ ok a → P a → Returns P m
  Returns-ok P a e h = rw e h

  pub Returns-value : (P : A → Type 0) (m : Result A) → Returns P m → (a : A) × (m ≡ ok a) × P a
  Returns-value P (ok a) h = (a, refl, h)
  Returns-value P (raise e) h = absurd h

  pub Returns-and :
      (P Q : A → Type 0) (m : Result A) → Returns P m → Returns Q m → Returns (λ a. P a × Q a) m
  Returns-and P Q (ok a) h k = (h, k)
  Returns-and P Q (raise e) h k = h

  pub Returns-weaken :
      (P Q : A → Type 0) (m : Result A) → ((a : A) → P a → Q a) → Returns P m → Returns Q m
  Returns-weaken P Q (ok a) f h = f a h
  Returns-weaken P Q (raise e) f h = h

  -- `xs[i]` for `i` at least 0
  abbrev pub index : List A → ℕ → Result A
  index xs i = from_option Error.index_error (get_elem? xs i)

  -- `xs[i] = v` for `i` at least 0
  abbrev pub store : List A → ℕ → A → Result (List A)
  store xs i v = elim (get_elem? xs i) [ none ↦ raise Error.index_error | some _ ↦ ok (set xs i v) ]

module _ {ℓ} {A : Type ℓ} where
  pub store-set :
      (xs : List A) (i : ℕ) (v : A) {a : A}
      → get_elem? xs i ≡ some a
      → store xs i v ≡ ok (set xs i v)
  store-set xs i v e = rw (e, store)

pub Returns-bind {ℓ κ} :
    {A : Type ℓ} {B : Type κ} (P : A → Type 0) (Q : B → Type 0) (m : Result A) (f : A → Result B)
    → Returns P m
    → ((a : A) → P a → Returns Q (f a))
    → Returns Q (m >>= f)
Returns-bind P Q (ok a) f h k = k a h
Returns-bind P Q (raise e) f h k = h
