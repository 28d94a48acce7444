-- ===== src/Prelude/Results.antt =====
-- The outcome of a call that may raise: a value or an exception of the component's own type.
use mathlib.Core.Path.{◌≡◌, refl, ap, sym, subst}
use hawk_fund_investment_int.Prelude.Booleans.{if◌then◌else◌}
use mathlib.Core.Bool.{Bool, true, false}
use mathlib.Core.Option.{Option, none, some}

pub data Outcome {ℓ κ} (E : Type κ) (A : Type ℓ) : Type (ℓ ⊔ κ) where
  ok : A → Outcome E A
  raised : E → Outcome E A

module _ {κ} {E : Type κ} where
  infixl 5 ◌>>=◌ ◌>>◌
  abbrev pub ◌>>=◌ {ℓ μ} : {A : Type ℓ} {B : Type μ} → Outcome E A → (A → Outcome E B) → Outcome E B
  ok a >>= f = f a
  raised e >>= f = raised e

  abbrev pub ◌>>◌ {ℓ μ} : {A : Type ℓ} {B : Type μ} → Outcome E A → Outcome E B → Outcome E B
  m >> k = m >>= λ _. k

  -- `if test: raise error`
  abbrev pub raise_if : Bool → E → Outcome E (Unit {0})
  raise_if true e = raised e
  raise_if false e = ok tt

  -- `if value is None: raise error`, else the value
  abbrev pub require {ℓ} : {A : Type ℓ} → Option A → E → Outcome E A
  require none e = raised e
  require (some a) e = ok a

  -- A chain has succeeded: so has its first call, and the rest from its value.
  pub >>=-eq-ok {ℓ μ} :
      {A : Type ℓ} {B : Type μ} (call : Outcome E A) (rest : A → Outcome E B) {last : B}
      → (call >>= rest) ≡ ok last
      → (first : A) × (call ≡ ok first) × (rest first ≡ ok last)
  >>=-eq-ok (ok first) rest went = (first, refl, went)
  >>=-eq-ok (raised e) rest went = cc

  pub ok-injective {ℓ} : {A : Type ℓ} {a b : A} → ◌≡◌ {A = Outcome E A} (ok a) (ok b) → a ≡ b
  ok-injective h = cc

  -- A successful chain, one call at a time.
  pub after_ok {ℓ μ ν} :
      {A : Type ℓ} {B : Type μ} {C : Type ν} (m : Outcome E A) (f : A → Outcome E B) {b : B}
      → (m >>= f) ≡ ok b
      → ((a : A) → m ≡ ok a → f a ≡ ok b → C)
      → C
  after_ok (ok a) f h k = k a refl h
  after_ok (raised e) f h k = cc

  pub raise_if-eq-ok : (b : Bool) (e : E) {u : Unit {0}} → raise_if b e ≡ ok u → b ≡ false
  raise_if-eq-ok true e h = cc
  raise_if-eq-ok false e h = refl

  pub require-some {ℓ} :
      {A : Type ℓ} (o : Option A) (e : E) {a : A} → require o e ≡ ok a → o ≡ some a
  require-some none e h = cc
  require-some (some b) e h = ap some (ok-injective h)

  -- A call has not raised.
  abbrev pub Succeeds {ℓ} : {A : Type ℓ} → Outcome E A → Type (ℓ ⊔ κ)
  Succeeds {A} call = (a : A) × (call ≡ ok a)

  pub >>=-Succeeds {ℓ μ} :
      {A : Type ℓ} {B : Type μ} (call : Outcome E A) (rest : A → Outcome E B) {a : A}
      → call ≡ ok a
      → Succeeds (rest a)
      → Succeeds (call >>= rest)
  >>=-Succeeds call rest e h = subst (λ m. Succeeds (m >>= rest)) (sym e) h

  pub if-Succeeds {ℓ} :
      {A : Type ℓ} (test : Bool) (early late : Outcome E A)
      → Succeeds early
      → Succeeds late
      → Succeeds (if test then early else late)
  if-Succeeds true early late h k = h
  if-Succeeds false early late h k = k

  abbrev pub is_ok {ℓ} : {A : Type ℓ} → Outcome E A → Bool
  is_ok (ok _) = true
  is_ok (raised _) = false

  pub is_ok-false {ℓ} :
      {A : Type ℓ} (call : Outcome E A) → ((a : A) → call ≡ ok a → ⊥) → is_ok call ≡ false
  is_ok-false (ok a) never = elim (never a refl) [ ]
  is_ok-false (raised e) never = refl
