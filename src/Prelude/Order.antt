-- ===== src/Prelude/Order.antt =====
-- `sorted(items, key=...)`: a stable insertion sort by a strict order on keys, and the sorts of two
-- permutations of one list agree where the order is total on its elements.
use Prim.Native.Nat.{suc}
use mathlib.Core.Path.{◌≡◌, refl, sym, ◌∙◌, ap, subst, subst₂}
use mathlib.Core.Bool.{Bool, true, false, ◌||◌}
use mathlib.Core.Logic.{◌⊎◌, inl, inr}
use mathlib.Core.List.{List, [], ◌∷◌, ◌++◌, Permᴰ}
use mathlib.Core.List.Permᴰ
use native.Mathlib.Omega.{arith}
use hawk_fund_investment_int.Prelude.Booleans.{if◌then◌else◌, Bool-cases}
use hawk_fund_investment_int.Prelude.Lists.{All, All-append, select, any, length}

module _ {ℓ} {A : Type ℓ} (lt : A → A → Bool) where
  -- In front of the first element that is not smaller, so that equal keys keep their order.
  unfoldable pub insert_sorted : A → List A → List A
  insert_sorted x [] = x ∷ []
  insert_sorted x (y ∷ ys) =
      let rest = insert_sorted x ys in if lt y x then y ∷ rest else x ∷ y ∷ ys

  unfoldable pub sorted : List A → List A
  unfolding insert_sorted
  sorted [] = []
  sorted (x ∷ xs) = insert_sorted x (sorted xs)

module _ {ℓ} {A : Type ℓ} (lt : A → A → Bool) where
  length-insert_sorted : (x : A) (xs : List A) → length (insert_sorted lt x xs) ≡ suc (length xs)
  unfolding insert_sorted
  length-insert_sorted x [] = refl
  length-insert_sorted x (y ∷ ys) = ground (arith, length-insert_sorted x ys)

  pub length-sorted : (xs : List A) → length (sorted lt xs) ≡ length xs
  unfolding sorted
  length-sorted [] = refl
  length-sorted (x ∷ xs) = length-insert_sorted x (sorted lt xs) ∙ ap suc (length-sorted xs)

  pub any-insert_sorted :
      (p : A → Bool) (x : A) (xs : List A) → any p (insert_sorted lt x xs) ≡ (p x || any p xs)
  unfolding insert_sorted
  any-insert_sorted p x [] = refl
  any-insert_sorted p x (y ∷ ys) = ground (arith, any-insert_sorted p x ys)

  pub any-sorted : (p : A → Bool) (xs : List A) → any p (sorted lt xs) ≡ any p xs
  unfolding sorted
  any-sorted p [] = refl
  any-sorted p (x ∷ xs) =
      any-insert_sorted p x (sorted lt xs) ∙ ap (λ b. p x || b) (any-sorted p xs)

-- Every two elements stand in a relation, the earlier first.
abbrev pub Apart {ℓ κ} : {A : Type ℓ} → (A → A → Type κ) → List A → Type κ
Apart R [] = Unit
Apart R (x ∷ xs) = All (R x) xs × Apart R xs

module _ {ℓ κ} {A : Type ℓ} (P : A → Type κ) (lt : A → A → Bool) where
  All-insert_sorted : (x : A) (xs : List A) → P x → All P xs → All P (insert_sorted lt x xs)
  unfolding insert_sorted
  All-insert_sorted x [] p h = (p, tt)
  All-insert_sorted x (y ∷ ys) p h = ground (arith, All-insert_sorted x ys p h.1)

  pub All-sorted : (xs : List A) → All P xs → All P (sorted lt xs)
  unfolding sorted
  All-sorted [] h = tt
  All-sorted (x ∷ xs) h = All-insert_sorted x (sorted lt xs) h.0 (All-sorted xs h.1)

module _ {ℓ κ} {A : Type ℓ} (P : A → Type κ) (p : A → Bool) where
  pub All-select : (xs : List A) → All P xs → All P (select p xs)
  All-select [] h = tt
  All-select (x ∷ xs) h = ground (arith, All-select xs h.1)

module _ {ℓ κ} {A : Type ℓ} (R : A → A → Type κ) (p : A → Bool) where
  pub Apart-select : (xs : List A) → Apart R xs → Apart R (select p xs)
  Apart-select [] h = tt
  Apart-select (x ∷ xs) h = ground (arith, Apart-select xs h.1, All-select (R x) p xs h.0)

module _ {ℓ κ} {A : Type ℓ} (P : A → Type κ) where
  pub All-perm : {xs ys : List A} → Permᴰ xs ys → All P xs → All P ys
  All-perm Permᴰ.nil h = tt
  All-perm (Permᴰ.cons e p) h = (rw (← e) h.0, All-perm p h.1)
  All-perm (Permᴰ.swap e f) h = (rw (← f) h.1.0, (rw (← e) h.0, h.1.1))
  All-perm (Permᴰ.trans p q) h = All-perm q (All-perm p h)

pub any-perm {ℓ} : {A : Type ℓ} (p : A → Bool) {xs ys : List A} → Permᴰ xs ys → any p xs ≡ any p ys
any-perm p Permᴰ.nil = refl
any-perm p (Permᴰ.cons e h) = rw (e, any-perm p h) refl
any-perm p (Permᴰ.swap e f) = rw (e, f) (ground arith)
any-perm p (Permᴰ.trans h k) = any-perm p h ∙ any-perm p k

module _ {ℓ κ} {A : Type ℓ} (R : A → A → Type κ) (swap : (x y : A) → R x y → R y x) where
  pub Apart-perm : {xs ys : List A} → Permᴰ xs ys → Apart R xs → Apart R ys
  Apart-perm Permᴰ.nil h = tt
  Apart-perm (Permᴰ.cons {l₂ = ys} e p) h =
      (subst (λ x. All (R x) ys) e (All-perm (R _) p h.0), Apart-perm p h.1)
  Apart-perm (Permᴰ.swap {l} e f) h = (
    (subst₂ R f e (swap _ _ h.0.0), subst (λ x. All (R x) l) f h.1.0),
    (subst (λ x. All (R x) l) e h.0.1, h.1.1),
  )
  Apart-perm (Permᴰ.trans p q) h = Apart-perm q (Apart-perm p h)

module _ {ℓ κ} {A : Type ℓ} (R : A → A → Type κ) where
  pub append-Apart :
      (x : A) (xs : List A) → All (λ y. R y x) xs → Apart R xs → Apart R (xs ++ x ∷ [])
  append-Apart x [] h a = (tt, tt)
  append-Apart x (y ∷ ys) h a =
      (All-append (R y) ys (x ∷ []) a.0 (h.0, tt), append-Apart x ys h.1 a.1)

module _ {ℓ κ μ} {A : Type ℓ} (R : A → A → Type κ) (S : A → A → Type μ) where
  All-weaken : (x : A) (xs : List A) → ((y : A) → R x y → S x y) → All (R x) xs → All (S x) xs
  All-weaken x [] f h = tt
  All-weaken x (y ∷ ys) f h = (f y h.0, All-weaken x ys f h.1)

  pub Apart-weaken : (xs : List A) → ((x y : A) → R x y → S x y) → Apart R xs → Apart S xs
  Apart-weaken [] f h = tt
  Apart-weaken (x ∷ xs) f h = (All-weaken x xs (f x) h.0, Apart-weaken xs f h.1)

-- What a sort needs to leave no element in front of one that comes before it.
pub record IsOrder {ℓ} {A : Type ℓ} (lt : A → A → Bool) : Type ℓ where
  pub asymm : (x y : A) → lt x y ≡ true → lt y x ≡ false
  pub trans : (x y z : A) → lt y x ≡ false → lt z y ≡ false → lt z x ≡ false

module _ {ℓ} {A : Type ℓ} (lt : A → A → Bool) (order : IsOrder lt) where
  -- The first may stand before the second.
  abbrev pub Before : A → A → Type 0
  Before x y = lt y x ≡ false

  All-Before : (x y : A) (ys : List A) → lt y x ≡ false → All (Before y) ys → All (Before x) ys
  All-Before x y [] h a = tt
  All-Before x y (z ∷ zs) h a = (order.trans x y z h a.0, All-Before x y zs h a.1)

  insert_sorted-Apart :
      (x : A) (ys : List A) → Apart Before ys → Apart Before (insert_sorted lt x ys)
  unfolding insert_sorted
  insert_sorted-Apart x [] a = (tt, tt)
  insert_sorted-Apart x (y ∷ ys) a = elim (Bool-cases (lt y x)) [
    | inl e ↦
        rw e (
          All-insert_sorted (Before y) lt x ys (order.asymm y x e) a.0,
          insert_sorted-Apart x ys a.1,
        )
    | inr e ↦ rw e ((e, All-Before x y ys e a.0), a)
  ]

  -- In a sorted list no element comes before an earlier one.
  pub sorted-Apart : (xs : List A) → Apart Before (sorted lt xs)
  unfolding sorted
  sorted-Apart [] = tt
  sorted-Apart (x ∷ xs) = insert_sorted-Apart x (sorted lt xs) (sorted-Apart xs)

module _ {ℓ} {A : Type ℓ} (p : A → Bool) where
  select-perm_cons :
      (a b : A) {xs ys : List A} (s t : Bool)
      → a ≡ b
      → s ≡ t
      → Permᴰ xs ys
      → Permᴰ (if s then a ∷ xs else xs) (if t then b ∷ ys else ys)
  select-perm_cons a b true true e q h = Permᴰ.cons e h
  select-perm_cons a b true false e q h = cc
  select-perm_cons a b false true e q h = cc
  select-perm_cons a b false false e q h = h

  select-perm_swap :
      (a b a' b' : A) (xs : List A) (s t s' t' : Bool)
      → a ≡ b'
      → b ≡ a'
      → s ≡ t'
      → t ≡ s'
      → Permᴰ
          (if s then a ∷ (if t then b ∷ xs else xs) else (if t then b ∷ xs else xs))
          (if s' then a' ∷ (if t' then b' ∷ xs else xs) else (if t' then b' ∷ xs else xs))
  select-perm_swap a b a' b' xs true true true true e f q r = Permᴰ.swap e f
  select-perm_swap a b a' b' xs true false false true e f q r = Permᴰ.cons e (Permᴰ.refl xs)
  select-perm_swap a b a' b' xs false true true false e f q r = Permᴰ.cons f (Permᴰ.refl xs)
  select-perm_swap a b a' b' xs false false false false e f q r = Permᴰ.refl xs
  select-perm_swap a b a' b' xs true _ _ false e f q r = cc
  select-perm_swap a b a' b' xs false _ _ true e f q r = cc
  select-perm_swap a b a' b' xs _ true false _ e f q r = cc
  select-perm_swap a b a' b' xs _ false true _ e f q r = cc

  pub select-perm : {xs ys : List A} → Permᴰ xs ys → Permᴰ (select p xs) (select p ys)
  select-perm Permᴰ.nil = Permᴰ.nil
  select-perm (Permᴰ.cons {a} {b} e h) = select-perm_cons a b (p a) (p b) e (ap p e) (select-perm h)
  select-perm (Permᴰ.swap {a} {b} {a'} {b'} {l} e f) =
      select-perm_swap a b a' b' (select p l) (p a) (p b) (p a') (p b') e f (ap p e) (ap p f)
  select-perm (Permᴰ.trans h k) = Permᴰ.trans (select-perm h) (select-perm k)

-- The order that a sort needs to be the same on every permutation.
pub record IsStrict {ℓ} {A : Type ℓ} (lt : A → A → Bool) : Type ℓ where
  pub asymm : (x y : A) → lt x y ≡ true → lt y x ≡ false
  pub trans : (x y z : A) → lt x y ≡ true → lt y z ≡ true → lt x z ≡ true

module _ {ℓ} {A : Type ℓ} (lt : A → A → Bool) (strict : IsStrict lt) where
  insert_sorted_swap :
      (x y : A) (xs : List A)
      → lt x y ≡ true
      → insert_sorted lt x (insert_sorted lt y xs) ≡ insert_sorted lt y (insert_sorted lt x xs)
  unfolding insert_sorted
  insert_sorted_swap x y [] h = ground (arith, strict.asymm x y h)
  insert_sorted_swap x y (z ∷ zs) h =
      ground (arith, strict.asymm x y h, strict.trans z x y, insert_sorted_swap x y zs h)

  abbrev Ordered : A → A → Type 0
  Ordered x y = (lt x y ≡ true) ⊎ (lt y x ≡ true)

  Ordered-symm : (x y : A) → Ordered x y → Ordered y x
  Ordered-symm x y (inl h) = inr h
  Ordered-symm x y (inr h) = inl h

  insert_sorted_comm :
      (x y : A) (xs : List A)
      → Ordered x y
      → insert_sorted lt x (insert_sorted lt y xs) ≡ insert_sorted lt y (insert_sorted lt x xs)
  insert_sorted_comm x y xs (inl h) = insert_sorted_swap x y xs h
  insert_sorted_comm x y xs (inr h) = sym (insert_sorted_swap y x xs h)

  -- The sorts of two permutations agree where every two elements are ordered one way or the other.
  pub sorted-perm :
      {xs ys : List A}
      → Permᴰ xs ys
      → Apart (λ x y. (lt x y ≡ true) ⊎ (lt y x ≡ true)) xs
      → sorted lt xs ≡ sorted lt ys
  unfolding sorted
  sorted-perm Permᴰ.nil h = refl
  sorted-perm (Permᴰ.cons e p) h = rw (e, sorted-perm p h.1)
  sorted-perm (Permᴰ.swap {a} {b} {l = l} e f) h =
      rw (← e, ← f) (insert_sorted_comm a b (sorted lt l) h.0.0)
  sorted-perm (Permᴰ.trans p q) h =
      sorted-perm p h ∙ sorted-perm q (Apart-perm Ordered Ordered-symm p h)
