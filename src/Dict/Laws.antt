-- ===== src/Dict/Laws.antt =====
-- What a predicate on values keeps under the operations, and what a lookup reads back.
use hawk_fund_investment_int.Prelude.{ℕ, ◌≡◌, refl, Bool, some, [], ◌∷◌, arith, ◌==◌, if◌then◌else◌}
use hawk_fund_investment_int.Dict.Defs.{Dict, lookup, insert, set_default}

-- Every value of the dict meets a predicate.
abbrev pub Values {ℓ κ μ} : {K : Type ℓ} {V : Type κ} → (V → Type μ) → Dict K V → Type μ
Values P [] = Unit
Values P ((_, v) ∷ d) = P v × Values P d

module _ {ℓ κ μ} {K : Type ℓ} {V : Type κ} (same : K → K → Bool) (P : V → Type μ) where
  pub Values-insert :
      (k : K) (v : V) (d : Dict K V) → P v → Values P d → Values P (insert same k v d)
  Values-insert k v [] p h = (p, tt)
  Values-insert k v ((j, w) ∷ d) p h = ground (arith, Values-insert k v d p h.1)

  pub Values-set_default :
      (k : K) (v : V) (d : Dict K V) → P v → Values P d → Values P (set_default same k v d)
  Values-set_default k v d p h = grind (arith, Values-insert k v d p h)

  pub Values-lookup : (k : K) (v : V) (d : Dict K V) → Values P d → lookup same k d ≡ some v → P v
  Values-lookup k v [] h e = cc
  Values-lookup k v ((j, w) ∷ d) h e = ground (arith, Values-lookup k v d h.1)

module _ {κ} {V : Type κ} where
  pub lookup-insert :
      (j k : ℕ) (v : V) (d : Dict ℕ V)
      → lookup ◌==◌ j (insert ◌==◌ k v d) ≡ (if k == j then some v else lookup ◌==◌ j d)
  lookup-insert j k v [] = refl
  lookup-insert j k v ((i, w) ∷ d) = ground (arith, lookup-insert j k v d)
