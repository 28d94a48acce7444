-- ===== src/Dict/Defs.antt =====
-- The operations of a dict.
use hawk_fund_investment_int.Prelude.{Bool, Option, none, some, List, [], ◌∷◌, if◌then◌else◌}

abbrev pub Dict {ℓ κ} : Type ℓ → Type κ → Type (ℓ ⊔ κ)
Dict K V = List (K × V)

module _ {ℓ κ} {K : Type ℓ} {V : Type κ} (same : K → K → Bool) where
  -- `d.get(k)`
  abbrev pub lookup : K → Dict K V → Option V
  lookup k [] = none
  lookup k ((j, v) ∷ d) = let rest = lookup k d in if same j k then some v else rest

  -- `d.get(k, default)`
  abbrev pub get_or : K → V → Dict K V → V
  get_or k default d = elim (lookup k d) [ none ↦ default | some v ↦ v ]

  -- `d[k] = v`
  abbrev pub insert : K → V → Dict K V → Dict K V
  insert k v [] = (k, v) ∷ []
  insert k v ((j, w) ∷ d) =
      let rest = insert k v d in if same j k then (j, v) ∷ d else (j, w) ∷ rest

  -- `d.setdefault(k, v)`
  abbrev pub set_default : K → V → Dict K V → Dict K V
  set_default k v d = elim (lookup k d) [ none ↦ insert k v d | some _ ↦ d ]
