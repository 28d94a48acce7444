-- ===== src/Governance/Grants.antt =====
-- The rows behind a role that `AuthorizationService.require` finds.
use mathlib.Core.Option.{some-injective}
use mathlib.Core.List.{Mem, mem-cons_self, mem-cons_of_mem}
use hawk_fund_investment_int.Prelude.{
  ℕ, ◌≡◌, refl, subst, Bool, true, Bool-cases, inl, inr, Option, none, some, List, [], ◌∷◌, All,
  All-append, arith, select, map, ◌==◌, ◌&&◌, Text,
}
use hawk_fund_investment_int.Governance.Types.{GovernanceRole, analyst, manager, advisor}
use hawk_fund_investment_int.Governance.Records.{Role, UserRole}
use hawk_fund_investment_int.Governance.Authorization.{
  role_of_code, known_roles, codes_of, first_role, least_role,
}

-- A grant of a role with this code to the user in the fund.
pub record IsCode (actor fund : ℕ) (roles : List Role) (grants : List UserRole) (code : Text)
    : Type 0 where
  pub grant : UserRole
  pub granted : Mem grant grants
  pub of_actor : grant.user_id ≡ actor
  pub of_fund : grant.fund_id ≡ fund
  pub role : Role
  pub known : Mem role roles
  pub joined : role.id ≡ grant.role_id
  pub named : role.code ≡ code

module _ (P : GovernanceRole → Type 0) where
  first_role-All : (r q : GovernanceRole) → P r → P q → P (first_role r q)
  first_role-All advisor q h k = h
  first_role-All analyst analyst h k = h
  first_role-All analyst manager h k = h
  first_role-All analyst advisor h k = k
  first_role-All manager analyst h k = k
  first_role-All manager manager h k = h
  first_role-All manager advisor h k = k

  least_step :
      (q : GovernanceRole) (o : Option GovernanceRole) {r : GovernanceRole}
      → P q
      → ((k : GovernanceRole) → o ≡ some k → P k)
      → (elim o [ none ↦ some q | some k ↦ some (first_role q k) ]) ≡ some r
      → P r
  least_step q none h k e = subst P (some-injective _ _ e) h
  least_step q (some p) h k e = subst P (some-injective _ _ e) (first_role-All q p h (k p refl))

  -- The least role is one of the roles.
  pub least_role-All :
      (rs : List GovernanceRole) {r : GovernanceRole} → All P rs → least_role rs ≡ some r → P r
  least_role-All [] h e = cc
  least_role-All (q ∷ qs) h e = least_step q (least_role qs) h.0 (λ k f. least_role-All qs h.1 f) e

module _ {A : Type 0} where
  pub select-All :
      (P : A → Type 0) (p : A → Bool) (xs : List A)
      → All P xs
      → All (λ x. P x × (p x ≡ true)) (select p xs)
  select-All P p [] h = tt
  select-All P p (x ∷ xs) h = elim (Bool-cases (p x)) [
    | inl e ↦ rw e ((h.0, e), select-All P p xs h.1)
    | inr e ↦ rw e (select-All P p xs h.1)
  ]

  -- Every element of a part of a list is in the list.
  pub All-Mem : (xs whole : List A) → ((x : A) → Mem x xs → Mem x whole) → All (λ x. Mem x whole) xs
  All-Mem [] whole h = tt
  All-Mem (x ∷ xs) whole h =
      (h x (mem-cons_self), All-Mem xs whole (λ y m. h y (mem-cons_of_mem _ m)))

add_role :
    (P : GovernanceRole → Type 0) (o : Option GovernanceRole) (rs : List GovernanceRole)
    → ((r : GovernanceRole) → o ≡ some r → P r)
    → All P rs
    → All P (elim o [ none ↦ rs | some r ↦ r ∷ rs ])
add_role P none rs h k = k
add_role P (some r) rs h k = (h r refl, k)

pub known_roles-All :
    (Q : Text → Type 0) (codes : List Text)
    → All Q codes
    → All (λ r. (code : Text) × Q code × (role_of_code code ≡ some r)) (known_roles codes)
known_roles-All Q [] h = tt
known_roles-All Q (code ∷ rest) h =
    add_role (λ r. (code : Text) × Q code × (role_of_code code ≡ some r)) (role_of_code code)
      (known_roles rest) (λ r e. (code, h.0, e)) (known_roles-All Q rest h.1)

module _ (actor fund : ℕ) (roles : List Role) (grants : List UserRole) where
  joined_codes :
      (u : UserRole) (rs : List Role)
      → Mem u grants
      → u.user_id ≡ actor
      → u.fund_id ≡ fund
      → All (λ r. Mem r roles × ((r.id == u.role_id) ≡ true)) rs
      → All (IsCode actor fund roles grants) (map (λ r. r.code) rs)
  joined_codes u [] m a f h = tt
  joined_codes u (r ∷ rs) m a f ((there, same), rest) = (
    record {
      grant = u;
      granted = m;
      of_actor = a;
      of_fund = f;
      role = r;
      known = there;
      joined = ground arith;
      named = refl;
    },
    joined_codes u rs m a f rest,
  )

  pub codes_of-All :
      (us : List UserRole)
      → All (λ u. Mem u grants) us
      → All (IsCode actor fund roles grants) (codes_of actor fund roles us)
  codes_of-All [] h = tt
  codes_of-All (u ∷ us) h = elim (Bool-cases ((u.user_id == actor) && (u.fund_id == fund))) [
    | inl e ↦ rw e (
        All-append (IsCode actor fund roles grants)
          (map (λ r. r.code) (select (λ r. r.id == u.role_id) roles)) (codes_of actor fund roles us)
          (joined_codes u (select (λ r. r.id == u.role_id) roles) h.0 (ground arith) (ground arith)
            (select-All (λ r. Mem r roles) (λ r. r.id == u.role_id) roles
              (All-Mem roles roles (λ x m. m))))
          (codes_of-All us h.1))
    | inr e ↦ rw e (codes_of-All us h.1)
  ]
