-- ===== src/Governance/Content.antt =====
-- apps/api/app/governance/service.py: `_validate_content`.
use hawk_fund_investment_int.Prelude.{
  ℕ, Bool, not, ◌&&◌, ◌||◌, List, [], ◌∷◌, ok, ◌>>◌, raise_if, strip, is_empty, length, contains,
  ◌==◌,
}
use hawk_fund_investment_int.Number.{Decimal, nil_amount, unit_amount, ◌≺◌, ◌≼◌, ◌≈◌}
use hawk_fund_investment_int.Governance.Types.{
  ProposalAction, buy, sell, exit, hold, ProposalLineInput, ProposalVersionInput, title_required,
  bad_input_hash, naive_cutoff, no_lines, repeated_instrument, bad_weights, bad_direction, invalid,
  Raises,
}

-- `len({item.instrument_id for item in content.lines}) != len(content.lines)`
abbrev pub instruments_repeat : {D : Type 0} → List ℕ → List (ProposalLineInput D) → Bool
instruments_repeat seen [] = Bool.false
instruments_repeat seen (l ∷ ls) =
    contains seen l.instrument_id || instruments_repeat (l.instrument_id ∷ seen) ls

module _ {D : Type 0} ⦃d : Decimal D⦄ where
  abbrev pub in_unit : D → Bool
  in_unit x = nil_amount ≼ x && x ≼ unit_amount

  unfoldable pub valid_direction : ProposalAction → D → D → Bool
  valid_direction buy current proposed = current ≺ proposed
  valid_direction sell current proposed = nil_amount ≺ proposed && proposed ≺ current
  valid_direction exit current proposed = nil_amount ≺ current && proposed ≈ nil_amount
  valid_direction hold current proposed = proposed ≈ current

  unfoldable pub validate_line : ProposalLineInput D → Raises (Unit {0})
  unfolding valid_direction
  validate_line l = do
    raise_if
        (not (
          in_unit l.current_weight
          && in_unit l.proposed_weight
          && nil_amount ≼ l.estimated_notional))
        (invalid bad_weights)
    raise_if
        (not (valid_direction l.action l.current_weight l.proposed_weight)
          || is_empty (strip l.rationale))
        (invalid bad_direction)

  unfoldable pub validate_lines : List (ProposalLineInput D) → Raises (Unit {0})
  validate_lines [] = ok tt
  validate_lines (l ∷ ls) = let rest = validate_lines ls in validate_line l >> rest

  unfoldable pub validate_content : ProposalVersionInput D → Raises (Unit {0})
  unfolding validate_lines validate_line
  validate_content c = do
    raise_if (is_empty (strip c.title) || is_empty (strip c.thesis)) (invalid title_required)
    raise_if (not (length c.portfolio_input_hash == 64)) (invalid bad_input_hash)
    raise_if (not c.portfolio_as_of.aware) (invalid naive_cutoff)
    raise_if (is_empty c.lines) (invalid no_lines)
    raise_if (instruments_repeat [] c.lines) (invalid repeated_instrument)
    validate_lines c.lines
