-- ===== src/Search/Filter.antt =====
-- components/searchservice/adapters_inmemory.py: `_passes` and `_apply_filter`. Python's comparisons
-- of values are a parameter; none is an exception, which counts as a condition that fails.
use lbpr.Prelude.{Bool, true, false, not, Option, none, some, List, [], ◌∷◌, if◌then◌else◌}
use lbpr.Dict
use lbpr.Dict.{Dict}
use lbpr.Value.{Value}
use lbpr.Search.Contracts.{
  Op, eq, ne, lt, lte, gt, gte, contains, is_in, nin, FilterCondition, Filter,
}

pub record Comparisons : Type 0 where
  pub equals : Value → Value → Bool
  pub less : Value → Value → Option Bool
  pub less_equal : Value → Value → Option Bool
  pub greater : Value → Value → Option Bool
  pub greater_equal : Value → Value → Option Bool
  -- `x in y`
  pub member : Value → Value → Option Bool

-- `md.get(field)`
abbrev pub or_null : Option Value → Value
or_null none = Value.null
or_null (some v) = v

abbrev pub or_false : Option Bool → Bool
or_false none = false
or_false (some b) = b

abbrev pub negation : Option Bool → Option Bool
negation none = none
negation (some b) = some (not b)

module _ (ops : Comparisons) where
  unfoldable pub test : Op → Value → Value → Bool
  test eq val value = ops.equals val value
  test ne val value = not (ops.equals val value)
  test lt val value = or_false (ops.less val value)
  test lte val value = or_false (ops.less_equal val value)
  test gt val value = or_false (ops.greater val value)
  test gte val value = or_false (ops.greater_equal val value)
  test contains val value = or_false (ops.member value val)
  test is_in val value = or_false (ops.member val value)
  test nin val value = or_false (negation (ops.member val value))

  unfoldable pub passes : FilterCondition → Dict Value → Bool
  unfolding test
  passes cond md = test cond.op (or_null (Dict.lookup cond.field md)) cond.value

  -- `any(_passes(c, md) for c in conds)` and its negation
  unfoldable pub any_passes : List FilterCondition → Dict Value → Bool
  unfolding passes
  any_passes [] md = false
  any_passes (c ∷ conds) md =
      let rest : Bool = any_passes conds md in if passes c md then true else rest

  unfoldable pub any_fails : List FilterCondition → Dict Value → Bool
  unfolding passes
  any_fails [] md = false
  any_fails (c ∷ conds) md =
      let rest : Bool = any_fails conds md in if not (passes c md) then true else rest

  abbrev pub should_pass : List FilterCondition → Dict Value → Bool
  should_pass [] md = true
  should_pass (c ∷ conds) md = any_passes (c ∷ conds) md

  unfoldable pub apply_filter : Dict Value → Filter → Bool
  unfolding any_passes any_fails
  apply_filter md flt =
      if any_fails flt.must md
      then false
      else if any_passes flt.must_not md
      then false
      else should_pass flt.should md
