-- ===== src/VectorStore/Filter.antt =====
-- components/vectorstoreadapter/adapters/inmemory.py: `_eval_condition` and `_match_filter`. Python's
-- `==`, orders and `in` on values are parameters; `none` is a `TypeError`.
use lbpr.Prelude.{Bool, true, false, not, Option, none, some, List, [], ◌∷◌, if◌then◌else◌}
use lbpr.Dict
use lbpr.Dict.{Dict}
use lbpr.Value.{Value}
use lbpr.VectorStore.Models.{
  Op, eq, neq, gt, gte, lt, lte, is_in, nin, exists, FilterCondition, DnfFilter,
}

pub record ValueOps : Type 0 where
  pub equals : Value → Value → Bool
  pub greater : Value → Value → Option Bool
  pub greater_equal : Value → Value → Option Bool
  pub less : Value → Value → Option Bool
  pub less_equal : Value → Value → Option Bool
  -- `x in (y or [])`
  pub member : Value → Value → Option Bool

abbrev pub is_there : Option Value → Bool
is_there none = false
is_there (some v) = true

-- `md.get(field)`
abbrev pub or_null : Option Value → Value
or_null none = Value.null
or_null (some v) = v

-- `exists and x`
abbrev pub if_there : Bool → Option Bool → Option Bool
if_there true x = x
if_there false x = some false

abbrev pub negated : Option Bool → Option Bool
negated none = none
negated (some b) = some (not b)

module _ (ops : ValueOps) where
  unfoldable pub eval_op : Op → Value → Option Value → Option Bool
  eval_op exists v found = some (is_there found)
  eval_op eq v found = some (ops.equals (or_null found) v)
  eval_op neq v found = some (not (ops.equals (or_null found) v))
  eval_op gt v found = if_there (is_there found) (ops.greater (or_null found) v)
  eval_op gte v found = if_there (is_there found) (ops.greater_equal (or_null found) v)
  eval_op lt v found = if_there (is_there found) (ops.less (or_null found) v)
  eval_op lte v found = if_there (is_there found) (ops.less_equal (or_null found) v)
  eval_op is_in v found = if_there (is_there found) (ops.member (or_null found) v)
  eval_op nin v found = if is_there found then negated (ops.member (or_null found) v) else some true

  unfoldable pub eval_condition : Dict Value → FilterCondition → Option Bool
  unfolding eval_op
  eval_condition md c = eval_op c.op c.value (Dict.lookup c.field md)

  -- `a and b`, `a or b` on what may raise
  abbrev pub and_also : Option Bool → Option Bool → Option Bool
  and_also none b = none
  and_also (some false) b = some false
  and_also (some true) b = b

  abbrev pub or_else : Option Bool → Option Bool → Option Bool
  or_else none b = none
  or_else (some false) b = b
  or_else (some true) b = some true

  unfoldable pub all_conditions : Dict Value → List FilterCondition → Option Bool
  unfolding eval_condition
  all_conditions md [] = some true
  all_conditions md (c ∷ cs) = and_also (eval_condition md c) (all_conditions md cs)

  unfoldable pub any_group : Dict Value → List (List FilterCondition) → Option Bool
  unfolding all_conditions
  any_group md [] = some false
  any_group md (g ∷ gs) = or_else (all_conditions md g) (any_group md gs)

  abbrev pub match_groups : Dict Value → List (List FilterCondition) → Option Bool
  match_groups md [] = some true
  match_groups md (g ∷ gs) = any_group md (g ∷ gs)

  unfoldable pub match_filter : Dict Value → Option DnfFilter → Option Bool
  unfolding any_group
  match_filter md none = some true
  match_filter md (some flt) = match_groups md flt.groups
