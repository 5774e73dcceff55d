-- ===== src/VectorStore/Matching.antt =====
-- When a record passes a filter: `_match_filter` of components/vectorstoreadapter/adapters/inmemory.py.
use lbpr.Prelude.{
  ◌≡◌, refl, ap, Bool, true, false, Option, none, some, List, [], ◌∷◌, ◌++◌, All, ◌⊎◌, inl, inr,
  ◌↔◌, ◌∙◌, not,
}
use lbpr.Dict
use lbpr.Dict.{Dict}
use lbpr.Value.{Value}
use lbpr.VectorStore.Models.{
  Op, eq, neq, gt, gte, lt, lte, is_in, nin, exists, FilterCondition, DnfFilter,
}
use lbpr.VectorStore.Filter.{
  ValueOps, or_null, negated, eval_op, eval_condition, and_also, or_else, all_conditions, any_group,
  match_groups, match_filter,
}

-- what an operator says of the value that is found under the field
abbrev pub IsSatisfied : ValueOps → Op → Value → Option Value → Type 0
IsSatisfied ops exists v none = ⊥
IsSatisfied ops exists v (some x) = Unit
IsSatisfied ops eq v found = ops.equals (or_null found) v ≡ true
IsSatisfied ops neq v found = ops.equals (or_null found) v ≡ false
IsSatisfied ops gt v none = ⊥
IsSatisfied ops gt v (some x) = ops.greater x v ≡ some true
IsSatisfied ops gte v none = ⊥
IsSatisfied ops gte v (some x) = ops.greater_equal x v ≡ some true
IsSatisfied ops lt v none = ⊥
IsSatisfied ops lt v (some x) = ops.less x v ≡ some true
IsSatisfied ops lte v none = ⊥
IsSatisfied ops lte v (some x) = ops.less_equal x v ≡ some true
IsSatisfied ops is_in v none = ⊥
IsSatisfied ops is_in v (some x) = ops.member x v ≡ some true
IsSatisfied ops nin v none = Unit
IsSatisfied ops nin v (some x) = ops.member x v ≡ some false

not-true : (b : Bool) → (some (not b) ≡ some true) ↔ (b ≡ false)
not-true true = (λ h. cc, λ h. cc)
not-true false = (λ h. refl, λ h. refl)

negated-true : (o : Option Bool) → (negated o ≡ some true) ↔ (o ≡ some false)
negated-true none = (λ h. cc, λ h. cc)
negated-true (some true) = (λ h. cc, λ h. cc)
negated-true (some false) = (λ h. refl, λ h. refl)

some-true : (b : Bool) → (some b ≡ some true) ↔ (b ≡ true)
some-true b = (λ h. cc, λ h. ap some h)

eval_op-IsSatisfied :
    (ops : ValueOps) (op : Op) (v : Value) (found : Option Value)
    → (eval_op ops op v found ≡ some true) ↔ IsSatisfied ops op v found
unfolding eval_op
eval_op-IsSatisfied ops exists v none = (λ h. cc, λ h. elim h [ ])
eval_op-IsSatisfied ops exists v (some x) = (λ h. tt, λ h. refl)
eval_op-IsSatisfied ops eq v none = some-true _
eval_op-IsSatisfied ops eq v (some x) = some-true _
eval_op-IsSatisfied ops neq v none = not-true _
eval_op-IsSatisfied ops neq v (some x) = not-true _
eval_op-IsSatisfied ops gt v none = (λ h. cc, λ h. elim h [ ])
eval_op-IsSatisfied ops gt v (some x) = (λ h. h, λ h. h)
eval_op-IsSatisfied ops gte v none = (λ h. cc, λ h. elim h [ ])
eval_op-IsSatisfied ops gte v (some x) = (λ h. h, λ h. h)
eval_op-IsSatisfied ops lt v none = (λ h. cc, λ h. elim h [ ])
eval_op-IsSatisfied ops lt v (some x) = (λ h. h, λ h. h)
eval_op-IsSatisfied ops lte v none = (λ h. cc, λ h. elim h [ ])
eval_op-IsSatisfied ops lte v (some x) = (λ h. h, λ h. h)
eval_op-IsSatisfied ops is_in v none = (λ h. cc, λ h. elim h [ ])
eval_op-IsSatisfied ops is_in v (some x) = (λ h. h, λ h. h)
eval_op-IsSatisfied ops nin v none = (λ h. tt, λ h. refl)
eval_op-IsSatisfied ops nin v (some x) = negated-true _

module _ (ops : ValueOps) (md : Dict Value) where
  abbrev pub Holds : FilterCondition → Type 0
  Holds c = IsSatisfied ops c.op c.value (Dict.lookup c.field md)

  -- the groups before the one that decides: they evaluate to false, and not to a TypeError
  abbrev pub Misses : List FilterCondition → Type 0
  Misses g = all_conditions ops md g ≡ some false

  abbrev pub Decides : List (List FilterCondition) → Type 0
  Decides groups =
      (before after : List (List FilterCondition)) × (g : List FilterCondition) × (groups
        ≡ before ++ g ∷ after)
      × All Misses before
      × All Holds g

  and_also-true :
      (a b : Option Bool) → and_also ops a b ≡ some true → (a ≡ some true) × (b ≡ some true)
  and_also-true none b e = cc
  and_also-true (some false) b e = cc
  and_also-true (some true) b e = (refl, e)

  or_else-true :
      (a b : Option Bool)
      → or_else ops a b ≡ some true
      → (a ≡ some true) ⊎ ((a ≡ some false) × (b ≡ some true))
  or_else-true none b e = cc
  or_else-true (some false) b e = inr (refl, e)
  or_else-true (some true) b e = inl refl

  all_conditions-true :
      (g : List FilterCondition) → all_conditions ops md g ≡ some true → All Holds g
  unfolding all_conditions eval_condition
  all_conditions-true [] e = tt
  all_conditions-true (c ∷ g) e =
      let (first, rest) = and_also-true (eval_condition ops md c) (all_conditions ops md g) e in
      (
        (eval_op-IsSatisfied ops c.op c.value (Dict.lookup c.field md)).0 first,
        all_conditions-true g rest,
      )

  all_conditions-All :
      (g : List FilterCondition) → All Holds g → all_conditions ops md g ≡ some true
  unfolding all_conditions eval_condition
  all_conditions-All [] h = refl
  all_conditions-All (c ∷ g) (first, rest) =
      rw
        (
          (eval_op-IsSatisfied ops c.op c.value (Dict.lookup c.field md)).1 first,
          all_conditions-All g rest,
        )
        refl

  any_group-true : (gs : List (List FilterCondition)) → any_group ops md gs ≡ some true → Decides gs
  unfolding any_group
  any_group-true [] e = cc
  any_group-true (g ∷ gs) e =
      elim (or_else-true (all_conditions ops md g) (any_group ops md gs) e) [
        | inl here ↦ ([], gs, g, refl, tt, all_conditions-true g here)
        | inr (missed, rest) ↦
            let (before, after, h, split, misses, holds) = any_group-true gs rest in
            (g ∷ before, after, h, ap (◌∷◌ g) split, (missed, misses), holds)
      ]

  any_group-Misses :
      (before after : List (List FilterCondition)) (g : List FilterCondition)
      → All Misses before
      → All Holds g
      → any_group ops md (before ++ g ∷ after) ≡ some true
  unfolding any_group
  any_group-Misses [] after g tt holds = rw (all_conditions-All g holds) refl
  any_group-Misses (x ∷ before) after g (missed, misses) holds =
      rw (missed, any_group-Misses before after g misses holds) refl

  match_groups-true :
      (gs : List (List FilterCondition))
      → (match_groups ops md gs ≡ some true) ↔ ((gs ≡ []) ⊎ Decides gs)
  match_groups-true [] = (λ h. inl refl, λ h. refl)
  match_groups-true (g ∷ gs) = (
    λ h. inr (any_group-true (g ∷ gs) h),
    λ h. elim h [
      | inl e ↦ cc
      | inr (before, after, x, split, misses, holds) ↦
          ap (any_group ops md) split ∙ any_group-Misses before after x misses holds
    ],
  )

  -- A record passes a filter exactly if the filter has no groups, or has one each of whose conditions
  -- is satisfied, after groups that evaluate to false.
  pub match_filter-true :
      (flt : DnfFilter)
      → (match_filter ops md (some flt) ≡ some true) ↔ ((flt.groups ≡ []) ⊎ Decides flt.groups)
  unfolding match_filter
  match_filter-true flt = match_groups-true flt.groups
