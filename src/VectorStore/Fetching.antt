-- ===== src/VectorStore/Fetching.antt =====
-- What `fetch` finds, and what it finds after `delete`.
use lbpr.Prelude.{
  ℕ, String, ◌≡◌, refl, sym, ap, ◌∙◌, Bool, true, false, ◌||◌, Option, none, some, List, [], ◌∷◌,
  str_eq, if◌then◌else◌, Bool-cases, String-cases, inl, inr,
}
use lbpr.Dict
use lbpr.Dict.{Dict, lookup-insert_self, lookup-insert, lookup-erase}
use lbpr.VectorStore.Models.{VectorRecord, DnfFilter, ok}
use lbpr.VectorStore.Filter.{ValueOps}
use lbpr.VectorStore.Adapter.{Store, keep_found, found_from, fetch, delete_one, delete_ids, delete}

-- `x in l`
abbrev pub is_listed : String → List String → Bool
is_listed x [] = false
is_listed x (y ∷ l) = str_eq y x || is_listed x l

-- the first of two that is there
abbrev pub prefer : {A : Type 0} → Option A → Option A → Option A
prefer (some a) b = some a
prefer none b = b

module _ {F : Type 0} where
  delete_one-lookup :
      (i j : String) (ns : Dict (VectorRecord F)) (n : ℕ) (o : Option (VectorRecord F))
      → Dict.lookup i ns ≡ o
      → Dict.lookup j (delete_one i o (ns, n)).0 ≡ (if str_eq i j then none else Dict.lookup j ns)
  delete_one-lookup i j ns n none e = elim (String-cases i j) [
    | inl (test, same) ↦ rw test (ap (λ (k : String). Dict.lookup k ns) (sym same) ∙ e)
    | inr (test, _) ↦ rw test refl
  ]
  delete_one-lookup i j ns n (some r) e = lookup-erase i j ns

  listed_step :
      (i j : String) (ids : List String) (o p : Option (VectorRecord F))
      → p ≡ (if str_eq i j then none else o)
      → (if is_listed j ids then none else p) ≡ (if is_listed j (i ∷ ids) then none else o)
  listed_step i j ids o p e = elim (Bool-cases (str_eq i j)) [
    | inl same ↦ rw (e, same) (if_same (is_listed j ids))
    | inr other ↦ rw (e, other) refl
  ]
    where
      if_same : (b : Bool) → ◌≡◌ {A = Option (VectorRecord F)} (if b then none else none) none
      if_same true = refl
      if_same false = refl

  delete_ids-lookup :
      (ids : List String) (ns : Dict (VectorRecord F)) (n : ℕ) (j : String)
      → Dict.lookup j (delete_ids ids (ns, n)).0
        ≡ (if is_listed j ids then none else Dict.lookup j ns)
  unfolding delete_ids
  delete_ids-lookup [] ns n j = refl
  delete_ids-lookup (i ∷ ids) ns n j =
      let after : Dict (VectorRecord F) × ℕ = delete_one i (Dict.lookup i ns) (ns, n) in
      delete_ids-lookup ids after.0 after.1 j
      ∙ listed_step i j ids (Dict.lookup j ns) (Dict.lookup j after.0)
          (delete_one-lookup i j ns n (Dict.lookup i ns) refl)

  keep_found-lookup :
      (i j : String) (ns found : Dict (VectorRecord F)) (o : Option (VectorRecord F))
      → Dict.lookup i ns ≡ o
      → Dict.lookup j (keep_found i o found) ≡ (
          if str_eq i j
          then prefer (Dict.lookup j ns) (Dict.lookup j found)
          else Dict.lookup j found)
  keep_found-lookup i j ns found none e = elim (String-cases i j) [
    | inl (test, same) ↦
        let absent : Dict.lookup j ns ≡ none =
          ap (λ (k : String). Dict.lookup k ns) (sym same) ∙ e in
        rw (test, absent) refl
    | inr (test, _) ↦ rw test refl
  ]
  keep_found-lookup i j ns found (some r) e = elim (String-cases i j) [
    | inl (test, same) ↦
        let there : Dict.lookup j ns ≡ some r =
          ap (λ (k : String). Dict.lookup k ns) (sym same) ∙ e in
        rw (lookup-insert i j r found, test, there) refl
    | inr (test, _) ↦ rw (lookup-insert i j r found, test) refl
  ]

  prefer_twice : (o p : Option (VectorRecord F)) → prefer o (prefer o p) ≡ prefer o p
  prefer_twice none p = refl
  prefer_twice (some r) p = refl

  found_step :
      (same later : Bool) (o p : Option (VectorRecord F))
      → (if later
          then prefer o (if same then prefer o p else p)
          else if same
          then prefer o p
          else p)
        ≡ (if same || later then prefer o p else p)
  found_step true true o p = prefer_twice o p
  found_step true false o p = refl
  found_step false later o p = refl

  found_from-lookup :
      (ids : List String) (ns found : Dict (VectorRecord F)) (j : String)
      → Dict.lookup j (found_from ids ns found) ≡ (
          if is_listed j ids
          then prefer (Dict.lookup j ns) (Dict.lookup j found)
          else Dict.lookup j found)
  unfolding found_from
  found_from-lookup [] ns found j = refl
  found_from-lookup (i ∷ ids) ns found j =
      found_from-lookup ids ns (keep_found i (Dict.lookup i ns) found) j
      ∙ ap
          (λ (p : Option (VectorRecord F)).
            if is_listed j ids then prefer (Dict.lookup j ns) p else p)
          (keep_found-lookup i j ns found (Dict.lookup i ns) refl)
      ∙ found_step (str_eq i j) (is_listed j ids) (Dict.lookup j ns) (Dict.lookup j found)

  prefer-none : (o : Option (VectorRecord F)) → prefer o none ≡ o
  prefer-none none = refl
  prefer-none (some r) = refl

  -- what a fetch finds
  fetched-lookup :
      (wanted : List String) (ns : Dict (VectorRecord F)) (j : String)
      → Dict.lookup j (found_from wanted ns [])
        ≡ (if is_listed j wanted then Dict.lookup j ns else none)
  unfolding Dict.lookup
  fetched-lookup wanted ns j =
      found_from-lookup wanted ns [] j
      ∙ ap (λ (o : Option (VectorRecord F)). if is_listed j wanted then o else none)
          (prefer-none (Dict.lookup j ns))

  -- A deletion by ids, in a namespace that is there, succeeds, and a later `fetch` succeeds too: it
  -- finds, of the ids that it is asked for, those that the namespace had and that were not deleted,
  -- with the records that it had.
  pub fetch-delete :
      (ops : ValueOps) (namespace i : String) (ids wanted : List String) (flt : Option DnfFilter)
      (s : Store F) (ns : Dict (VectorRecord F))
      → Dict.lookup namespace s ≡ some ns
      → (n : ℕ) × ((delete ops namespace (i ∷ ids) flt s).0 ≡ ok n)
        × ((found : Dict (VectorRecord F)) × (fetch namespace wanted
                (delete ops namespace (i ∷ ids) flt s).1
              ≡ ok found)
            × ((j : String)
                → Dict.lookup j found ≡ (
                    if is_listed j wanted
                    then if is_listed j (i ∷ ids) then none else Dict.lookup j ns
                    else none)))
  unfolding delete fetch
  fetch-delete ops namespace i ids wanted flt s ns there =
      let after : Dict (VectorRecord F) × ℕ = delete_ids (i ∷ ids) (ns, 0) in
      (
        after.1,
        rw there refl,
        (
          found_from wanted after.0 [],
          rw (there, lookup-insert_self namespace after.0 s) refl,
          λ j.
              fetched-lookup wanted after.0 j
              ∙ ap (λ (o : Option (VectorRecord F)). if is_listed j wanted then o else none)
                  (delete_ids-lookup (i ∷ ids) ns 0 j),
        ),
      )
