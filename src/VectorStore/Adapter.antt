-- ===== src/VectorStore/Adapter.antt =====
-- components/vectorstoreadapter/adapters/inmemory.py: `InMemoryVectorStore`, but for `query`, which
-- Ranking has. Measured times are left out.
use lbpr.Prelude.{
  ℕ, suc, String, Bool, Option, none, some, List, [], ◌∷◌, map, length, str_eq, if◌then◌else◌,
}
use lbpr.Dict
use lbpr.Dict.{Dict}
use lbpr.VectorStore.Models.{
  DnfFilter, VectorRecord, Result, ok, err, bad_request, namespace_not_found, type_error,
}
use lbpr.VectorStore.Filter.{ValueOps, match_filter}

-- the namespaces, and the records of each by their ids
abbrev pub Store : Type 0 → Type 0
Store F = Dict (Dict (VectorRecord F))

abbrev pub cons_if : Option Bool → String → Option (List String) → Option (List String)
cons_if none rid rest = none
cons_if (some b) rid none = none
cons_if (some b) rid (some rids) = some (if b then rid ∷ rids else rids)

module _ {F : Type 0} where
  -- `self._store.setdefault(namespace, {})`
  abbrev pub or_new : Option (Dict (VectorRecord F)) → Dict (VectorRecord F)
  or_new none = []
  or_new (some ns) = ns

  unfoldable pub put_records : List (VectorRecord F) → Dict (VectorRecord F) → Dict (VectorRecord F)
  put_records [] ns = ns
  put_records (r ∷ records) ns = put_records records (Dict.insert r.id r ns)

  unfoldable pub upsert : String → List (VectorRecord F) → Store F → Result ℕ × Store F
  unfolding put_records
  upsert namespace records s = if str_eq namespace "" then (err bad_request, s) else (
    ok (length records),
    Dict.insert namespace (put_records records (or_new (Dict.lookup namespace s))) s,
  )

  -- one id of the comprehension
  abbrev pub keep_found :
      String → Option (VectorRecord F) → Dict (VectorRecord F) → Dict (VectorRecord F)
  keep_found i none found = found
  keep_found i (some r) found = Dict.insert i r found

  -- `{i: ns[i] for i in ids if i in ns}`, from what was found so far
  unfoldable pub found_from :
      List String → Dict (VectorRecord F) → Dict (VectorRecord F) → Dict (VectorRecord F)
  found_from [] ns found = found
  found_from (i ∷ ids) ns found = found_from ids ns (keep_found i (Dict.lookup i ns) found)

  abbrev pub fetch_in :
      Option (Dict (VectorRecord F)) → List String → Result (Dict (VectorRecord F))
  fetch_in none ids = err namespace_not_found
  fetch_in (some ns) ids = ok (found_from ids ns [])

  unfoldable pub fetch : String → List String → Store F → Result (Dict (VectorRecord F))
  unfolding found_from
  fetch namespace ids s = fetch_in (Dict.lookup namespace s) ids

  -- `if i in ns: del ns[i]; deleted += 1`
  abbrev pub delete_one :
      String → Option (VectorRecord F) → Dict (VectorRecord F) × ℕ → Dict (VectorRecord F) × ℕ
  delete_one i none (ns, deleted) = (ns, deleted)
  delete_one i (some r) (ns, deleted) = (Dict.erase i ns, suc deleted)

  unfoldable pub delete_ids : List String → Dict (VectorRecord F) × ℕ → Dict (VectorRecord F) × ℕ
  delete_ids [] (ns, deleted) = (ns, deleted)
  delete_ids (i ∷ ids) (ns, deleted) =
      delete_ids ids (delete_one i (Dict.lookup i ns) (ns, deleted))

  -- `[rid for rid, rec in ns.items() if _match_filter(rec.metadata, flt)]`
  unfoldable pub to_delete : ValueOps → DnfFilter → Dict (VectorRecord F) → Option (List String)
  to_delete ops flt [] = some []
  to_delete ops flt ((rid, rec) ∷ ns) =
      cons_if (match_filter ops rec.metadata (some flt)) rid (to_delete ops flt ns)

  abbrev pub written : String → Dict (VectorRecord F) × ℕ → Store F → Result ℕ × Store F
  written namespace (ns, deleted) s = (ok deleted, Dict.insert namespace ns s)

  -- The ids that match are all there, so each `del` finds its entry.
  abbrev pub delete_matching :
      String → Option (List String) → Dict (VectorRecord F) → Store F → Result ℕ × Store F
  delete_matching namespace none ns s = (err type_error, s)
  delete_matching namespace (some rids) ns s = written namespace (delete_ids rids (ns, 0)) s

  -- by `ids` if there are any, else by the filter if there is one, else everything
  abbrev pub delete_in :
      ValueOps
      → String
      → List String
      → Option DnfFilter
      → Option (Dict (VectorRecord F))
      → Store F
      → Result ℕ × Store F
  delete_in ops namespace ids flt none s = (err namespace_not_found, s)
  delete_in ops namespace (i ∷ ids) flt (some ns) s =
      written namespace (delete_ids (i ∷ ids) (ns, 0)) s
  delete_in ops namespace [] (some flt) (some ns) s =
      delete_matching namespace (to_delete ops flt ns) ns s
  delete_in ops namespace [] none (some ns) s = written namespace ([], length ns) s

  unfoldable pub delete :
      ValueOps → String → List String → Option DnfFilter → Store F → Result ℕ × Store F
  unfolding delete_ids to_delete
  delete ops namespace ids flt s = delete_in ops namespace ids flt (Dict.lookup namespace s) s

  abbrev pub count_of : Option (Dict (VectorRecord F)) → ℕ
  count_of none = 0
  count_of (some ns) = length ns

  -- `None` and the empty text ask for every namespace
  unfoldable pub stats : String → Store F → Dict ℕ
  stats namespace s =
      if str_eq namespace ""
      then map (λ e. (e.0, length e.1)) s
      else (namespace, count_of (Dict.lookup namespace s)) ∷ []
