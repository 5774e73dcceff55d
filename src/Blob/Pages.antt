-- ===== src/Blob/Pages.antt =====
-- Page after page of one listing.
use lbpr.Prelude.{
  ℕ, zero, suc, ◌<◌, ◌≡◌, ◌≢◌, refl, ap, sym, ◌∙◌, arith, String, inl, inr, Option, none, some,
  List, [], ◌∷◌, ◌++◌, map, leb, length, All, Bool-cases, eq_iff, length-append,
}
use mathlib.Core.Path.{subst}
use mathlib.Core.List.{append_assoc, map-append}
use lbpr.Blob.Contracts.{BlobItem}
use lbpr.Blob.Listing.{item_of, collect, pass_over, after_cursor, page, with_item}

-- no path comes twice, as in the walk of a directory
abbrev pub Distinct : List (String × ℕ) → Type 0
Distinct [] = Unit
Distinct (f ∷ files) = All (λ g. f.0 ≢ g.0) files × Distinct files

-- What a page holds of the files after its cursor: all of them and no cursor, or the first ones
-- with the path of the last of them as the next cursor.
data IsPage (files : List (String × ℕ)) (r : List BlobItem × Option String) : Type 0 where
  last_page : r ≡ (map item_of files, none) → IsPage files r
  inner :
      (before after : List (String × ℕ)) (f : String × ℕ)
      → files ≡ before ++ f ∷ after
      → r ≡ (map item_of (before ++ f ∷ []), some f.0)
      → IsPage files r

longer :
    (f : String × ℕ) (files : List (String × ℕ)) (r : List BlobItem × Option String)
    → IsPage files r
    → IsPage (f ∷ files) (with_item (item_of f) r)
longer f files r (last_page e) = last_page (ap (with_item (item_of f)) e)
longer f files r (inner before after g split e) =
    inner (f ∷ before) after g (ap (λ l. f ∷ l) split) (ap (with_item (item_of f)) e)

collect-IsPage :
    (limit count : ℕ) (files : List (String × ℕ)) → IsPage files (collect limit count files)
unfolding collect
collect-IsPage limit count [] = last_page refl
collect-IsPage limit count (f ∷ files) = elim (Bool-cases (leb limit (suc count))) [
  | inl full ↦ rw full (inner [] files f refl refl)
  | inr more ↦
      rw more
        (longer f files (collect limit (suc count) files) (collect-IsPage limit (suc count) files))
]

All-at :
    (P : String × ℕ → Type 0) (xs : List (String × ℕ)) (f : String × ℕ) (ys : List (String × ℕ))
    → All P (xs ++ f ∷ ys)
    → P f
All-at P [] f ys h = h.0
All-at P (x ∷ xs) f ys h = All-at P xs f ys h.1

pass_over-append :
    (xs : List (String × ℕ)) (f : String × ℕ) (ys : List (String × ℕ))
    → Distinct (xs ++ f ∷ ys)
    → pass_over f.0 (xs ++ f ∷ ys) ≡ ys
unfolding pass_over
pass_over-append [] f ys h = ground (arith, eq_iff f.0 f.0)
pass_over-append (x ∷ xs) f ys h =
    let other : x.0 ≢ f.0 = All-at (λ g. x.0 ≢ g.0) xs f ys h.0 in
    ground (arith, eq_iff x.0 f.0, pass_over-append xs f ys h.1)

abbrev pub append_later : List BlobItem → Option (List BlobItem) → Option (List BlobItem)
append_later items none = none
append_later items (some later) = some (items ++ later)

abbrev pub go_on :
    List BlobItem × Option String → (String → Option (List BlobItem)) → Option (List BlobItem)
go_on (items, none) more = some items
go_on (items, some cursor) more = append_later items (more cursor)

-- A client that asks for page after page, on fuel; none means that the fuel ran out.
unfoldable pub visits : ℕ → ℕ → Option String → List (String × ℕ) → Option (List BlobItem)
visits zero limit cursor files = none
visits (suc fuel) limit cursor files =
    go_on (page limit cursor files) (λ c. visits fuel limit (some c) files)

page_step :
    (fuel limit : ℕ) (files seen rest : List (String × ℕ))
    → Distinct files
    → files ≡ seen ++ rest
    → length rest < suc fuel
    → ((c : String) (seen' rest' : List (String × ℕ))
        → files ≡ seen' ++ rest'
        → pass_over c files ≡ rest'
        → length rest' < fuel
        → visits fuel limit (some c) files ≡ some (map item_of rest'))
    → (r : List BlobItem × Option String) → IsPage rest r
    → go_on r (λ c. visits fuel limit (some c) files) ≡ some (map item_of rest)
page_step fuel limit files seen rest distinct split h ih r (last_page e) = rw e refl
page_step fuel limit files seen rest distinct split h ih r (inner before after f cut e) =
    let whole : files ≡ (seen ++ before) ++ f ∷ after =
      split ∙ ap (λ l. seen ++ l) cut ∙ sym (append_assoc seen before (f ∷ after)) in
    let regroup : (seen ++ before) ++ f ∷ after ≡ ((seen ++ before) ++ f ∷ []) ++ after =
      sym (append_assoc (seen ++ before) (f ∷ []) after) in
    let shorter : length after < fuel =
      omega (arith, ap length cut, length-append before (f ∷ after)) in
    rw e (
      ap (append_later (map item_of (before ++ f ∷ []))) (
        ih f.0 ((seen ++ before) ++ f ∷ []) after (whole ∙ regroup)
          (ap (pass_over f.0) whole
            ∙ pass_over-append (seen ++ before) f after (subst Distinct whole distinct))
          shorter)
      ∙ ap some (
          sym (map-append item_of (before ++ f ∷ []) after)
          ∙ ap (map item_of) (append_assoc before (f ∷ []) after ∙ sym cut)))

pub visits-rest :
    (fuel limit : ℕ) (cursor : Option String) (files seen rest : List (String × ℕ))
    → Distinct files
    → files ≡ seen ++ rest
    → after_cursor cursor files ≡ rest
    → length rest < fuel
    → visits fuel limit cursor files ≡ some (map item_of rest)
unfolding visits page
visits-rest zero limit cursor files seen rest distinct split at h = absurd (omega arith)
visits-rest (suc fuel) limit cursor files seen rest distinct split at h = rw at (
    page_step fuel limit files seen rest distinct split h
      (λ c seen' rest' split' at' h'.
        visits-rest fuel limit (some c) files seen' rest' distinct split' at' h')
      (collect limit 0 rest) (collect-IsPage limit 0 rest))
