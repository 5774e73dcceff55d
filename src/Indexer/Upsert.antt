-- ===== src/Indexer/Upsert.antt =====
-- `InMemoryVectorStore` of components/indexer/adapters_inmemory.py: what is found after an upsert.
use lbpr.Prelude.{String, ◌≡◌, ◌≢◌, refl, ◌∙◌, List, [], ◌∷◌, ◌++◌, Option, some, All}
use lbpr.Dict
use lbpr.Dict.{Dict, lookup-insert_self, lookup-insert_ne}
use lbpr.Indexer.Contracts.{VectorItem}
use lbpr.Indexer.Store.{VectorDb, put_items, namespace_of, upsert}

module _ {F : Type 0} where
  put_items-append :
      (xs ys : List (VectorItem F)) (ns : Dict (VectorItem F))
      → put_items (xs ++ ys) ns ≡ put_items ys (put_items xs ns)
  unfolding put_items
  put_items-append [] ys ns = refl
  put_items-append (x ∷ xs) ys ns = put_items-append xs ys (Dict.insert x.id x ns)

  put_items_skip :
      (id : String) (items : List (VectorItem F)) (ns : Dict (VectorItem F))
      → All (λ x. x.id ≢ id) items
      → Dict.lookup id (put_items items ns) ≡ Dict.lookup id ns
  unfolding put_items
  put_items_skip id [] ns h = refl
  put_items_skip id (x ∷ items) ns h =
      put_items_skip id items (Dict.insert x.id x ns) h.1 ∙ lookup-insert_ne x.id id x ns h.0

  -- what a namespace holds under an id
  abbrev pub fetch : String → String → VectorDb F → Option (VectorItem F)
  fetch namespace id db = Dict.lookup id (namespace_of (Dict.lookup namespace db))

  -- After an upsert the namespace holds, under each id that was given, the last item of that id; under
  -- the other ids it holds what it held; and the other namespaces are as they were.
  pub upsert_last_wins :
      (namespace other id : String) (before after : List (VectorItem F)) (x : VectorItem F)
      (db : VectorDb F)
      → All (λ y. y.id ≢ x.id) after
      → All (λ y. y.id ≢ id) (before ++ x ∷ after)
      → namespace ≢ other
      → let db' = upsert namespace (before ++ x ∷ after) db in
        (fetch namespace x.id db' ≡ some x)
        × (fetch namespace id db' ≡ fetch namespace id db)
        × (Dict.lookup other db' ≡ Dict.lookup other db)
  unfolding upsert put_items
  upsert_last_wins namespace other id before after x db last absent apart =
      let old : Dict (VectorItem F) = namespace_of (Dict.lookup namespace db) in
      (
        rw
            (
              lookup-insert_self namespace (put_items (before ++ x ∷ after) old) db,
              put_items-append before (x ∷ after) old,
              put_items_skip x.id after (Dict.insert x.id x (put_items before old)) last,
            )
            (lookup-insert_self x.id x (put_items before old)),
        rw (lookup-insert_self namespace (put_items (before ++ x ∷ after) old) db)
            (put_items_skip id (before ++ x ∷ after) old absent),
        lookup-insert_ne namespace other (put_items (before ++ x ∷ after) old) db apart,
      )
