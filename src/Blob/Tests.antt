-- ===== src/Blob/Tests.antt =====
-- A disk that is a list of files by their paths, without directories.
use Prim.Native.String.{◌++◌ as join_text}
use lbpr.Prelude.{
  ap, ℕ, ◌≡◌, ◌≢◌, refl, String, Bool, true, false, Option, none, some, List, [], ◌∷◌, map, str_eq,
  length, arith, eq_iff, eq_refl, if◌then◌else◌,
}
use lbpr.Prelude.Int.{ℤ, pos}
use lbpr.Dict.{Dict, lookup, insert, erase, lookup-insert, lookup-erase}
use lbpr.Text.Strip.{strip}
use lbpr.Blob.Contracts.{
  Bytes, BlobRef, PutBlobRequest, PutBlobResult, ListBlobsRequest, ok, err, conflict, constrained,
}
use lbpr.Blob.Files.{Files, Laws}
use lbpr.Blob.Paths.{path_for, safe_join, is_slash}
use lbpr.Blob.Adapter.{
  concat, content_of, put_blob, put_result, get_blob_stream, head_blob, sized, start_of,
}
use lbpr.Blob.Listing.{item_of, iter_files, page}
use lbpr.Blob.Contents.{Operation, NoFault, Agrees, run, specified, run-Agrees}
use lbpr.Blob.RoundTrip.{range_of, get_blob_stream-put_blob}
use lbpr.Blob.Following.{follow, follow_sees_all}

abbrev is_stored : Option Bytes → Bool
is_stored none = false
is_stored (some b) = true

-- files of one byte each, one directory deep
abbrev walked : Dict Bytes → List (String × ℕ)
walked s = map (λ e. (e.0, length e.1)) s

abbrev size_option : Option Bytes → Option ℕ
size_option none = none
size_option (some bytes) = some (length bytes)

abbrev files : Files (Dict Bytes) String
files = record {
  join = λ p part. join_text p (join_text "/" part);
  resolve = λ p. p;
  same = str_eq;
  exists = λ p s. if str_eq p "/t/b" then true else is_stored (lookup p s);
  make_parents = λ p s. (true, s);
  write = λ p b s. (true, insert p b s);
  read = lookup;
  size_of = λ p s. size_option (lookup p s);
  remove = λ p s. (true, erase p s);
  walk = λ p s. walked s;
}

there : (p : String) (s : Dict Bytes) (b : Bytes) → lookup p s ≡ some b → files.exists p s ≡ true
there p s b h = rw h (ground arith)

laws : Laws files
laws = record {
  parents = λ p q s. refl;
  parents_exist = λ p s. refl;
  written = λ p q b s h. lookup-insert p q b s;
  removed = λ p q s h. lookup-erase p q s;
  measured = λ p s b h. ap (size_option) h;
  there = there;
  itself = λ p. eq_refl p;
}

abbrev sha256 : Bytes → String
sha256 b = "digest"

abbrev ref : BlobRef
ref = record { tenant_id = "t"; bucket = "b"; key = "k" }

path_k : path_for files "" ref ≡ ok "/t/b/k"
unfolding path_for
path_k = refl

abbrev request : PutBlobRequest
request = record {
  ref = ref;
  content = none;
  chunks = some ((1 ∷ 2 ∷ []) ∷ (3 ∷ []) ∷ []);
  content_type = none;
  overwrite = false;
  compute_sha256 = true;
}

abbrev stored : Dict Bytes
stored = insert "/t/b/k" (1 ∷ 2 ∷ 3 ∷ []) []

abbrev result : PutBlobResult
result = put_result files sha256 "" request (1 ∷ 2 ∷ 3 ∷ [])

put_ok : put_blob files sha256 "" request [] ≡ (ok result, stored)
unfolding put_blob insert lookup
put_ok = refl

get_blob_stream-put_blob_example :
    (bytes : Bytes) × (content_of request.content request.chunks ≡ some bytes)
    × (result.blob_meta.size ≡ some (length bytes))
    × (head_blob files sha256 "" ref stored ≡ sized ref (some (length bytes)))
    × ((range_start range_end : Option ℤ) (start : ℕ)
        → start_of range_start ≡ some start
        → (chunks : List Bytes) × (get_blob_stream files sha256 ""
              (record { ref = ref; range_start = range_start; range_end = range_end })
              stored
            ≡ ok chunks)
          × (concat chunks ≡ range_of range_end start bytes))
get_blob_stream-put_blob_example =
    get_blob_stream-put_blob files sha256 "" laws request [] result stored put_ok

middle :
    get_blob_stream files sha256 ""
      (record { ref = ref; range_start = some (pos 1); range_end = some (pos 1) })
      stored
    ≡ ok ((2 ∷ []) ∷ [])
unfolding get_blob_stream insert lookup
middle = refl

no_fault : NoFault files sha256 "" "/t/b/k" stored
no_fault = record { parents = refl; write = λ b. refl; remove = λ h. refl }

run-Agrees_example : Agrees files sha256 "" (run files sha256 "" (Operation.put request) stored) (
    specified files sha256 "" "/t/b/k"
      (files.exists "/t/b/k" stored)
      (Operation.put request)
      (λ q. files.read q stored))
run-Agrees_example =
    run-Agrees files sha256 "" laws "/t/b/k" stored no_fault (Operation.put request) path_k

put_twice : put_blob files sha256 "" request stored ≡ (err conflict, stored)
unfolding put_blob insert lookup
put_twice = refl

abbrev two : Dict Bytes
two = ("a", 1 ∷ []) ∷ ("k", 2 ∷ []) ∷ []

abbrev listing : ListBlobsRequest
listing = record { tenant_id = "t"; bucket = "b"; prefix = ""; limit = 1; cursor = none }

base : safe_join files "" ("t" ∷ "b" ∷ []) ≡ ok "/t/b"
unfolding safe_join
base = refl

a_ne_k : ◌≢◌ {A = String} "a" "k"
a_ne_k = ground (arith, eq_iff "a" "k")

follow_sees_all_example :
    follow files "" 3 listing two ≡ some (map item_of (iter_files (strip is_slash "") (walked two)))
follow_sees_all_example =
    follow_sees_all files "" listing two "/t/b" 3 base refl ((a_ne_k, tt), (tt, tt)) (omega arith)

first_page : page 1 none (walked two) ≡ (item_of ("a", 1) ∷ [], some "a")
unfolding page
first_page = refl

too_short : constrained " " ≡ none
unfolding constrained
too_short = refl
