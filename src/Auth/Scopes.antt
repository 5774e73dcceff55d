-- ===== src/Auth/Scopes.antt =====
-- What the tests of components/authservice/service.py on the claims `tenant_id` and `scopes` decide.
use Prim.Native.String.{◌++◌ as join_text}
use text.Mathlib.TextLemmas.{nil-append, cons-append}
use lbpr.Prelude.{
  String, ◌≡◌, refl, ap, sym, ◌∙◌, Bool, true, false, ◌⊎◌, inl, inr, Option, none, some, Bool-cases,
  str_eq, eq_iff,
}
use lbpr.Value.{Value, Items, Fields}
use lbpr.Text.Find.{starts_with, has_text, starts_with-append}
use lbpr.Auth.Signer.{is_empty}
use lbpr.Auth.Service.{is_text, among_items, among_keys, in_scopes, other_tenant}

-- The text is an item of the list.
pub data IsItem (s : String) : Items → Type 0 where
  first : {items : Items} → IsItem s (Items.cons (Value.text s) items)
  later : {v : Value} {items : Items} → IsItem s items → IsItem s (Items.cons v items)

-- The text is a key of the dict.
pub data IsKey (s : String) : Fields → Type 0 where
  first : {v : Value} {fields : Fields} → IsKey s (Fields.field s v fields)
  later :
      {k : String} {v : Value} {fields : Fields}
      → IsKey s fields
      → IsKey s (Fields.field k v fields)

-- The scope is granted by the claim: an item of a list, a key of a dict, a part of a text.
abbrev pub Grants : Option Value → String → Type 0
Grants none s = ⊥
Grants (some (Value.list items)) s = IsItem s items
Grants (some (Value.dict fields)) s = IsKey s fields
Grants (some (Value.text t)) s =
    (pre : String) × (post : String) × (t ≡ join_text pre (join_text s post))
Grants (some Value.null) s = ⊥
Grants (some (Value.bool b)) s = ⊥
Grants (some (Value.int n)) s = ⊥

-- No tenant was asked for, or the claim is its id.
abbrev pub IsTenant : Option String → Option Value → Type 0
IsTenant none claim = Unit
IsTenant (some tenant_id) claim = (tenant_id ≡ "") ⊎ (claim ≡ some (Value.text tenant_id))

is_text-true : (v : Option Value) (s : String) → is_text v s ≡ true → v ≡ some (Value.text s)
is_text-true (some (Value.text t)) s h = ap (λ u. some (Value.text u)) ((eq_iff t s).0 h)
is_text-true (some Value.null) s h = cc
is_text-true (some (Value.bool b)) s h = cc
is_text-true (some (Value.int n)) s h = cc
is_text-true (some (Value.list l)) s h = cc
is_text-true (some (Value.dict d)) s h = cc
is_text-true none s h = cc

text-inj : {v w : Value} → some v ≡ some w → v ≡ w
text-inj h = cc

among_items-IsItem : (s : String) (items : Items) → among_items s items ≡ true → IsItem s items
unfolding among_items
among_items-IsItem s Items.nil h = cc
among_items-IsItem s (Items.cons v items) h = elim (Bool-cases (is_text (some v) s)) [
  | inl here ↦ rw (text-inj (is_text-true (some v) s here)) IsItem.first
  | inr there ↦ let k = rw there at h in IsItem.later (among_items-IsItem s items k)
]

among_keys-IsKey : (s : String) (fields : Fields) → among_keys s fields ≡ true → IsKey s fields
unfolding among_keys
among_keys-IsKey s Fields.end h = cc
among_keys-IsKey s (Fields.field k v fields) h = elim (Bool-cases (str_eq k s)) [
  | inl here ↦ rw ((eq_iff k s).0 here) IsKey.first
  | inr there ↦ let j = rw there at h in IsKey.later (among_keys-IsKey s fields j)
]

has_text-append :
    (s t : String)
    → has_text s t ≡ true
    → (pre : String) × (post : String) × (t ≡ join_text pre (join_text s post))
unfolding has_text
has_text-append s String.[] h =
    let (post, e) = starts_with-append s String.[] h in (String.[], post, e ∙ sym (nil-append _))
has_text-append s (String.◌∷◌ d t) h = elim (Bool-cases (starts_with s (String.◌∷◌ d t))) [
  | inl here ↦
      let (post, e) = starts_with-append s (String.◌∷◌ d t) here in
      (String.[], post, e ∙ sym (nil-append _))
  | inr there ↦
      let (pre, post, e) = has_text-append s t (rw there at h) in
      (String.◌∷◌ d pre, post, ap (String.◌∷◌ d) e ∙ sym (cons-append d pre _))
]

some-inj : {b c : Bool} → some b ≡ some c → b ≡ c
some-inj h = cc

pub in_scopes-Grants :
    (s : String) (claim : Option Value) → in_scopes s claim ≡ some true → Grants claim s
unfolding in_scopes
in_scopes-Grants s none h = cc
in_scopes-Grants s (some (Value.list items)) h = among_items-IsItem s items (some-inj h)
in_scopes-Grants s (some (Value.dict fields)) h = among_keys-IsKey s fields (some-inj h)
in_scopes-Grants s (some (Value.text t)) h = has_text-append s t (some-inj h)
in_scopes-Grants s (some Value.null) h = cc
in_scopes-Grants s (some (Value.bool b)) h = cc
in_scopes-Grants s (some (Value.int n)) h = cc

is_empty-true : (s : String) → is_empty s ≡ true → s ≡ ""
unfolding is_empty
is_empty-true String.[] h = refl
is_empty-true (String.◌∷◌ c s) h = cc

pub other_tenant-IsTenant :
    (tenant_id : Option String) (claim : Option Value)
    → other_tenant tenant_id claim ≡ false
    → IsTenant tenant_id claim
other_tenant-IsTenant none claim h = tt
other_tenant-IsTenant (some tenant_id) claim h = elim (Bool-cases (is_empty tenant_id)) [
  | inl empty ↦ inl (is_empty-true tenant_id empty)
  | inr full ↦ elim (Bool-cases (is_text claim tenant_id)) [
    | inl same ↦ inr (is_text-true claim tenant_id same)
    | inr other ↦ let k = rw (full, other) at h in cc
  ]
]
