-- ===== src/Chat/Listing.antt =====
-- `list_chats`: the chats of one tenant, newest first.
use lbpr.Prelude.{
  ℕ, zero, suc, String, ◌≡◌, ◌≢◌, refl, ap, ◌∙◌, false, none, some, List, [], ◌∷◌, map, take, All,
  All-take, str_eq,
}
use lbpr.Dict
use lbpr.Dict.{Dict, lookup-insert, lookup-insert_self, lookup-insert_ne}
use lbpr.Chat.Contracts.{Chat, CreateChatRequest, ListChatsRequest}
use lbpr.Chat.Action.{State, ok}
use lbpr.Chat.Service.{create_chat, new_chat, subscripts, list_chats}
use lbpr.Chat.Invariant.{IsValid, Owned, ids_of}

-- Ids that are all owned by a tenant are all found, in their order.
subscripts_total :
    (chats : Dict Chat) (t : String) (ids : List String)
    → ((cid : String) (c : Chat) → Dict.lookup cid chats ≡ some c → c.id ≡ cid)
    → All (Owned chats t) ids
    → (cs : List Chat) × (subscripts ids chats ≡ some cs)
      × (map (λ c. c.id) cs ≡ ids)
      × All (λ c. c.tenant_id ≡ t) cs
unfolding subscripts
subscripts_total chats t [] own h = ([], refl, refl, tt)
subscripts_total chats t (cid ∷ ids) own ((c, found, owner), h) =
    let (cs, all, same, owners) = subscripts_total chats t ids own h in
    (c ∷ cs, rw (found, all) refl, cc (own cid c found), (owner, owners))

map-take {ℓ κ} :
    {A : Type ℓ} {B : Type κ} (f : A → B) (n : ℕ) (xs : List A)
    → map f (take n xs) ≡ take n (map f xs)
map-take f zero xs = refl
map-take f (suc n) [] = refl
map-take f (suc n) (x ∷ xs) = ap (◌∷◌ (f x)) (map-take f n xs)

-- On a valid state a listing never raises and changes nothing. It holds the tenant's own chats and
-- no other's: those of the first `limit` ids of the tenant's index, in the order of the index.
pub list_chats_exact :
    (req : ListChatsRequest) (s : State)
    → IsValid s
    → (items : List Chat) × (list_chats req s ≡ (ok items, s))
      × (map (λ c. c.id) items ≡ take req.limit (ids_of req.tenant_id s))
      × All (λ c. c.tenant_id ≡ req.tenant_id) items
unfolding list_chats
list_chats_exact req s h =
    let (cs, all, same, owners) =
      subscripts_total s.chats req.tenant_id (ids_of req.tenant_id s) h.own_id
        (h.indexed req.tenant_id) in
    (
      take req.limit cs,
      rw all refl,
      map-take (λ c. c.id) req.limit cs ∙ ap (take req.limit) same,
      All-take (λ c. c.tenant_id ≡ req.tenant_id) req.limit cs owners,
    )

-- A new chat, under an id not in use, hides none of the old ones.
subscripts-insert :
    (chats : Dict Chat) (c : Chat) (t : String) (ids : List String)
    → Dict.lookup c.id chats ≡ none
    → All (Owned chats t) ids
    → subscripts ids (Dict.insert c.id c chats) ≡ subscripts ids chats
unfolding subscripts
subscripts-insert chats c t [] fresh h = refl
subscripts-insert chats c t (cid ∷ ids) fresh ((d, found, _), h) =
    let other : c.id ≢ cid = λ e. cc (ap (λ (j : String). Dict.lookup j chats) e) in
    rw (lookup-insert_ne c.id cid c chats other, subscripts-insert chats c t ids fresh h) refl

-- After a chat is created, under an id that is not in use, a listing of its tenant shows it first, and
-- then, in their old order, the chats that a listing before it showed whose limit was lower by one.
pub list_chats-create_chat :
    (chat_id : String) (now limit : ℕ) (req : CreateChatRequest) (s : State) (items : List Chat)
    → Dict.lookup chat_id s.chats ≡ none
    → str_eq req.tenant_id "" ≡ false
    → IsValid s
    → (list_chats (record { tenant_id = req.tenant_id; limit = limit }) s).0 ≡ ok items
    → (list_chats
        (record { tenant_id = req.tenant_id; limit = suc limit })
        (create_chat chat_id now req s).1).0
      ≡ ok (new_chat chat_id now req ∷ items)
unfolding list_chats create_chat subscripts
list_chats-create_chat chat_id now limit req s items fresh named h listed =
    let c : Chat = new_chat chat_id now req in
    let (cs, all, _, _) =
      subscripts_total s.chats req.tenant_id (ids_of req.tenant_id s) h.own_id
        (h.indexed req.tenant_id) in
    let before : ok (take limit cs) ≡ ok items = rw all at listed in
    let rest : subscripts (ids_of req.tenant_id s) (Dict.insert chat_id c s.chats) ≡ some cs =
      subscripts-insert s.chats c req.tenant_id (ids_of req.tenant_id s) fresh
        (h.indexed req.tenant_id)
      ∙ all in
    rw
      (
        named,
        lookup-insert_self req.tenant_id (chat_id ∷ ids_of req.tenant_id s) s.tenant_chat_ids,
        lookup-insert_self chat_id c s.chats,
        rest,
      )
      (cc before)
