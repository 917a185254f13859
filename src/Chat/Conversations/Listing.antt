-- ===== src/Chat/Conversations/Listing.antt =====
-- Which conversations `listConversations` shows.
use market_place.Base.{
  ℕ, ◌≡◌, ◌≢◌, true, false, Option, none, some, arith, All, All-find_all, All-order_desc, All-take,
  All-drop, is_some,
}
use market_place.Store.{Db, Product, Conversation}
use market_place.Chat.Guards.Access.{MayUse}
use market_place.Chat.Conversations.{
  Scope, everything, buy, sell, joined_product, in_scope, is_listed, listed, last_activity,
  owned_by,
}

-- Who owns the product that the conversation is about.
abbrev pub OwnerIs : (ℕ → Type 0) → Option Product → Type 0
OwnerIs P none = ⊥
OwnerIs P (some p) = P p.owner_id

-- What a scope promises: "sell" shows the user's own products, "buy" those of others.
abbrev pub FitsScope : Scope → ℕ → Db → Conversation → Type 0
FitsScope everything user_id d c = Unit
FitsScope buy user_id d c = OwnerIs (λ o. o ≢ user_id) (joined_product c.product_id d.products)
FitsScope sell user_id d c = OwnerIs (λ o. o ≡ user_id) (joined_product c.product_id d.products)

sold_by :
    (p : Option Product) (user_id : ℕ) → owned_by p user_id ≡ true → OwnerIs (λ o. o ≡ user_id) p
sold_by none user_id h = cc
sold_by (some p) user_id h = ground (arith, h)

bought_from :
    (p : Option Product) (user_id : ℕ)
    → is_some p ≡ true
    → owned_by p user_id ≡ false
    → OwnerIs (λ o. o ≢ user_id) p
bought_from none user_id h k = cc
bought_from (some p) user_id h k = ground (arith, k)

in_scope-FitsScope :
    (scope : Scope) (user_id : ℕ) (d : Db) (c : Conversation)
    → in_scope scope user_id d c ≡ true
    → FitsScope scope user_id d c
unfolding in_scope
in_scope-FitsScope everything user_id d c h = tt
in_scope-FitsScope buy user_id d c h =
    bought_from (joined_product c.product_id d.products) user_id (ground (arith, h))
      (ground (arith, h))
in_scope-FitsScope sell user_id d c h =
    sold_by (joined_product c.product_id d.products) user_id (ground (arith, h))

-- Every conversation that is listed is one that the user may open, with no block on either side,
-- and is about a product of the asked kind: the user's own for "sell", another's for "buy".
pub listed-MayUse :
    (user_id : ℕ) (scope : Scope) (limit offset : ℕ) (d : Db)
    → All
        (λ c. MayUse user_id c d.blocks × FitsScope scope user_id d c)
        (listed user_id scope limit offset d)
unfolding listed
listed-MayUse user_id scope limit offset d = All-take Shown limit _ (
    All-drop Shown offset _ (
      All-order_desc Shown (last_activity d) _ (
        All-find_all Shown (is_listed scope user_id d) d.conversations (λ c h.
          unfold is_listed in
          (ground (arith, h), in_scope-FitsScope scope user_id d c (ground (arith, h)))))))
  where
    Shown : Conversation → Type 0
    Shown c = MayUse user_id c d.blocks × FitsScope scope user_id d c
