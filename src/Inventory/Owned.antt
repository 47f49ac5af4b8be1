-- ===== src/Inventory/Owned.antt =====
-- The links of one document: those that it gets when it is posted, and that unposting gives back.
use remote_order_server.Common.{
  ℕ, ◌≡◌, ap₂, ◌∙◌, true, not, ◌&&◌, List, [], ◌∷◌, ◌++◌, map, arith, All, All-imp, ◌==◌, select,
  delete_where, exists_where, Bool-cases, inl, inr, select-append, select_every, select-none,
  delete_where-none, map-id, map-map,
}
use remote_order_server.Common.Int.{sub-add_cancel}
use mathlib.Core.List.{append-nil}
use remote_order_server.Db.{Item, ItemBatch, ProductBatch}
use remote_order_server.Inventory.{is_of_doc, return_loop}
use remote_order_server.Inventory.Links.{less_used}
use remote_order_server.Inventory.Return.{with_used, return_loop-eq-map}
use remote_order_server.Inventory.Totals.{used}

-- Giving back what was taken leaves the batches as they were.
pub return_loop-less_used :
    (ls : List ItemBatch) (table : List ProductBatch)
    → return_loop ls (map (less_used ls) table) ≡ table
return_loop-less_used ls table =
    return_loop-eq-map ls (map (less_used ls) table)
    ∙ map-map (with_used ls) (less_used ls) table
    ∙ map-id _ table (λ b. ground (arith, sub-add_cancel b.quantity_left (used b.id ls)))

-- The items of a document are found by the join.
abbrev pub IsItemOf : List Item → ℕ → ℕ → Type 0
IsItemOf items id i = exists_where (λ k. k.id == i && k.doc_id == id) items ≡ true

exists-cons :
    (i id : ℕ) (k : Item) (items : List Item) → IsItemOf items id i → IsItemOf (k ∷ items) id i
exists-cons i id k items h = ground arith

pub items_of-owned :
    (id : ℕ) (items : List Item)
    → All (λ i. IsItemOf items id i.id) (select (λ i. i.doc_id == id) items)
items_of-owned id [] = tt
items_of-owned id (k ∷ items) =
    let rest : All (λ i. IsItemOf (k ∷ items) id i.id) (select (λ i. i.doc_id == id) items) =
      All-imp _ _ (select (λ i. i.doc_id == id) items)
        (λ i (h : IsItemOf items id i.id). exists-cons i.id id k items h)
        (items_of-owned id items) in
    elim (Bool-cases (k.doc_id == id)) [ inl e ↦ rw e (own e, rest) | inr e ↦ rw e rest ]
  where
    own : (k.doc_id == id) ≡ true → IsItemOf (k ∷ items) id k.id
    own e = ground arith

module _ (items : List Item) (id : ℕ) (links ls : List ItemBatch)
    (fresh : select (is_of_doc items id) links ≡ [])
    (owned : All (λ l. IsItemOf items id l.item_id) ls) where
  pub own_links : select (is_of_doc items id) (links ++ ls) ≡ ls
  unfolding is_of_doc
  own_links =
      select-append (is_of_doc items id) links ls
      ∙ ap₂ ◌++◌ fresh (select_every (is_of_doc items id) ls owned)

  pub other_links : delete_where (is_of_doc items id) (links ++ ls) ≡ links
  unfolding is_of_doc
  other_links =
      select-append (λ l. not (is_of_doc items id l)) links ls
      ∙ ap₂ ◌++◌ (delete_where-none (is_of_doc items id) links fresh) (
          select-none (λ l. not (is_of_doc items id l)) ls
            (All-imp _ _ ls (λ l (h : is_of_doc items id l ≡ true). rw h) owned))
      ∙ append-nil links
