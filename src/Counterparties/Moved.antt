-- ===== src/Counterparties/Moved.antt =====
-- Counterparties that move to a group.
use remote_order_server.Common.{
  ℕ, ◌≡◌, ◌↔◌, refl, sym, ap, subst, ◌∙◌, true, false, some, List, [], ◌∷◌, ◌==◌, find,
  find-update_where, exists_where, update_where, arith, Bool-cases, inl, inr, IsKey, Distinct,
  keys-update_where,
}
use remote_order_server.Db.{Group, Counterparty}
use remote_order_server.Counterparties.{
  PartyData, set_party, update_party, in_group, hierarchy, parties_of,
}
use remote_order_server.Counterparties.Below.{Below, has, passes, has-select}
use remote_order_server.Counterparties.Below.Tree.{Reach, hierarchy-Below}

in_group-has : (h : ℕ) (ids : List ℕ) → in_group ids (some h) ≡ has h ids
in_group-has h [] = refl
in_group-has h (i ∷ ids) = elim (Bool-cases (h == i)) [
  | inl e ↦ let flip : (i == h) ≡ true = ground arith in rw (in_group, exists_where, e, flip)
  | inr e ↦
      let flip : (i == h) ≡ false = ground arith in
      rw (in_group, exists_where, e, flip) (in_group-has h ids)
]

-- After PUT moved a counterparty to a group, the recursive query for a group finds the counterparty
-- just if its new group is that group or is below it, whatever requests made the groups.
pub update_party-parties_of :
    (groups : List Group) (g h id : ℕ) (d : PartyData) (parties : List Counterparty)
    (c : Counterparty)
    → Reach groups
    → IsKey (λ x. x.id) parties
    → find (λ x. x.id == id) parties ≡ some c
    → d.group_id ≡ some h
    → (has id (parties_of groups g (update_party id d parties).1) ≡ true) ↔ Below groups g h
unfolding update_party parties_of set_party
update_party-parties_of groups g h id d parties c r k f e =
    let after : List Counterparty = update_where (λ x. x.id == id) (set_party d) parties in
    let keys : IsKey (λ x. x.id) after =
      subst Distinct
        (sym (keys-update_where (λ x. x.id) (λ x. x.id == id) (set_party d) parties (λ x. refl)))
        k in
    let there : find (λ x. x.id == id) after ≡ some (set_party d c) =
      find-update_where (λ x. x.id == id) (set_party d) parties (λ x j. j) ∙ rw f in
    let query : has id (parties_of groups g after) ≡ has h (hierarchy groups g) =
      has-select (λ x. x.id) id (λ x. in_group (hierarchy groups g) x.group_id) after keys
      ∙ ap (passes (λ x. in_group (hierarchy groups g) x.group_id)) there
      ∙ ap (in_group (hierarchy groups g)) e
      ∙ in_group-has h (hierarchy groups g) in
    let in_tree = (hierarchy-Below groups g r).1 h in rw (update_party, f, query) in_tree
