-- ===== src/PriceTypes/Removed.antt =====
-- What becomes of a price type that is deleted, and of its slug.
use remote_order_server.Common.{
  ℕ, ◌≡◌, subst, true, false, not, ◌&&◌, List, [], ◌∷◌, ◌==◌, All, Bool-cases, inl, inr, some, find,
  update_where, exists_where, text_eq, order_by-All, select, text_eq_refl, arith,
}
use remote_order_server.Auth.{truthy}
use remote_order_server.PriceTypes.{TypeRow, TypeData, create, remove, listed, slug_exists}

abbrev as_deleted : ℕ → TypeRow → TypeRow
as_deleted now t = record t { deleted = true; updated_at = now }

deleted_unlisted :
    (now id : ℕ) (ts : List TypeRow)
    → All
        (λ u. (u.id == id) ≡ false)
        (select (λ t. not t.deleted) (update_where (λ t. t.id == id) (as_deleted now) ts))
deleted_unlisted now id [] = tt
deleted_unlisted now id (t ∷ ts) = elim (Bool-cases (t.id == id)) [
  | inl e ↦ rw e (deleted_unlisted now id ts)
  | inr e ↦ rw e (elim (Bool-cases t.deleted) [
    | inl k ↦ rw k (deleted_unlisted now id ts)
    | inr k ↦ rw k (e, deleted_unlisted now id ts)
  ])
]

deleted_occupies :
    (now id : ℕ) (ts : List TypeRow) {t : TypeRow}
    → find (λ u. u.id == id) ts ≡ some t
    → exists_where (λ u. text_eq u.slug t.slug) (update_where (λ u. u.id == id) (as_deleted now) ts)
      ≡ true
deleted_occupies now id [] f = cc
deleted_occupies now id (u ∷ ts) {t} f = elim (Bool-cases (u.id == id)) [
  | inl e ↦
      let same : u ≡ t = ground arith in
      let own : text_eq u.slug t.slug ≡ true =
        subst (λ x. text_eq u.slug x.slug ≡ true) same (text_eq_refl u.slug) in
      rw (exists_where, e, own)
  | inr e ↦ elim (Bool-cases (text_eq u.slug t.slug)) [
    | inl k ↦ rw (exists_where, e, k)
    | inr k ↦ rw (exists_where, e, k) (deleted_occupies now id ts (rw e at f))
  ]
]

-- A price type that was deleted is not listed any more, and yet POST with a name and its slug is
-- refused, and changes nothing.
pub remove-create :
    (now later id new : ℕ) (d : TypeData) (ts : List TypeRow) {t : TypeRow}
    → find (λ u. u.id == id) ts ≡ some t
    → d.slug ≡ some t.slug
    → truthy d.name && truthy d.slug ≡ true
    → All (λ u. (u.id == id) ≡ false) (listed (remove now id ts).1)
      × (create later new d (remove now id ts).1 ≡ (slug_exists, (remove now id ts).1))
unfolding listed remove create
remove-create now later id new d ts f s full =
    (order_by-All _ _ _ (deleted_unlisted now id ts), rw (full, s, deleted_occupies now id ts f))
