-- ===== src/Counterparties/Below/Tree.antt =====
-- The groups are a tree whatever requests made them, so that the recursive query ends.
use remote_order_server.Common.{
  keys-append, find-none_All, ℕ, zero, suc, ◌≡◌, ◌≤◌, ◌<◌, ◌⊎◌, ◌↔◌, refl, sym, ap, subst, ◌∙◌,
  Bool, true, none, some, List, [], ◌∷◌, ◌++◌, ◌==◌, if◌then◌else◌, length, find, find-append,
  exists_where, arith, Bool-cases, Option-cases, inl, inr, IsKey, ==_iff, ==_refl,
}
use remote_order_server.Auth.{truthy}
use remote_order_server.Db.{Group}
use remote_order_server.Counterparties.{GroupData, new_group, create_group, roots, hierarchy}
use remote_order_server.Counterparties.Below.{
  Below, has, round, passes, has-roots, round-parent, round-Below, Below-round, rounds-round,
  round-rounds,
}

-- The tables that requests make from an empty one, where the ids of the database are new.
pub data Reach : List Group → Type 0 where
  start : Reach []
  posts :
      {groups : List Group} (id : ℕ) (d : GroupData)
      → Reach groups
      → find (λ x. x.id == id) groups ≡ none
      → Reach (create_group id d groups).1

-- Every group stands higher than its parent, which is there.
record IsTree (groups : List Group) : Type 0 where
  keys : IsKey (λ x. x.id) groups
  rank : ℕ → ℕ
  bound : (c : ℕ) (x : Group) → find (λ y. y.id == c) groups ≡ some x → rank c < length groups
  grows :
      (c p : ℕ) (x : Group)
      → find (λ y. y.id == c) groups ≡ some x
      → x.parent_id ≡ some p
      → (rank p < rank c) × (exists_where (λ y. y.id == p) groups ≡ true)

module _ (groups : List Group) (t : IsTree groups) (g : ℕ) where
  round-rank :
      (n c : ℕ)
      → has c (round groups n (roots groups g)) ≡ true
      → (n ≤ t.rank c) × (t.rank c < length groups)
  round-rank zero c h = elim (Option-cases (find (λ x. x.id == c) groups)) [
    | inl e ↦ cc (sym h ∙ has-roots groups t.keys c g ∙ ap (passes (λ x. x.id == g)) e)
    | inr (x, e) ↦ (omega arith, t.bound c x e)
  ]
  round-rank (suc n) c h =
      let r = round-parent groups t.keys g n c h in
      let above = round-rank n r.parent r.before in
      (
        omega (arith, above.0, (t.grows c r.parent r.row r.found r.child).0),
        t.bound c r.row r.found,
      )

  nothing : (xs : List ℕ) → ((c : ℕ) → has c xs ≡ true → length groups < length groups) → xs ≡ []
  nothing [] h = refl
  nothing (x ∷ xs) h = ground (arith, h x (rw (==_refl x)))

  -- After as many rounds as there are groups, nothing is left.
  rounds_end : round groups (length groups) (roots groups g) ≡ []
  rounds_end = nothing _ (λ c h. omega (arith, round-rank (length groups) c h))

  hierarchy-Below_iff : (c : ℕ) → (has c (hierarchy groups g) ≡ true) ↔ Below groups g c
  unfolding hierarchy
  hierarchy-Below_iff c = (
    λ h.
        (let (k, r) = rounds-round groups (length groups) c (roots groups g) h in
          round-Below groups t.keys g k c r),
    λ b.
        (let (k, r) = Below-round groups t.keys g c b in
          round-rounds groups (length groups) k c (roots groups g) (omega (arith, round-rank k c r))
            r),
  )

length-snoc :
    (groups : List Group) (new : Group) → length (groups ++ new ∷ []) ≡ suc (length groups)
length-snoc [] new = refl
length-snoc (x ∷ xs) new = ap suc (length-snoc xs new)

-- What is found after a row was added is the row, or was found before.
find-snoc :
    (c : ℕ) (new x : Group) (groups : List Group)
    → find (λ y. y.id == c) (groups ++ new ∷ []) ≡ some x
    → (find (λ y. y.id == c) groups ≡ some x) ⊎ ((new.id ≡ c) × (x ≡ new))
find-snoc c new x [] h = elim (Bool-cases (new.id == c)) [
  | inl e ↦ inr ((==_iff new.id c).0 e, ground (arith, rw e at h))
  | inr e ↦ cc (rw e at h)
]
find-snoc c new x (y ∷ ys) h = elim (Bool-cases (y.id == c)) [
  | inl e ↦ inl (rw e (rw e at h))
  | inr e ↦ rw e (find-snoc c new x ys (rw e at h))
]

exists-snoc :
    (p : Group → Bool) (groups : List Group) (new : Group)
    → exists_where p groups ≡ true
    → exists_where p (groups ++ new ∷ []) ≡ true
exists-snoc p groups new h = elim (Option-cases (find p groups)) [
  | inl e ↦ cc (rw (exists_where, e) at h)
  | inr (x, e) ↦ rw (exists_where, find-append p groups (new ∷ []) e)
]

module _ (groups : List Group) (t : IsTree groups) (new : Group)
    (fresh : find (λ x. x.id == new.id) groups ≡ none) where
  abbrev higher : ℕ → ℕ
  higher c = if c == new.id then length groups else t.rank c

  old-rank : (c : ℕ) (x : Group) → find (λ y. y.id == c) groups ≡ some x → higher c ≡ t.rank c
  old-rank c x e = elim (Bool-cases (c == new.id)) [
    | inl k ↦
        cc (
          sym (subst (λ d. find (λ y. y.id == d) groups ≡ some x) ((==_iff c new.id).0 k) e)
          ∙ fresh)
    | inr k ↦ rw (higher, k)
  ]

  found_of :
      (p : ℕ)
      → exists_where (λ y. y.id == p) groups ≡ true
      → (x : Group) × (find (λ y. y.id == p) groups ≡ some x)
  found_of p h = elim (Option-cases (find (λ y. y.id == p) groups)) [
    | inl e ↦ cc (rw (exists_where, e) at h)
    | inr w ↦ w
  ]

  snoc-IsTree :
      ((p : ℕ) → new.parent_id ≡ some p → exists_where (λ y. y.id == p) groups ≡ true)
      → IsTree (groups ++ new ∷ [])
  snoc-IsTree h = record {
    keys =
        keys-append (λ x. x.id) new groups (find-none_All (λ x. x.id == new.id) groups fresh)
          t.keys;
    rank = higher;
    bound = λ c x e. elim (find-snoc c new x groups e) [
      | inl f ↦ omega (arith, t.bound c x f, old-rank c x f, length-snoc groups new)
      | inr (own, same) ↦
          let top : higher c ≡ length groups = rw (higher, sym own, ==_refl new.id) in
          omega (arith, top, length-snoc groups new)
    ];
    grows = λ c p x e k. elim (find-snoc c new x groups e) [
      | inl f ↦
          let up = t.grows c p x f k in
          let (y, there) = found_of p up.1 in
          (
            omega (arith, up.0, old-rank c x f, old-rank p y there),
            exists-snoc (λ z. z.id == p) groups new up.1,
          )
      | inr (own, same) ↦
          let parent = h p (sym (ap (λ (z : Group). z.parent_id) same) ∙ k) in
          let (y, there) = found_of p parent in
          let top : higher c ≡ length groups = rw (higher, sym own, ==_refl new.id) in
          (
            omega (arith, t.bound p y there, old-rank p y there, top),
            exists-snoc (λ z. z.id == p) groups new parent,
          )
    ];
  }

parent_there :
    (groups : List Group) (p q : ℕ)
    → some p ≡ some q
    → exists_where (λ x. x.id == p) groups ≡ true
    → exists_where (λ x. x.id == q) groups ≡ true
parent_there groups p q e h = ground arith

Reach-IsTree : (groups : List Group) → Reach groups → IsTree groups
unfolding create_group
Reach-IsTree _ start = record {
  keys = tt;
  rank = λ c. 0;
  bound = λ c x e. cc e;
  grows = λ c p x e. cc e;
}
Reach-IsTree _ (posts {groups} id d r fresh) = elim (Bool-cases (truthy d.name)) [
  | inr e ↦ rw (create_group, e) (Reach-IsTree groups r)
  | inl e ↦ elim (Option-cases d.parent_id) [
    | inl f ↦
        rw (create_group, e, f)
          (snoc-IsTree groups (Reach-IsTree groups r) (new_group id d) fresh
            (λ p k. cc (sym k ∙ f)))
    | inr (p, f) ↦ elim (Bool-cases (exists_where (λ x. x.id == p) groups)) [
      | inl k ↦
          rw (create_group, e, f, k)
            (snoc-IsTree groups (Reach-IsTree groups r) (new_group id d) fresh
              (λ q j. parent_there groups p q (sym f ∙ j) k))
      | inr k ↦ rw (create_group, e, f, k) (Reach-IsTree groups r)
    ]
  ]
]

-- Whatever requests made the groups, the recursive query for a group ends: after as many rounds as there
-- are groups, nothing is left. And it finds a group just if this is the group, or its parent, or the
-- parent of that, and so on, is.
pub hierarchy-Below :
    (groups : List Group) (g : ℕ)
    → Reach groups
    → (round groups (length groups) (roots groups g) ≡ [])
      × ((c : ℕ) → (has c (hierarchy groups g) ≡ true) ↔ Below groups g c)
hierarchy-Below groups g r =
    let t : IsTree groups = Reach-IsTree groups r in
    (rounds_end groups t g, hierarchy-Below_iff groups t g)
