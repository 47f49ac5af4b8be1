-- ===== src/Counterparties/Below.antt =====
-- The groups below a group: what the recursive query finds, and that it ends.
pub mod Tree
use remote_order_server.Common.{
  ℕ, suc, ◌≡◌, ◌≤◌, ◌⊎◌, ◌↔◌, refl, sym, ap, ap₂, subst, ◌∙◌, Bool, true, false, ◌||◌, Option, none,
  some, List, [], ◌∷◌, ◌++◌, map, ◌==◌, if◌then◌else◌, length, find, find-holds, find-none, select,
  opt_eq, All, arith, Bool-cases, Option-cases, inl, inr, IsKey, All-keys, ==_iff, ==_refl,
}
use Prim.Native.Nat.{zero}
use remote_order_server.Db.{Group}
use remote_order_server.Counterparties.{children, rounds, roots, hierarchy}

-- A group is below another if it is that group, or its parent is below it.
pub data Below (groups : List Group) (g : ℕ) : ℕ → Type 0 where
  itself : {x : Group} → find (λ y. y.id == g) groups ≡ some x → Below groups g g
  under :
      {c p : ℕ} {x : Group}
      → find (λ y. y.id == c) groups ≡ some x
      → x.parent_id ≡ some p
      → Below groups g p
      → Below groups g c

-- One of the ids.
abbrev pub has : ℕ → List ℕ → Bool
has c [] = false
has c (x ∷ xs) = x == c || has c xs

has-++ : (c : ℕ) (xs ys : List ℕ) → has c (xs ++ ys) ≡ (has c xs || has c ys)
has-++ c [] ys = refl
has-++ c (x ∷ xs) ys = elim (Bool-cases (x == c)) [ inl e ↦ rw e | inr e ↦ rw e (has-++ c xs ys) ]

-- The round after so many.
abbrev pub round : List Group → ℕ → List ℕ → List ℕ
round groups zero last = last
round groups (suc n) last = children groups (round groups n last)

-- A test of the row that is found.
abbrev pub passes : {A : Type 0} → (A → Bool) → Option A → Bool
passes q none = false
passes q (some x) = q x

-- The parent is one of the ids.
abbrev parent_in : List ℕ → Group → Bool
parent_in hs x = elim x.parent_id [ none ↦ false | some p ↦ has p hs ]

passes-none : (o : Option Group) → passes (parent_in []) o ≡ false
passes-none none = refl
passes-none (some x) = elim (Option-cases x.parent_id) [
  | inl e ↦ rw (parent_in, e)
  | inr (p, e) ↦ rw (parent_in, e)
]

==_flip : (a b : ℕ) → (a == b) ≡ (b == a)
==_flip a b = ground arith

passes-either :
    (h : ℕ) (hs : List ℕ) (o : Option Group)
    → (passes (λ x. opt_eq x.parent_id (some h)) o || passes (parent_in hs) o)
      ≡ passes (parent_in (h ∷ hs)) o
passes-either h hs none = refl
passes-either h hs (some x) = elim (Option-cases x.parent_id) [
  | inl e ↦ rw (parent_in, e)
  | inr (p, e) ↦ rw (parent_in, e) (ap (λ b. b || has p hs) (==_flip p h))
]

pub has-select :
    {A : Type 0} (key : A → ℕ) (c : ℕ) (q : A → Bool) (xs : List A)
    → IsKey key xs
    → has c (map key (select q xs)) ≡ passes q (find (λ x. key x == c) xs)
has-select key c q [] u = refl
has-select key c q (x ∷ xs) u = elim (Bool-cases (key x == c)) [
  | inl e ↦
      let absent = find-none (λ y. key y == c) xs (All-keys key (key x) c xs e u.0) in
      let rest : has c (map key (select q xs)) ≡ false = has-select key c q xs u.1 ∙ rw absent in
      elim (Bool-cases (q x)) [ inl k ↦ rw (e, k, e) | inr k ↦ rw (e, k) rest ]
  | inr e ↦ elim (Bool-cases (q x)) [
    | inl k ↦ rw (e, k, e) (has-select key c q xs u.1)
    | inr k ↦ rw (e, k) (has-select key c q xs u.1)
  ]
]

pub record HasParent (groups : List Group) (c : ℕ) (last : List ℕ) : Type 0 where
  pub row : Group
  pub parent : ℕ
  pub found : find (λ x. x.id == c) groups ≡ some row
  pub child : row.parent_id ≡ some parent
  pub before : has parent last ≡ true

module _ (groups : List Group) (keys : IsKey (λ x. x.id) groups) where
  has-children :
      (c : ℕ) (hs : List ℕ)
      → has c (children groups hs) ≡ passes (parent_in hs) (find (λ x. x.id == c) groups)
  unfolding children
  has-children c [] = sym (passes-none (find (λ x. x.id == c) groups))
  has-children c (h ∷ hs) =
      has-++ c (map (λ x. x.id) (select (λ x. opt_eq x.parent_id (some h)) groups))
        (children groups hs)
      ∙ ap₂ ◌||◌ (has-select (λ x. x.id) c (λ x. opt_eq x.parent_id (some h)) groups keys)
          (has-children c hs)
      ∙ passes-either h hs (find (λ x. x.id == c) groups)

  has-roots :
      (c g : ℕ) → has c (roots groups g) ≡ passes (λ x. x.id == g) (find (λ x. x.id == c) groups)
  unfolding roots
  has-roots c g = has-select (λ x. x.id) c (λ x. x.id == g) groups keys

  -- What a later round has is a group whose parent is in the round before.
  pub round-parent :
      (g n c : ℕ)
      → has c (round groups (suc n) (roots groups g)) ≡ true
      → HasParent groups c (round groups n (roots groups g))
  round-parent g n c h =
      let last : List ℕ = round groups n (roots groups g) in
      let test : passes (parent_in last) (find (λ x. x.id == c) groups) ≡ true =
        sym (has-children c last) ∙ h in
      elim (Option-cases (find (λ x. x.id == c) groups)) [
        | inl e ↦ cc (sym test ∙ ap (passes (parent_in last)) e)
        | inr (x, e) ↦
            let own : parent_in last x ≡ true = sym (ap (passes (parent_in last)) e) ∙ test in
            elim (Option-cases x.parent_id) [
              | inl f ↦ cc (rw (parent_in, f) at own)
              | inr (p, f) ↦ record {
                row = x;
                parent = p;
                found = e;
                child = f;
                before = rw (parent_in, f) at own;
              }
            ]
      ]

  -- What a round has is below the group.
  round-Below : (g n c : ℕ) → has c (round groups n (roots groups g)) ≡ true → Below groups g c
  round-Below g zero c h = elim (Option-cases (find (λ x. x.id == c) groups)) [
    | inl e ↦ cc (sym h ∙ has-roots c g ∙ ap (passes (λ x. x.id == g)) e)
    | inr (x, e) ↦
        let own : x.id ≡ c = (==_iff x.id c).0 (find-holds (λ y. y.id == c) groups e) in
        let top : (x.id == g) ≡ true = sym (has-roots c g ∙ ap (passes (λ y. y.id == g)) e) ∙ h in
        let same : g ≡ c = sym ((==_iff x.id g).0 top) ∙ own in
        subst (λ d. Below groups g d) same
          (itself (subst (λ d. find (λ y. y.id == d) groups ≡ some x) (sym same) e))
  ]
  round-Below g (suc n) c h =
      let r = round-parent g n c h in under r.found r.child (round-Below g n r.parent r.before)

  Below-round :
      (g c : ℕ) → Below groups g c → (n : ℕ) × (has c (round groups n (roots groups g)) ≡ true)
  Below-round g c (itself {x = x} e) =
      (0, has-roots g g ∙ ap (passes (λ y. y.id == g)) e ∙ find-holds (λ y. y.id == g) groups e)
  Below-round g c (under {x = x} e f b) =
      let (n, h) = Below-round g _ b in
      (
        suc n,
        has-children c _
            ∙ ap (passes (parent_in (round groups n (roots groups g)))) e
            ∙ rw (parent_in, f) h,
      )

round-children :
    (groups : List Group) (n : ℕ) (last : List ℕ)
    → round groups n (children groups last) ≡ round groups (suc n) last
round-children groups zero last = refl
round-children groups (suc n) last = ap (children groups) (round-children groups n last)

-- The rounds, one by one.
rounds-round :
    (groups : List Group) (n c : ℕ) (last : List ℕ)
    → has c (rounds groups n last) ≡ true
    → (k : ℕ) × (has c (round groups k last) ≡ true)
unfolding rounds
rounds-round groups zero c last h = cc h
rounds-round groups (suc n) c last h = elim (Bool-cases (has c last)) [
  | inl e ↦ (0, e)
  | inr e ↦
      let (k, r) =
        rounds-round groups n c (children groups last) (sym (has-++ c last _ ∙ rw e) ∙ h) in
      (suc k, subst (λ xs. has c xs ≡ true) (round-children groups k last) r)
]

or_true : (b : Bool) → (b || true) ≡ true
or_true true = refl
or_true false = refl

round-rounds :
    (groups : List Group) (n k c : ℕ) (last : List ℕ)
    → suc k ≤ n
    → has c (round groups k last) ≡ true
    → has c (rounds groups n last) ≡ true
unfolding rounds
round-rounds groups zero k c last l h = ground arith
round-rounds groups (suc n) zero c last l h = has-++ c last _ ∙ rw h
round-rounds groups (suc n) (suc k) c last l h =
    has-++ c last _
    ∙ ap (λ b. has c last || b)
        (round-rounds groups n k c (children groups last) (omega arith)
          (subst (λ xs. has c xs ≡ true) (sym (round-children groups k last)) h))
    ∙ or_true (has c last)
