-- ===== src/Common/Sql.antt =====
-- What the queries use of SQL: tables are lists of rows, in the order of insertion. ORDER BY is a
-- stable sort; PostgreSQL leaves the order of rows with equal keys open.
use remote_order_server.Common.Tests.{if◌then◌else◌, Bool-cases}
use remote_order_server.Common.Lists.{All}
use mathlib.Core.Path.{◌≡◌, refl, ap}
use mathlib.Core.Logic.{inl, inr}
use mathlib.Core.Option
use mathlib.Core.Bool.{Bool, true, false, not}
use mathlib.Core.Option.{Option, none, some}
use mathlib.Core.List.{List, [], ◌∷◌, ◌++◌, map}
use native.Mathlib.Omega.{arith}

module _ {ℓ} {A : Type ℓ} where
  -- SELECT … WHERE p
  abbrev pub select : (A → Bool) → List A → List A
  select p [] = []
  select p (x ∷ xs) = let rest = select p xs in if p x then x ∷ rest else rest

  -- DELETE … WHERE p
  abbrev pub delete_where : (A → Bool) → List A → List A
  delete_where p = select (λ x. not (p x))

  -- UPDATE … SET f WHERE p
  abbrev pub update_where : (A → Bool) → (A → A) → List A → List A
  update_where p f = map (λ x. if p x then f x else x)

  -- rows[0] of a SELECT … WHERE p
  abbrev pub find : (A → Bool) → List A → Option A
  find p [] = none
  find p (x ∷ xs) = if p x then some x else find p xs

  abbrev pub exists_where : (A → Bool) → List A → Bool
  exists_where p xs = elim (find p xs) [ none ↦ false | some _ ↦ true ]

  unfoldable pub insert_by : (A → A → Bool) → A → List A → List A
  insert_by before x [] = x ∷ []
  insert_by before x (y ∷ ys) =
      let rest = insert_by before x ys in if before y x then y ∷ rest else x ∷ y ∷ ys

  -- ORDER BY, where `before a b` says that `a` has to come first.
  unfoldable pub order_by : (A → A → Bool) → List A → List A
  unfolding insert_by
  order_by before [] = []
  order_by before (x ∷ xs) = insert_by before x (order_by before xs)

  pub find-update_where :
      (p : A → Bool) (f : A → A) (xs : List A)
      → ((x : A) → p x ≡ true → p (f x) ≡ true)
      → find p (update_where p f xs) ≡ Option.map f (find p xs)
  find-update_where p f [] h = refl
  find-update_where p f (x ∷ xs) h = elim (Bool-cases (p x)) [
    | inl e ↦ rw (e, h x e)
    | inr e ↦ rw (e, e) (find-update_where p f xs h)
  ]

  pub find-holds : (p : A → Bool) (xs : List A) {x : A} → find p xs ≡ some x → p x ≡ true
  find-holds p [] e = cc
  find-holds p (y ∷ ys) {x} e = ground (arith, find-holds p ys {x = x})

  pub select-append :
      (p : A → Bool) (xs ys : List A) → select p (xs ++ ys) ≡ select p xs ++ select p ys
  select-append p [] ys = refl
  select-append p (x ∷ xs) ys = ground (arith, select-append p xs ys)

  pub select_every : (p : A → Bool) (xs : List A) → All (λ x. p x ≡ true) xs → select p xs ≡ xs
  select_every p [] h = refl
  select_every p (x ∷ xs) h = rw (h.0, select_every p xs h.1)

  pub select-none : (p : A → Bool) (xs : List A) → All (λ x. p x ≡ false) xs → select p xs ≡ []
  select-none p [] h = refl
  select-none p (x ∷ xs) h = rw (h.0, select-none p xs h.1)

  -- Where a WHERE clause finds nothing, a DELETE removes nothing.
  pub delete_where-none : (p : A → Bool) (xs : List A) → select p xs ≡ [] → delete_where p xs ≡ xs
  delete_where-none p [] h = refl
  delete_where-none p (x ∷ xs) h = elim (Bool-cases (p x)) [
    | inl e ↦ cc (rw e at h)
    | inr e ↦ rw e (ap (λ r. x ∷ r) (delete_where-none p xs (rw e at h)))
  ]

  pub All-false_of_select :
      (p : A → Bool) (xs : List A) → select p xs ≡ [] → All (λ x. p x ≡ false) xs
  All-false_of_select p [] h = tt
  All-false_of_select p (x ∷ xs) h = elim (Bool-cases (p x)) [
    | inl e ↦ cc (rw e at h)
    | inr e ↦ (e, All-false_of_select p xs (rw e at h))
  ]

  pub find-none : (p : A → Bool) (xs : List A) → All (λ x. p x ≡ false) xs → find p xs ≡ none
  find-none p [] h = refl
  find-none p (x ∷ xs) h = rw h.0 (find-none p xs h.1)

  pub exists-none :
      (p : A → Bool) (xs : List A) → All (λ x. p x ≡ false) xs → exists_where p xs ≡ false
  exists-none p xs h = rw (find-none p xs h, exists_where)

  -- What is found is found before any row that is added.
  pub find-append :
      (p : A → Bool) (xs ys : List A) {x : A} → find p xs ≡ some x → find p (xs ++ ys) ≡ some x
  find-append p [] ys e = cc
  find-append p (y ∷ xs) ys {x} e = ground (arith, find-append p xs ys {x = x})

  -- An UPDATE of other rows, that stay other rows, changes nothing that is found.
  pub find-update_other :
      (p q : A → Bool) (f : A → A) (xs : List A)
      → ((x : A) → q x ≡ true → (p x ≡ false) × (p (f x) ≡ false))
      → find p (update_where q f xs) ≡ find p xs
  find-update_other p q f [] h = refl
  find-update_other p q f (x ∷ xs) h = elim (Bool-cases (q x)) [
    | inl e ↦ rw (e, (h x e).0, (h x e).1) (find-update_other p q f xs h)
    | inr e ↦ rw (e, find-update_other p q f xs h)
  ]

  -- A DELETE of other rows changes nothing that is selected.
  pub select-delete_other :
      (p q : A → Bool) (xs : List A)
      → ((x : A) → q x ≡ true → p x ≡ false)
      → select p (delete_where q xs) ≡ select p xs
  select-delete_other p q [] h = refl
  select-delete_other p q (x ∷ xs) h = elim (Bool-cases (q x)) [
    | inl e ↦ rw (e, h x e) (select-delete_other p q xs h)
    | inr e ↦ rw (e, select-delete_other p q xs h)
  ]

  -- The row that is added is found where none was.
  pub find-last :
      (p : A → Bool) (xs : List A) (x : A)
      → find p xs ≡ none
      → p x ≡ true
      → find p (xs ++ x ∷ []) ≡ some x
  find-last p [] x h k = rw k
  find-last p (y ∷ ys) x h k = ground (arith, find-last p ys x)

  pub find-none_All : (p : A → Bool) (xs : List A) → find p xs ≡ none → All (λ x. p x ≡ false) xs
  find-none_All p [] e = tt
  find-none_All p (y ∷ ys) e = elim (Bool-cases (p y)) [
    | inl k ↦ cc (rw k at e)
    | inr k ↦ (k, find-none_All p ys (rw k at e))
  ]

  -- A DELETE leaves no row that it is for.
  pub select-deleted : (p : A → Bool) (xs : List A) → select p (delete_where p xs) ≡ []
  select-deleted p [] = refl
  select-deleted p (x ∷ xs) = elim (Bool-cases (p x)) [
    | inl e ↦ rw e (select-deleted p xs)
    | inr e ↦ rw (e, e) (select-deleted p xs)
  ]
