-- ===== src/Reports/Movement/Joined.antt =====
-- Sums over what the joins of the movement find.
use remote_order_server.Common.{
  ◌≡◌, refl, sym, ap, subst, ◌∙◌, Bool, true, false, ◌&&◌, Option, none, some, List, [], ◌∷◌,
  if◌then◌else◌, find, sum_by, All, arith, Bool-cases, Option-cases, inl, inr,
}
use remote_order_server.Common.Int.{ℤ, pos, zero-+ℤ, ◌+ℤ◌, ◌-ℤ◌, int_laws}
use remote_order_server.Reports.Movement.{joined}

-- The weight of what a join finds.
abbrev pub if_found : {B : Type 0} → (B → ℤ) → Option B → ℤ
if_found v none = pos 0
if_found v (some y) = v y

pub sum_by-joined :
    {A B : Type 0} (f : A → Option B) (v : B → ℤ) (xs : List A)
    → sum_by v (joined f xs) ≡ sum_by (λ x. if_found v (f x)) xs
unfolding joined
sum_by-joined f v [] = refl
sum_by-joined f v (x ∷ xs) = elim (Option-cases (f x)) [
  | inl e ↦ rw (joined, e) (sum_by-joined f v xs ∙ sym (zero-+ℤ _))
  | inr (y, e) ↦ rw (joined, e) (ap (λ n. v y +ℤ n) (sum_by-joined f v xs))
]

-- What was found is of the list.
pub find-All :
    {A : Type 0} (P : A → Type 0) (c : A → Bool) (xs : List A) {x : A}
    → find c xs ≡ some x
    → All P xs
    → P x
find-All P c [] e h = cc
find-All P c (y ∷ ys) {x} e h = elim (Bool-cases (c y)) [
  | inl k ↦ subst P (ground arith) h.0
  | inr k ↦ find-All P c ys (rw k at e) h.1
]

pub inside :
    (a b : Bool) (n : ℤ)
    → (if a then (if b then n else pos 0) else pos 0)
      ≡ (if b && true then (if a then n else pos 0) else pos 0)
inside true true n = refl
inside true false n = refl
inside false true n = refl
inside false false n = refl

pub nested :
    (a b : Bool) (n : ℤ)
    → (if a then (if b then n else pos 0) else pos 0) ≡ (if a && b then n else pos 0)
nested true b n = refl
nested false b n = refl

pub in_order :
    (a b : Bool) (n : ℤ)
    → (if a then (if b then n else pos 0) else pos 0)
      ≡ (if a && true then (if b && true then n else pos 0) else pos 0)
in_order true true n = refl
in_order true false n = refl
in_order false b n = refl

pub outside : (b : Bool) (n : ℤ) → (if b && false then n else pos 0) ≡ pos 0
outside true n = refl
outside false n = refl

pub split_row :
    (a s : Bool) (i g h : ℤ)
    → (if s then (if a && s then i -ℤ (g +ℤ h) else pos 0) else pos 0)
      ≡ (if a && s then i else pos 0)
        -ℤ ((if a && s then g else pos 0) +ℤ (if a && s then h else pos 0))
split_row true true i g h = refl
split_row true false i g h = omega int_laws
split_row false true i g h = omega int_laws
split_row false false i g h = omega int_laws
