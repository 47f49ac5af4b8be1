-- ===== src/Schedule/Valid.antt =====
-- The schedule as a state machine: each request is a step.
use remote_order_server.Common.{
  Option, ◌&&◌, arith, ℕ, ◌≡◌, refl, Bool, true, not, List, [], ◌∷◌, ◌==◌, All, All-append,
  select-All, Option-cases, Bool-cases, inl, inr, find, update_where, Text, text_eq,
}
use remote_order_server.Schedule.{
  Visit, is_client, is_status, is_day, add, update_visit, set_status, set_day, remove,
}

-- What a request does to the schedule.
pub data Step : List Visit → List Visit → Type 0 where
  adds :
      (counterparties : List ℕ) (id : ℕ) (day client : Option ℕ) (vs : List Visit)
      → Step vs (add counterparties id day client vs).1
  sets_status : (t : Text) (id : ℕ) (vs : List Visit) → Step vs (set_status t id vs).1
  sets_day : (day : Option ℕ) (id : ℕ) (vs : List Visit) → Step vs (set_day day id vs).1
  removes : (id : ℕ) (vs : List Visit) → Step vs (remove id vs).1

pub data Reach : List Visit → List Visit → Type 0 where
  here : {vs : List Visit} → Reach vs vs
  step : {vs ws us : List Visit} → Reach vs ws → Step ws us → Reach vs us

-- A visit is planned, in progress or done, on a day from 1 to 7 or on none.
abbrev pub IsVisit : Visit → Type 0
IsVisit v = (is_status v.status ≡ true) × (is_day v.day_of_week ≡ true)

abbrev pub IsValid : List Visit → Type 0
IsValid = All IsVisit

update_where-All :
    {A : Type 0} (P : A → Type 0) (p : A → Bool) (f : A → A) (xs : List A)
    → ((x : A) → P x → P (f x))
    → All P xs
    → All P (update_where p f xs)
update_where-All P p f [] k h = tt
update_where-All P p f (x ∷ xs) k h = elim (Bool-cases (p x)) [
  | inl e ↦ rw e (k x h.0, update_where-All P p f xs k h.1)
  | inr e ↦ rw e (h.0, update_where-All P p f xs k h.1)
]

update_visit-IsValid :
    (f : Visit → Visit) (id : ℕ) (vs : List Visit)
    → ((v : Visit) → IsVisit v → IsVisit (f v))
    → IsValid vs
    → IsValid (update_visit f id vs).1
unfolding update_visit
update_visit-IsValid f id vs k h = elim (Option-cases (find (λ v. v.id == id) vs)) [
  | inl e ↦ rw (update_visit, e) h
  | inr (v, e) ↦ rw (update_visit, e) (update_where-All _ (λ v. v.id == id) f vs k h)
]

Step-IsValid : {vs ws : List Visit} → Step vs ws → IsValid vs → IsValid ws
unfolding add set_status set_day remove is_status text_eq
Step-IsValid (adds counterparties id day client vs) h =
    elim (Bool-cases (is_day day && is_client counterparties client)) [
      | inl e ↦ rw (add, e) (All-append IsVisit vs _ h ((refl, ground arith), tt))
      | inr e ↦ rw (add, e) h
    ]
Step-IsValid (sets_status t id vs) h = elim (Bool-cases (is_status t)) [
  | inl e ↦
      rw (set_status, e)
        (update_visit-IsValid (λ v. record v { status = t }) id vs (λ v k. (e, k.1)) h)
  | inr e ↦ rw (set_status, e) h
]
Step-IsValid (sets_day day id vs) h = elim (Bool-cases (is_day day)) [
  | inl e ↦
      rw (set_day, e)
        (update_visit-IsValid (λ v. record v { day_of_week = day }) id vs (λ v k. (k.0, e)) h)
  | inr e ↦ rw (set_day, e) h
]
Step-IsValid (removes id vs) h = select-All IsVisit (λ v. not (v.id == id)) vs h

-- Whatever requests the schedule serves, in any order, every visit stays planned, in progress or
-- done, on a day from 1 to 7 or on none, if every visit was.
pub Reach-IsValid : {vs ws : List Visit} → Reach vs ws → IsValid vs → IsValid ws
Reach-IsValid here h = h
Reach-IsValid (step r s) h = Step-IsValid s (Reach-IsValid r h)
