-- ===== src/GoodsReceipt/Race/Served.antt =====
-- Two calls of `post` for one receipt under any schedule: what holds after every step, and that both
-- calls end.
use remote_order_server.Common.{
  ℕ, suc, ◌+◌, ◌≤◌, ◌≡◌, ◌⊎◌, refl, sym, ap, subst, ◌∙◌, Bool, true, false, some, List, [], ◌∷◌,
  ◌++◌, arith, length, find, ◌==◌, find-update_where, Bool-cases, Option-cases, inl, inr,
}
use remote_order_server.Db.{Db, Env, Item, GoodsReceipt, posted}
use remote_order_server.Tx.{ok, err, already_posted}
use remote_order_server.Realization.{is_posted}
use remote_order_server.GoodsReceipt.{items_of}
use remote_order_server.GoodsReceipt.Steps.{new_batches, received}
use remote_order_server.GoodsReceipt.Race.{
  Phase, started, checked, ended, check, write, advance, System, Turn, of_first, of_second, turn,
  run, both_started, write-received, check-found,
}

-- The turns that a schedule gives to each call.
abbrev pub first_turns : List Turn → ℕ
first_turns [] = 0
first_turns (of_first ∷ ts) = suc (first_turns ts)
first_turns (of_second ∷ ts) = first_turns ts

abbrev pub second_turns : List Turn → ℕ
second_turns [] = 0
second_turns (of_first ∷ ts) = second_turns ts
second_turns (of_second ∷ ts) = suc (second_turns ts)

-- The steps that a call still has to make.
abbrev left : Phase → ℕ
left started = 2
left (checked doc) = 1
left (ended r) = 0

-- How many batches a call has added, where the receipt has n items.
abbrev pub added : ℕ → Phase → ℕ
added n (ended (ok r)) = n
added n _ = 0

-- A call that has ended has returned, or was refused, and the receipt is then posted.
abbrev Fits : Bool → Phase → Type 0
Fits b (ended (ok r)) = b ≡ true
Fits b (ended (err e)) = (b ≡ true) × (e ≡ already_posted)
Fits b _ = Unit

-- The receipt is there, and is posted just if `b` is true.
abbrev pub IsPostedIf : ℕ → Bool → Db → Type 0
IsPostedIf id b db =
    (doc : GoodsReceipt) × (find (λ r. r.id == id) db.goods_receipts ≡ some doc)
    × (is_posted doc.status ≡ b)

abbrev pub HasReturned : Phase → Phase → Type 0
HasReturned p q = (p ≡ ended (ok tt)) ⊎ (q ≡ ended (ok tt))

-- What holds after every step, of a call, the other one and the tables.
record Holds (id total : ℕ) (items : List Item) (p q : Phase) (db : Db) : Type 0 where
  is_done : Bool
  there : IsPostedIf id is_done db
  own : Fits is_done p
  other : Fits is_done q
  returned : is_done ≡ true → HasReturned p q
  same_items : items_of id db ≡ items
  batches : length db.batches ≡ total + added (length items) p + added (length items) q

length-++ : {A : Type 0} (xs ys : List A) → length (xs ++ ys) ≡ length xs + length ys
length-++ [] ys = omega arith
length-++ (x ∷ xs) ys = omega (arith, length-++ xs ys)

length-new_batches :
    (env : Env) (id date n : ℕ) (items : List Item)
    → length (new_batches env id date n items) ≡ length items
length-new_batches env id date n [] = refl
length-new_batches env id date n (i ∷ items) = ap suc (length-new_batches env id date (suc n) items)

Fits-later : (b : Bool) (p : Phase) → Fits b p → Fits true p
Fits-later b started f = tt
Fits-later b (checked doc) f = tt
Fits-later b (ended (ok r)) f = refl
Fits-later b (ended (err e)) f = (refl, f.1)

left-advance :
    (env : Env) (id : ℕ) (p : Phase) (db : Db)
    → (n : ℕ) → left p ≤ suc n
    → left (advance env id p db).0 ≤ n
unfolding advance check write
left-advance env id started db n h =
    elim (Option-cases (find (λ r. r.id == id) db.goods_receipts)) [
      | inl f ↦ rw (check, f) (omega arith)
      | inr (doc, f) ↦ elim (Bool-cases (is_posted doc.status)) [
        | inl d ↦ rw (check, f, d) (omega arith)
        | inr d ↦ rw (check, f, d) (omega arith)
      ]
    ]
left-advance env id (checked doc) db n h = omega arith
left-advance env id (ended r) db n h = omega arith

module _ (env : Env) (id total : ℕ) (items : List Item) where
  abbrev Goes : Phase → Phase → Db → Type 0
  Goes = Holds id total items

  swap : (p q : Phase) (db : Db) → Goes p q db → Goes q p db
  swap p q db h = record {
    is_done = h.is_done;
    there = h.there;
    own = h.other;
    other = h.own;
    returned = λ e. elim (h.returned e) [ inl r ↦ inr r | inr r ↦ inl r ];
    same_items = h.same_items;
    batches = omega (arith, h.batches);
  }

  checks :
      (q : Phase) (db : Db) (doc : GoodsReceipt) (h : Goes started q db)
      → find (λ r. r.id == id) db.goods_receipts ≡ some doc
      → is_posted doc.status ≡ h.is_done
      → Goes (check id db) q db
  checks q db doc h f d = elim (Bool-cases h.is_done) [
    | inl e ↦
        let refused : check id db ≡ ended (err already_posted) =
          check-found env id doc db f ∙ rw (d, e) in
        subst (λ p. Goes p q db) (sym refused)
          (record {
            is_done = true;
            there = (doc, f, d ∙ e);
            own = (refl, refl);
            other = Fits-later h.is_done q h.other;
            returned = λ t. elim (h.returned e) [ inl r ↦ cc r | inr r ↦ inr r ];
            same_items = h.same_items;
            batches = h.batches;
          })
    | inr e ↦
        let passed : check id db ≡ checked doc = check-found env id doc db f ∙ rw (d, e) in
        subst (λ p. Goes p q db) (sym passed)
          (record {
            is_done = h.is_done;
            there = (doc, f, d);
            own = tt;
            other = h.other;
            returned = λ t. cc (e, t);
            same_items = h.same_items;
            batches = h.batches;
          })
  ]

  writes :
      (doc : GoodsReceipt) (q : Phase) (db : Db)
      → Goes (checked doc) q db
      → Goes (ended (ok tt)) q (received env id doc db)
  writes doc q db h = record {
    is_done = true;
    there =
        let (found, f, d) = h.there in
        (
          record found { status = posted },
          find-update_where (λ r. r.id == id) (λ r. record r { status = posted }) db.goods_receipts
                (λ r e. e)
              ∙ rw f,
          refl,
        );
    own = refl;
    other = Fits-later h.is_done q h.other;
    returned = λ t. inl refl;
    same_items = h.same_items;
    batches = omega (
      arith,
      h.batches,
      length-++ db.batches (new_batches env id doc.date db.generated (items_of id db)),
      length-new_batches env id doc.date db.generated (items_of id db),
      ap length h.same_items,
    );
  }

  advance-Holds :
      (p q : Phase) (db : Db) → Goes p q db → Goes (advance env id p db).0 q (advance env id p db).1
  unfolding advance
  advance-Holds started q db h = let (doc, f, d) = h.there in checks q db doc h f d
  advance-Holds (checked doc) q db h =
      subst (λ (x : Phase × Db). Goes x.0 q x.1) (sym (write-received env id doc db))
        (writes doc q db h)
  advance-Holds (ended r) q db h = h

  run-Holds :
      (ts : List Turn) (s : System)
      → Goes s.first s.second s.db
      → Goes (run env id ts s).first (run env id ts s).second (run env id ts s).db
  unfolding run turn
  run-Holds [] s h = h
  run-Holds (of_first ∷ ts) s h =
      run-Holds ts (turn env id of_first s) (advance-Holds s.first s.second s.db h)
  run-Holds (of_second ∷ ts) s h =
      run-Holds ts (turn env id of_second s)
        (swap _ _ _ (advance-Holds s.second s.first s.db (swap s.first s.second s.db h)))

  -- A call with as many turns as it has steps ends.
  run-left :
      (ts : List Turn) (s : System)
      → left s.first ≤ first_turns ts
      → left s.second ≤ second_turns ts
      → (left (run env id ts s).first ≤ 0) × (left (run env id ts s).second ≤ 0)
  unfolding run turn
  run-left [] s h k = (h, k)
  run-left (of_first ∷ ts) s h k =
      run-left ts (turn env id of_first s) (left-advance env id s.first s.db _ h) k
  run-left (of_second ∷ ts) s h k =
      run-left ts (turn env id of_second s) h (left-advance env id s.second s.db _ k)

-- How a call ends.
abbrev pub IsServed : Phase → Type 0
IsServed p = (p ≡ ended (ok tt)) ⊎ (p ≡ ended (err already_posted))

left-IsServed : (b : Bool) (p : Phase) → Fits b p → left p ≤ 0 → IsServed p × (b ≡ true)
left-IsServed b started f h = ground arith
left-IsServed b (checked doc) f h = ground arith
left-IsServed b (ended (ok r)) f h = (inl refl, f)
left-IsServed b (ended (err e)) f h = (inr (ap (λ x. ended (err x)) f.1), f.0)

-- Two calls of `post` for a receipt that is found and not posted, under any schedule that gives each
-- of them two turns, both end: each returns or is refused as already posted, at least one returns,
-- and the receipt is posted. Each call that returned has added a batch for every item.
pub run-IsServed :
    (env : Env) (id : ℕ) (doc : GoodsReceipt) (db : Db) (ts : List Turn)
    → find (λ r. r.id == id) db.goods_receipts ≡ some doc
    → is_posted doc.status ≡ false
    → 2 ≤ first_turns ts
    → 2 ≤ second_turns ts
    → let s : System = run env id ts (both_started db) in
      let n : ℕ = length (items_of id db) in
      IsServed s.first
      × IsServed s.second
      × HasReturned s.first s.second
      × IsPostedIf id true s.db
      × (length s.db.batches ≡ length db.batches + added n s.first + added n s.second)
run-IsServed env id doc db ts f d h k =
    let s : System = run env id ts (both_started db) in
    let holds = run-Holds env id (length db.batches) (items_of id db) ts (both_started db) (record {
      is_done = false;
      there = (doc, f, d);
      own = tt;
      other = tt;
      returned = λ e. cc e;
      same_items = refl;
      batches = omega arith;
    }) in
    let ends = run-left env id (length db.batches) (items_of id db) ts (both_started db) h k in
    let (first, done) = left-IsServed holds.is_done s.first holds.own ends.0 in
    (
      first,
      (left-IsServed holds.is_done s.second holds.other ends.1).0,
      holds.returned done,
      subst (λ b. IsPostedIf id b s.db) done holds.there,
      holds.batches,
    )
