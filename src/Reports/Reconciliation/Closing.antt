-- ===== src/Reports/Reconciliation/Closing.antt =====
-- The loop of the report: the closing balance of each account.
use remote_order_server.Common.{
  ℕ, ◌≡◌, refl, sym, ap, ap₂, subst, ◌∙◌, Bool, true, false, Option, none, some, List, [], ◌∷◌,
  ◌++◌, map, if◌then◌else◌, exists_where, same_opt, same_opt-IsSame, group_sum, sum_by, All, arith,
  Bool-cases, inl, inr,
}
use remote_order_server.Common.Int.{ℤ, pos, ◌+ℤ◌, +ℤ-zero, int_laws, parts_of_eq}
use remote_order_server.Db.{Db}
use remote_order_server.Reports.Reconciliation.{
  Posting, Account, change, has_key, add_key, add_keys, open_account, enter, enter_all,
  start_balances, ledger_rows, reconcile,
}

-- The closing balance that the report shows for a counterparty, zero if it shows none.
unfoldable pub closing_of : Option ℕ → List Account → ℤ
closing_of p [] = pos 0
closing_of p (a ∷ accounts) = if same_opt a.party p then a.closing else closing_of p accounts

-- What a row adds for a counterparty.
abbrev pub adds : Option ℕ → Posting → ℤ
adds p x = if same_opt x.party p then change x.kind x.amount else pos 0

known : Option ℕ → List Account → Bool
known p [] = false
known p (a ∷ accounts) = if same_opt a.party p then true else known p accounts

same_opt_comm : (i j : Option ℕ) → same_opt i j ≡ same_opt j i
same_opt_comm none none = refl
same_opt_comm none (some b) = refl
same_opt_comm (some a) none = refl
same_opt_comm (some a) (some b) = ground arith

module _ (p : Option ℕ) (x : Posting) where
  known-enter : (accounts : List Account) → known p (enter x accounts) ≡ known p accounts
  unfolding known enter
  known-enter [] = refl
  known-enter (a ∷ accounts) = elim (Bool-cases (same_opt a.party x.party)) [
    | inl e ↦ elim (Bool-cases (same_opt a.party p)) [
      | inl f ↦ rw (e, f)
      | inr f ↦ rw (e, f) (known-enter accounts)
    ]
    | inr e ↦ elim (Bool-cases (same_opt a.party p)) [
      | inl f ↦ rw (e, f)
      | inr f ↦ rw (e, f) (known-enter accounts)
    ]
  ]

  closing_of-enter :
      (accounts : List Account)
      → known p accounts ≡ true
      → closing_of p (enter x accounts) ≡ closing_of p accounts +ℤ adds p x
  unfolding known enter closing_of
  closing_of-enter [] k = cc
  closing_of-enter (a ∷ accounts) k = elim (Bool-cases (same_opt a.party p)) [
    | inl f ↦
        let own : a.party ≡ p = same_opt-IsSame.0 a.party p f in
        let turn : same_opt a.party x.party ≡ same_opt x.party p =
          ap (λ q. same_opt q x.party) own ∙ same_opt_comm p x.party in
        elim (Bool-cases (same_opt x.party p)) [
          | inl e ↦ rw (turn, e, f)
          | inr e ↦ rw (turn, e, f) (sym (+ℤ-zero a.closing))
        ]
    | inr f ↦ elim (Bool-cases (same_opt a.party x.party)) [
      | inl e ↦ rw (e, f) (closing_of-enter accounts (rw f at k))
      | inr e ↦ rw (e, f) (closing_of-enter accounts (rw f at k))
    ]
  ]

module _ (p : Option ℕ) where
  enter_all-known :
      (xs : List Posting) (accounts : List Account)
      → known p accounts ≡ true
      → closing_of p (enter_all xs accounts) ≡ closing_of p accounts +ℤ sum_by (adds p) xs
  unfolding enter_all
  enter_all-known [] accounts k = sym (+ℤ-zero _)
  enter_all-known (x ∷ xs) accounts k =
      enter_all-known xs (enter x accounts) (known-enter p x accounts ∙ k)
      ∙ omega (int_laws, parts_of_eq (closing_of-enter p x accounts k))

  closing_of-unknown :
      (accounts : List Account) → known p accounts ≡ false → closing_of p accounts ≡ pos 0
  unfolding known closing_of
  closing_of-unknown [] k = refl
  closing_of-unknown (a ∷ accounts) k = elim (Bool-cases (same_opt a.party p)) [
    | inl f ↦ cc (rw f at k)
    | inr f ↦ rw f (closing_of-unknown accounts (rw f at k))
  ]

  enter_all-unknown :
      (xs : List Posting) (accounts : List Account)
      → known p accounts ≡ false
      → closing_of p (enter_all xs accounts) ≡ pos 0
  unfolding enter_all
  enter_all-unknown [] accounts k = closing_of-unknown accounts k
  enter_all-unknown (x ∷ xs) accounts k =
      enter_all-unknown xs (enter x accounts) (known-enter p x accounts ∙ k)

  module _ (starts : List (Option ℕ × ℤ)) where
    known-open :
        (keys : List (Option ℕ)) → known p (map (open_account starts) keys) ≡ has_key p keys
    unfolding known open_account
    known-open [] = refl
    known-open (k ∷ keys) = elim (Bool-cases (same_opt k p)) [
      | inl f ↦ rw (exists_where, f)
      | inr f ↦ rw (exists_where, f) (known-open keys)
    ]

    closing_of-open :
        (keys : List (Option ℕ))
        → has_key p keys ≡ true
        → closing_of p (map (open_account starts) keys) ≡ group_sum same_opt p starts
    unfolding closing_of open_account
    closing_of-open [] h = cc
    closing_of-open (k ∷ keys) h = elim (Bool-cases (same_opt k p)) [
      | inl f ↦ rw f (ap (λ j. group_sum same_opt j starts) (same_opt-IsSame.0 k p f))
      | inr f ↦ rw f (closing_of-open keys (rw (exists_where, f) at h))
    ]

  -- A counterparty without an account has no key among those that were added.
  has_key-append :
      (keys : List (Option ℕ)) (k : Option ℕ)
      → has_key p (keys ++ k ∷ []) ≡ false
      → (has_key p keys ≡ false) × (same_opt k p ≡ false)
  has_key-append [] k h = elim (Bool-cases (same_opt k p)) [
    | inl f ↦ cc (rw (exists_where, f) at h)
    | inr f ↦ (refl, f)
  ]
  has_key-append (j ∷ keys) k h = elim (Bool-cases (same_opt j p)) [
    | inl f ↦ cc (rw (exists_where, f) at h)
    | inr f ↦ rw (exists_where, f) (has_key-append keys k (rw (exists_where, f) at h))
  ]

  add_key-absent :
      (k : Option ℕ) (keys : List (Option ℕ))
      → has_key p (add_key k keys) ≡ false
      → (has_key p keys ≡ false) × (same_opt k p ≡ false)
  unfolding add_key
  add_key-absent k keys h = elim (Bool-cases (has_key k keys)) [
    | inl e ↦
        let kept : has_key p keys ≡ false = rw e at h in
        elim (Bool-cases (same_opt k p)) [
          | inl f ↦
              let there : has_key p keys ≡ true =
                subst (λ q. has_key q keys ≡ true) (same_opt-IsSame.0 k p f) e in
              cc
          | inr f ↦ (kept, f)
        ]
    | inr e ↦ has_key-append keys k (rw e at h)
  ]

  add_keys-absent :
      (ks keys : List (Option ℕ))
      → has_key p (add_keys ks keys) ≡ false
      → (has_key p keys ≡ false) × All (λ k. same_opt k p ≡ false) ks
  unfolding add_keys
  add_keys-absent [] keys h = (h, tt)
  add_keys-absent (k ∷ ks) keys h =
      let rest = add_keys-absent ks (add_key k keys) h in
      let one = add_key-absent k keys rest.0 in (one.0, (one.1, rest.1))

  group_sum-absent :
      (starts : List (Option ℕ × ℤ))
      → All (λ k. same_opt k p ≡ false) (map (λ s. s.0) starts)
      → group_sum same_opt p starts ≡ pos 0
  unfolding group_sum
  group_sum-absent [] h = refl
  group_sum-absent ((k, n) ∷ starts) h = rw h.0 (group_sum-absent starts h.1)

  adds-absent :
      (xs : List Posting)
      → All (λ k. same_opt k p ≡ false) (map (λ x. x.party) xs)
      → sum_by (adds p) xs ≡ pos 0
  adds-absent [] h = refl
  adds-absent (x ∷ xs) h = rw h.0 (ap (λ n. pos 0 +ℤ n) (adds-absent xs h.1) ∙ +ℤ-zero (pos 0))

  -- The account closes with the opening balance and what the rows add.
  pub reconcile-closing :
      (ids : List ℕ) (from to : Option ℕ) (db : Db)
      → closing_of p (reconcile ids from to db)
        ≡ group_sum same_opt p (start_balances ids from db)
          +ℤ sum_by (adds p) (ledger_rows ids from to db)
  unfolding reconcile
  reconcile-closing ids from to db =
      let starts : List (Option ℕ × ℤ) = start_balances ids from db in
      let xs : List Posting = ledger_rows ids from to db in
      let first : List (Option ℕ) = add_keys (map (λ s. s.0) starts) [] in
      let keys : List (Option ℕ) = add_keys (map (λ x. x.party) xs) first in
      elim (Bool-cases (has_key p keys)) [
        | inl h ↦
            enter_all-known xs (map (open_account starts) keys) (known-open starts keys ∙ h)
            ∙ ap (λ n. n +ℤ sum_by (adds p) xs) (closing_of-open starts keys h)
        | inr h ↦
            let late = add_keys-absent (map (λ x. x.party) xs) first h in
            let early = add_keys-absent (map (λ s. s.0) starts) [] late.0 in
            enter_all-unknown xs (map (open_account starts) keys) (known-open starts keys ∙ h)
            ∙ sym (
                ap₂ ◌+ℤ◌ (group_sum-absent starts early.1) (adds-absent xs late.1)
                ∙ +ℤ-zero (pos 0))
      ]
