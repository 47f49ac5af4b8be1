-- ===== src/Auth/Guards.antt =====
-- What a request has to carry to pass `adminAuth` and `userAuth`.
use remote_order_server.Common.{
  ℕ, ◌≡◌, refl, ◌⊎◌, inl, inr, true, false, ◌||◌, Option, none, some, List, [], ◌∷◌, ◌==◌, arith,
  if◌then◌else◌, find, get_or, Text, text_eq, Bool-cases, Option-cases,
}
use remote_order_server.Auth.{
  User, Claims, AuthRequest, Decision, next, unauthorized, forbidden, is_uuid, with_row,
  checked_warehouse, current, bearer, admin, manager, is_role, has_secret, admin_of_token,
  admin_auth, user_of_token, user_auth,
}

-- A warehouse is missing, empty or a UUID.
abbrev pub IsChecked : Option Text → Type 0
IsChecked (some (c ∷ t)) = is_uuid (c ∷ t) ≡ true
IsChecked _ = Unit

checked_warehouse-IsChecked : (w : Option Text) → IsChecked (checked_warehouse w)
unfolding checked_warehouse
checked_warehouse-IsChecked none = tt
checked_warehouse-IsChecked (some []) = tt
checked_warehouse-IsChecked (some (c ∷ t)) = elim (Bool-cases (is_uuid (c ∷ t))) [
  | inl e ↦ rw e e
  | inr e ↦ rw e tt
]

-- The claims of `req.user` are those of an administrator or of a manager.
abbrev pub IsStaff : Claims → Type 0
IsStaff c = ((is_role admin c || is_role manager c) ≡ true) × IsChecked c.warehouse_id

abbrev pub Passes {ℓ} : (Claims → Type ℓ) → Decision → Type ℓ
Passes P (next c) = P c
Passes P _ = Unit

module _ (verify : Text → Option Claims) (users : List User) where
  -- A predicate of the user that a token yields, if it yields one.
  abbrev Yields {ℓ} : (Claims → Type ℓ) → Option Claims → Type ℓ
  Yields P none = Unit
  Yields P (some c) = P c

  -- Of a token that names a user of the table, without the secret, it is the role in the table that
  -- decides: an administrator or a manager passes, and anybody else is refused, whatever role the
  -- token was signed with.
  pub admin_auth-row :
      (admin_secret : Option Text) (q : AuthRequest) {x : ℕ} {t : Text} {d : Claims} {i : ℕ}
      {u : User}
      → bearer q.authorization ≡ some (x ∷ t)
      → verify (x ∷ t) ≡ some d
      → d.id ≡ some i
      → find (λ v. v.id == i) users ≡ some u
      → has_secret q.admin_secret admin_secret ≡ false
      → admin_auth verify users admin_secret q ≡ (
          if text_eq u.role admin || text_eq u.role manager
          then next (current users d)
          else forbidden)
  unfolding admin_auth admin_of_token current with_row is_role
  admin_auth-row admin_secret q b v i f s = ground arith

  user_of_token_cases :
      (token : Text)
      → ((token ≡ []) × (user_of_token verify users token ≡ unauthorized))
        ⊎ ((verify token ≡ none) × (user_of_token verify users token ≡ unauthorized))
        ⊎ ((d : Claims) × (verify token ≡ some d)
            × (user_of_token verify users token ≡ next (current users d))
            × IsChecked (current users d).warehouse_id)
  unfolding user_of_token current
  user_of_token_cases [] = inl (refl, refl)
  user_of_token_cases (x ∷ t) = elim (Option-cases (verify (x ∷ t))) [
    | inl e ↦ inr (inl (e, rw (user_of_token, e)))
    | inr (d, e) ↦ inr (
        inr (
          d,
          e,
          rw (user_of_token, e),
          checked_warehouse-IsChecked (with_row users d).warehouse_id,
        ))
  ]

  user_auth-token :
      (q : AuthRequest)
      → user_auth verify users q
        ≡ user_of_token verify users (get_or (bearer q.authorization) (get_or q.query_token []))
  unfolding user_auth
  user_auth-token q = ground arith

  -- The three ways in which `userAuth` ends, for the token of the header, or else of the query: 401
  -- if it is empty, 401 if it does not verify, and otherwise the request passes with the claims of
  -- the token as the table corrects them, and a warehouse that is missing, empty or a UUID.
  pub user_auth_cases :
      (q : AuthRequest)
      → let token : Text = get_or (bearer q.authorization) (get_or q.query_token []) in
        ((token ≡ []) × (user_auth verify users q ≡ unauthorized))
        ⊎ ((verify token ≡ none) × (user_auth verify users q ≡ unauthorized))
        ⊎ ((d : Claims) × (verify token ≡ some d)
            × (user_auth verify users q ≡ next (current users d))
            × IsChecked (current users d).warehouse_id)
  user_auth_cases q =
      rw (user_auth-token q)
        (user_of_token_cases (get_or (bearer q.authorization) (get_or q.query_token [])))
