-- ===== src/Auth/Login.antt =====
-- A user who is created, logs in and calls with the token.
use remote_order_server.Common.{
  ℕ, Bool, ◌≡◌, refl, ap₂, ◌∙◌, true, false, Option, some, List, [], ◌∷◌, ◌++◌, ◌==◌, ==_refl,
  arith, find, Text, text_eq, text_eq_refl, codes, exists_where, find-update_where, All,
  drop_prefix,
}
use remote_order_server.Auth.{
  User, Claims, AuthRequest, next, current, with_row, bearer, bearer_prefix, first_word,
  user_of_token, user_auth, login, logged_in, check_password, payload, emergency_reset, reset_email,
  reset_password,
}
use remote_order_server.Auth.Users.{UserData, create_user, new_user}

-- No character of a token is a space.
abbrev IsWord : Text → Type 0
IsWord = All (λ c. (c == 32) ≡ false)

first_word-IsWord : (t : Text) → IsWord t → first_word t ≡ t
unfolding first_word
first_word-IsWord [] h = refl
first_word-IsWord (c ∷ t) h = rw (h.0, first_word-IsWord t h.1)

drop_prefix-append : (p t : Text) → drop_prefix p (p ++ t) ≡ some t
drop_prefix-append [] t = refl
drop_prefix-append (c ∷ p) t = ground (arith, drop_prefix-append p t)

bearer-append : (t : Text) → IsWord t → bearer (some (bearer_prefix ++ t)) ≡ some t
unfolding bearer
bearer-append t h = rw (drop_prefix-append bearer_prefix t, first_word-IsWord t h)

-- The row that is added is found where none was.
find-added :
    {A : Type 0} (p : A → _) (xs : List A) (x : A)
    → exists_where p xs ≡ false
    → p x ≡ true
    → find p (xs ++ x ∷ []) ≡ some x
find-added p [] x h k = rw k
find-added p (y ∷ ys) x h k = ground (arith, find-added p ys x)

role-found :
    (users : List User) {u : User}
    → find (λ v. v.id == u.id) users ≡ some u
    → (current users (payload u)).role ≡ some u.role
unfolding current with_row
role-found users f = ground arith

module _ (hash : Text → Text) (compare : Text → Text → Bool) (sign : Claims → Text)
    -- bcrypt.compare accepts the password of a hash
    (accepts : (p : Text) → compare p (hash p) ≡ true) where
  login-found :
      (users : List User) (a b : ℕ) (e p : Text) {u : User}
      → find (λ v. text_eq v.email (a ∷ e)) users ≡ some u
      → compare (b ∷ p) u.password ≡ true
      → login compare sign users (some (a ∷ e)) (some (b ∷ p)) ≡ logged_in (sign (payload u)) u
  unfolding login check_password
  login-found users a b e p f c = ground arith

  module _ (id : ℕ) (d : UserData) (users : List User) {a b c : ℕ} {email p role : Text}
      (he : d.email ≡ some (a ∷ email)) (hp : d.password ≡ some (b ∷ p))
      (hr : d.role ≡ some (c ∷ role))
      (fresh_email : exists_where (λ u. text_eq u.email (a ∷ email)) users ≡ false)
      (fresh_id : exists_where (λ u. u.id == id) users ≡ false) where
    create_user-added : (create_user hash id d users).1 ≡ users ++ new_user hash id d ∷ []
    unfolding create_user
    create_user-added = rw (he, hp, hr, fresh_email)

    login-added :
        login compare sign (users ++ new_user hash id d ∷ []) d.email d.password
        ≡ logged_in (sign (payload (new_user hash id d))) (new_user hash id d)
    unfolding new_user
    login-added =
        let found =
          find-added (λ v. text_eq v.email (a ∷ email)) users (new_user hash id d) fresh_email
            (rw he (text_eq_refl (a ∷ email))) in
        ap₂ (login compare sign (users ++ new_user hash id d ∷ [])) he hp
        ∙ login-found (users ++ new_user hash id d ∷ []) a b email p found (rw hp (accepts (b ∷ p)))

    role-added :
        (current (users ++ new_user hash id d ∷ []) (payload (new_user hash id d))).role
        ≡ some (c ∷ role)
    unfolding new_user
    role-added =
        role-found (users ++ new_user hash id d ∷ [])
          (find-added (λ v. v.id == id) users (new_user hash id d) fresh_id (==_refl id))
        ∙ rw hr

  -- After GET /emergency-reset, which asks for no token, anybody can log in as 'admin@test.com'
  -- with the password '123456', if there is a user of that email, whatever the user's password was.
  pub emergency_reset-login :
      (users : List User) {u : User}
      → find (λ v. text_eq v.email reset_email) users ≡ some u
      → let v : User = record u { password = hash reset_password } in
        login compare sign (emergency_reset hash users) (some reset_email) (some reset_password)
        ≡ logged_in (sign (payload v)) v
  unfolding emergency_reset
  emergency_reset-login users {u} f =
      login-found (emergency_reset hash users) 97 49 (codes "dmin@test.com") (codes "23456")
        (find-update_where (λ v. text_eq v.email reset_email)
            (λ v. record v { password = hash reset_password }) users (λ v e. e)
          ∙ rw f)
        (accepts reset_password)

module _ (verify : Text → Option Claims) (token : Text) (c : Claims)
    -- a token is not empty and has no spaces, and it verifies
    (nonempty : (token ≡ []) → ⊥) (word : IsWord token) (verifies : verify token ≡ some c) where
  user_of_token-verifies :
      (users : List User) → user_of_token verify users token ≡ next (current users c)
  unfolding user_of_token
  user_of_token-verifies users = ground (arith, nonempty, verifies)

  user_auth-verifies :
      (users : List User) (q : AuthRequest)
      → q.authorization ≡ some (bearer_prefix ++ token)
      → user_auth verify users q ≡ next (current users c)
  unfolding user_auth
  user_auth-verifies users q h =
      ground (arith, bearer-append token word, user_of_token-verifies users)

-- A user who is created with an email that nobody has, under a new id, can log in with the
-- password, where bcrypt.compare accepts the password of a hash; and a request with the token of
-- that login passes `userAuth` with the user's role, where the token is a word that verifies.
pub create_user-login :
    (hash : Text → Text) (compare : Text → Text → Bool) (verify : Text → Option Claims)
    (sign : Claims → Text) (id : ℕ) (d : UserData) (users : List User) (q : AuthRequest) {a b c : ℕ}
    {email p role : Text}
    → ((p : Text) → compare p (hash p) ≡ true)
    → (sign (payload (new_user hash id d)) ≡ [] → ⊥)
    → IsWord (sign (payload (new_user hash id d)))
    → verify (sign (payload (new_user hash id d))) ≡ some (payload (new_user hash id d))
    → d.email ≡ some (a ∷ email)
    → d.password ≡ some (b ∷ p)
    → d.role ≡ some (c ∷ role)
    → exists_where (λ u. text_eq u.email (a ∷ email)) users ≡ false
    → exists_where (λ u. u.id == id) users ≡ false
    → q.authorization ≡ some (bearer_prefix ++ sign (payload (new_user hash id d)))
    → let u : User = new_user hash id d in
      let users' : List User = (create_user hash id d users).1 in
      (login compare sign users' d.email d.password ≡ logged_in (sign (payload u)) u)
      × ((v : Claims) × (user_auth verify users' q ≡ next v) × (v.role ≡ some (c ∷ role)))
create_user-login hash compare verify sign id d users q accepts nonempty word verifies he hp hr
      fresh_email fresh_id hq =
    let u : User = new_user hash id d in
    rw (create_user-added hash compare sign accepts id d users he hp hr fresh_email fresh_id) (
      login-added hash compare sign accepts id d users he hp hr fresh_email fresh_id,
      (
        current (users ++ u ∷ []) (payload u),
        user_auth-verifies verify (sign (payload u)) (payload u) nonempty word verifies
            (users ++ u ∷ []) q hq,
        role-added hash compare sign accepts id d users he hp hr fresh_email fresh_id,
      ),
    )
