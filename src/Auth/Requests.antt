-- ===== src/Auth/Requests.antt =====
-- The requests to packages/crab_city/src/auth.rs one behind the other: each is done before the next.
use crabcity.Auth.Answers.{Argon2, Fresh, byte_len, logged_in, session_for}
use crabcity.Auth.Consistent.{IsConsistent, create_session-IsConsistent}
use crabcity.Auth.Handlers.{login_handler, with_user}
use crabcity.Auth.Middleware.{or_unchanged}
use crabcity.Auth.Register.{
  RegisterRequest, after_create, may_register, new_user, record_invite, register_handler,
  usable_invite, with_count, with_invite,
}
use crabcity.Auth.Stored.{create_user-IsConsistent, use_server_invite-IsConsistent}
use crabcity.Auth.Tables.{
  Faults, Outcome, answered, create_session, create_user, find_invite_by, get_server_invite,
  get_user_by_username, not_unique, query_failed, server_invite_query, use_server_invite,
  user_count, user_count_query,
}
use crabcity.Auth.Texts.{eq_text-true}
use crabcity.Auth.Types.{AuthConfig, Db, ServerInvite, Session, User, invite_is_valid}
use crabcity.Shared.{
  Bool, Bool-cases, List, Option, Option-cases, Text, [], ap, arith, eq_text, inl, inr, length, ltb,
  none, refl, some, subst, sym, trim, true, ℕ, ◌++◌, ◌==◌, ◌||◌, ◌∙◌, ◌∷◌, ◌≡◌,
}

find_invite_by_lem :
    (token : Text) (invites : List ServerInvite) (i : ServerInvite)
    → find_invite_by token invites ≡ some i
    → i.token ≡ token
unfolding find_invite_by
find_invite_by_lem token [] i e = cc
find_invite_by_lem token (x ∷ invites) i e = elim (Bool-cases (eq_text x.token token)) [
  | inl same ↦
      let is_it : x ≡ i = ground (arith, e, same) in
      ap (λ (y : ServerInvite). y.token) (sym is_it) ∙ eq_text-true x.token token same
  | inr other ↦ find_invite_by_lem token invites i (ground (arith, e, other))
]

-- An invite that a registration may use is in the tables, and valid.
abbrev IsUsable : ℕ → Db → Option ServerInvite → Type 0
IsUsable now db none = Unit
IsUsable now db (some i) =
    (find_invite_by i.token db.server_invites ≡ some i) × (invite_is_valid now i ≡ true)

usable_invite-IsUsable :
    (fails : Faults) (now : ℕ) (token : Text) (db : Db) (i : ServerInvite)
    → usable_invite now (get_server_invite fails token db) ≡ some i
    → IsUsable now db (some i)
unfolding get_server_invite
usable_invite-IsUsable fails now token db i e = elim (Bool-cases (fails server_invite_query)) [
  | inl down ↦ ground (arith, e, down)
  | inr up ↦ elim (Option-cases (find_invite_by token db.server_invites)) [
    | inl missing ↦ ground (arith, e, up, missing)
    | inr (x, found) ↦
        let both : (x ≡ i) × (invite_is_valid now x ≡ true) = ground (arith, e, up, found) in
        let found_i : find_invite_by token db.server_invites ≡ some i = found ∙ ap some both.0 in
        (
          subst (λ k. find_invite_by k db.server_invites ≡ some i)
              (sym (find_invite_by_lem token db.server_invites i found_i)) found_i,
          ap (invite_is_valid now) (sym both.0) ∙ both.1,
        )
  ]
]

logged_in-IsConsistent :
    (fails : Faults) (code : ℕ) (config : AuthConfig) (fresh : Fresh) (user : User)
    (session : Session) (db : Db)
    → IsConsistent db
    → IsConsistent (logged_in code config fresh user db (create_session fails session db)).1
logged_in-IsConsistent fails code config fresh user session db h =
    go (create_session fails session db) refl
  where
    go :
        (o : Outcome Db)
        → create_session fails session db ≡ o
        → IsConsistent (logged_in code config fresh user db o).1
    go (answered after) e = create_session-IsConsistent fails session db after e h
    go query_failed e = h
    go not_unique e = h

record_invite-IsConsistent :
    (fails : Faults) (now : ℕ) (invite : Option ServerInvite) (user_id : Text) (db : Db)
    → IsUsable now db invite
    → IsConsistent db
    → IsConsistent (record_invite fails invite user_id db)
record_invite-IsConsistent fails now none user_id db usable h = h
record_invite-IsConsistent fails now (some i) user_id db (found, valid) h =
    go (use_server_invite fails i.token user_id db) refl
  where
    go :
        (o : Outcome Db)
        → use_server_invite fails i.token user_id db ≡ o
        → IsConsistent (or_unchanged db o)
    go (answered after) e =
        use_server_invite-IsConsistent fails now i.token user_id db after i found valid e h
    go query_failed e = h
    go not_unique e = h

create_user-invites :
    (fails : Faults) (user : User) (db after : Db)
    → create_user fails user db ≡ answered after
    → db.server_invites ≡ after.server_invites
unfolding create_user
create_user-invites fails user db after e =
    let is_after : record db { users = db.users ++ user ∷ [] } ≡ after = ground (arith, e) in
    ap (λ (d : Db). d.server_invites) is_after

IsUsable-created :
    (now : ℕ) (db after : Db) (invite : Option ServerInvite)
    → db.server_invites ≡ after.server_invites
    → IsUsable now db invite
    → IsUsable now after invite
IsUsable-created now db after none same usable = tt
IsUsable-created now db after (some i) same (found, valid) =
    (ap (find_invite_by i.token) (sym same) ∙ found, valid)

module _ (argon2 : Argon2) (fails : Faults) (now : ℕ) (config : AuthConfig) (fresh : Fresh)
    (user_agent : Option Text) where
  after_create-IsConsistent :
      (invite : Option ServerInvite) (user : User) (db : Db)
      → IsUsable now db invite
      → (user.is_admin ≡ true → db.users ≡ [])
      → IsConsistent db
      → IsConsistent
          (after_create argon2 fails now config fresh user_agent invite user db
            (create_user fails user db)).1
  after_create-IsConsistent invite user db usable first h = go (create_user fails user db) refl
    where
      go :
          (o : Outcome Db)
          → create_user fails user db ≡ o
          → IsConsistent (after_create argon2 fails now config fresh user_agent invite user db o).1
      go (answered created) e =
          let ok = create_user-IsConsistent fails user db created first e h in
          let used =
            IsUsable-created now db created invite (create_user-invites fails user db created e)
              usable in
          logged_in-IsConsistent fails 201 config fresh user
            (session_for now config fresh user_agent user)
            (record_invite fails invite user.id created)
            (record_invite-IsConsistent fails now invite user.id created used ok)
      go query_failed e = h
      go not_unique e = h

  with_invite-IsConsistent :
      (salt : Text) (cookie : Option Text) (req : RegisterRequest) (first_user : Bool) (db : Db)
      (invite : Option ServerInvite)
      → IsUsable now db invite
      → (first_user ≡ true → db.users ≡ [])
      → IsConsistent db
      → IsConsistent
          (with_invite argon2 fails now config salt fresh cookie user_agent req first_user db
            invite).1
  with_invite-IsConsistent salt cookie req first_user db invite usable first h =
      elim (Bool-cases (may_register fails now config db cookie invite first_user)) [
        | inr no_way ↦ rw no_way h
        | inl fine ↦ elim (Option-cases (argon2.hash_password salt req.password)) [
          | inl no_hash ↦ rw (fine, no_hash) h
          | inr (hash, hashed) ↦
              rw (fine, hashed)
                (after_create-IsConsistent invite
                  (new_user argon2 now fresh (trim req.username) hash req.display_name first_user)
                  db usable first h)
        ]
      ]

  with_count-IsConsistent :
      (salt : Text) (cookie : Option Text) (req : RegisterRequest) (db : Db)
      → IsConsistent db
      → IsConsistent
          (with_count argon2 fails now config salt fresh cookie user_agent req db
            (user_count fails db)).1
  unfolding user_count
  with_count-IsConsistent salt cookie req db h = elim (Bool-cases (fails user_count_query)) [
    | inl down ↦ rw down h
    | inr up ↦ elim (Option-cases req.invite_token) [
      | inl unnamed ↦
          rw (up, unnamed)
            (with_invite-IsConsistent salt cookie req (length db.users == 0) db none tt
              (count_zero db.users) h)
      | inr (token, named) ↦
          elim (Option-cases (usable_invite now (get_server_invite fails token db))) [
            | inl useless ↦ rw (up, named, useless) h
            | inr (i, usable) ↦
                rw (up, named, usable)
                  (with_invite-IsConsistent salt cookie req (length db.users == 0) db (some i)
                    (usable_invite-IsUsable fails now token db i usable) (count_zero db.users) h)
          ]
    ]
  ]
    where
      count_zero : (users : List User) → length users == 0 ≡ true → users ≡ []
      count_zero [] e = refl
      count_zero (u ∷ users) e = ground (arith, e)

  pub register_handler-IsConsistent :
      (salt : Text) (cookie : Option Text) (req : RegisterRequest) (db : Db)
      → IsConsistent db
      → IsConsistent
          (register_handler argon2 fails now config salt fresh cookie user_agent req db).1
  unfolding register_handler
  register_handler-IsConsistent salt cookie req db h =
      let inner = with_count-IsConsistent salt cookie req db h in
      elim (Bool-cases config.enabled) [
        | inr off ↦ rw off h
        | inl on ↦
            elim (Bool-cases
              (ltb (byte_len (trim req.username)) 2 || ltb 64 (byte_len (trim req.username)))) [
                | inl bad_name ↦ rw (on, bad_name) h
                | inr fine ↦ elim (Bool-cases (ltb (byte_len req.password) 8)) [
                  | inl short ↦ rw (on, fine, short) h
                  | inr long ↦ rw (on, fine, long) inner
                ]
              ]
      ]

  with_user-IsConsistent :
      (password : Text) (db : Db) (o : Outcome (Option User))
      → IsConsistent db
      → IsConsistent (with_user argon2 fails now config fresh user_agent password db o).1
  with_user-IsConsistent password db query_failed h = h
  with_user-IsConsistent password db not_unique h = h
  with_user-IsConsistent password db (answered none) h = h
  with_user-IsConsistent password db (answered (some user)) h = elim (Bool-cases user.is_disabled) [
    | inl off ↦ rw off h
    | inr able ↦ elim (Bool-cases (argon2.verify_password password user.password_hash)) [
      | inr wrong ↦ rw (able, wrong) h
      | inl right ↦
          rw (able, right)
            (logged_in-IsConsistent fails 200 config fresh user
              (session_for now config fresh user_agent user) db h)
    ]
  ]

  pub login_handler-IsConsistent :
      (username password : Text) (db : Db)
      → IsConsistent db
      → IsConsistent (login_handler argon2 fails now config fresh user_agent username password db).1
  unfolding login_handler
  login_handler-IsConsistent username password db h =
      let inner = with_user-IsConsistent password db (get_user_by_username fails username db) h in
      elim (Bool-cases config.enabled) [ inr off ↦ rw off h | inl on ↦ rw on inner ]
