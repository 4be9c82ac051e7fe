-- ===== src/Auth/Register/Laws.antt =====
-- What a registration keeps: one user for each address, and the money.
use online_banking.Base.{
  ℕ, ◌≡◌, ◌≤◌, refl, Bool, inl, inr, List, [], ◌∷◌, ◌++◌, arith, count, count-append, All-append,
  Option-cases, Bool-cases,
}
use online_banking.Base.Int.{ℤ, pos, int_laws}
use online_banking.Base.Text.{Text, text_eq→eq}
use online_banking.Schema.{Db, User, CustomerProfile, Account}
use online_banking.Prisma.{Created-cases}
use online_banking.Services.{Services, World}
use online_banking.Services.Statements.{create_notification}
use online_banking.Payments.Steps.{with_account_id}
use online_banking.Ledger.{sum_where, IsSound, IsNotOverdrawn}
use online_banking.Auth.Types.{RegisterDto, Signing, AuthDraw}
use online_banking.Auth.Login.{normalize_email, with_email}
use online_banking.Auth.Register.{
  new_user, new_profile, first_account, create_user, register_new, register,
}

-- No two users have one address.
abbrev pub HasUniqueEmails : List User → Type 0
HasUniqueEmails t = (email : Text) → count (with_email email) t ≤ 1

-- What a registration does to the database: nothing to these tables, or one new user with a profile
-- and an empty account.
data Registers (email : Text) (d : AuthDraw) (before after : Db) : Type 0 where
  nothing :
      after.users ≡ before.users
      → after.accounts ≡ before.accounts
      → after.ledger_entries ≡ before.ledger_entries
      → Registers email d before after
  one_more :
      (u : User)
      → u.email ≡ email
      → count (with_email email) before.users ≡ 0
      → after.users ≡ before.users ++ u ∷ []
      → after.accounts ≡ before.accounts ++ first_account d ∷ []
      → after.ledger_entries ≡ before.ledger_entries
      → Registers email d before after

unique_after :
    {email : Text} {d : AuthDraw} {before after : Db}
    → Registers email d before after
    → HasUniqueEmails before.users
    → HasUniqueEmails after.users
unique_after (nothing e e' e'') unique address = rw e (unique address)
unique_after {email} {before} (one_more u same fresh e e' e'') unique address =
    elim (Bool-cases (with_email address u)) [
      | inr other ↦
          ground (arith, e, count-append (with_email address) before.users (u ∷ []), unique address)
      | inl hit ↦
          let is : u.email ≡ address = text_eq→eq u.email address hit in
          let none_before : count (with_email address) before.users ≡ 0 = rw (← is, same) fresh in
          ground (arith, e, count-append (with_email address) before.users (u ∷ []), none_before)
    ]

sum_where-append_empty :
    (p : Account → Bool) (rows : List Account) (a : Account)
    → a.available_balance ≡ pos 0
    → sum_where p (rows ++ a ∷ []) ≡ sum_where p rows
sum_where-append_empty p [] a e = grind (int_laws, e)
sum_where-append_empty p (x ∷ rows) a e = rw (sum_where-append_empty p rows a e) refl

-- An empty account with a new id changes nothing of the money.
IsSound-after :
    {email : Text} {d : AuthDraw} {before after : Db} {opening : ℕ → ℤ}
    → Registers email d before after
    → count (with_account_id d.account_id) before.accounts ≡ 0
    → IsSound opening before
    → IsSound opening after
IsSound-after (nothing e e' e'') fresh sound = record {
  keyed = rw e' sound.keyed;
  not_overdrawn = rw e' sound.not_overdrawn;
  in_sync = rw (e', e'') sound.in_sync;
  balanced = rw e'' sound.balanced;
}
IsSound-after {d} {before} (one_more u same fresh_email e e' e'') fresh sound = record {
  keyed = λ id. rw e' (elim (Bool-cases (with_account_id id (first_account d))) [
    | inl hit ↦
        ground
          (arith, count-append (with_account_id id) before.accounts (first_account d ∷ []), fresh)
    | inr miss ↦ ground (
      arith,
      count-append (with_account_id id) before.accounts (first_account d ∷ []),
      sound.keyed id,
    )
  ]);
  not_overdrawn = rw e' (
      All-append IsNotOverdrawn before.accounts (first_account d ∷ []) sound.not_overdrawn
        ((λ s. omega arith), tt));
  in_sync = λ id.
      rw (e', e'')
        (rw (sum_where-append_empty (with_account_id id) before.accounts (first_account d) refl)
          (sound.in_sync id));
  balanced = rw e'' sound.balanced;
}

module _ (svc : Services) (signing : Signing) (dto : RegisterDto) (d : AuthDraw) where
  create_user-Registers :
      (email : Text) (w : World)
      → count (with_email email) w.db.users ≡ 0
      → Registers email d w.db (create_user svc signing email dto d w).1.db
  unfolding create_user
  create_user-Registers email w fresh =
      elim (Created-cases (svc.prisma.create User (new_user signing email dto d) w.db.users)) [
        | inr (t, e) ↦ nothing (ground arith) (ground arith) (ground arith)
        | inl (users, e) ↦
            elim (Created-cases
              (svc.prisma.create CustomerProfile (new_profile dto d) w.db.profiles)) [
                | inr (t, e') ↦ nothing (ground arith) (ground arith) (ground arith)
                | inl (profiles, e') ↦
                    elim (Created-cases
                      (svc.prisma.create Account (first_account d) w.db.accounts)) [
                        | inr (t, e'') ↦ nothing (ground arith) (ground arith) (ground arith)
                        | inl (accounts, e'') ↦
                            one_more (new_user signing email dto d) refl fresh
                              (ground (arith, svc.prisma.create_appends User _ _ _ e))
                              (ground (arith, svc.prisma.create_appends Account _ _ _ e''))
                              (ground arith)
                      ]
              ]
      ]

  register_new-same :
      (email : Text) (w : World)
      → ((register_new svc signing email dto d w).1.db.users
          ≡ (create_user svc signing email dto d w).1.db.users)
        × ((register_new svc signing email dto d w).1.db.accounts
            ≡ (create_user svc signing email dto d w).1.db.accounts)
        × ((register_new svc signing email dto d w).1.db.ledger_entries
            ≡ (create_user svc signing email dto d w).1.db.ledger_entries)
  unfolding register_new create_notification
  register_new-same email w = (ground arith, ground arith, ground arith)

  Registers-same :
      {email : Text} {before after after' : Db}
      → (after'.users ≡ after.users)
        × (after'.accounts ≡ after.accounts)
        × (after'.ledger_entries ≡ after.ledger_entries)
      → Registers email d before after
      → Registers email d before after'
  Registers-same same (nothing e e' e'') = nothing (rw same.0 e) (rw same.1 e') (rw same.2 e'')
  Registers-same same (one_more u is fresh e e' e'') =
      one_more u is fresh (rw same.0 e) (rw same.1 e') (rw same.2 e'')

  register-Registers :
      (w : World) → Registers (normalize_email dto.email) d w.db (register svc signing dto d w).1.db
  unfolding register
  register-Registers w =
      elim (Option-cases
        (svc.prisma.find User (with_email (normalize_email dto.email)) w.db.users)) [
          | inr (u, taken) ↦ rw (taken, register) (nothing refl refl refl)
          | inl free ↦
              rw (free, register)
                (Registers-same (register_new-same (normalize_email dto.email) w) (
                  create_user-Registers (normalize_email dto.email) w
                    (svc.prisma.find_misses User _ _ free)))
        ]

  -- If no two users have one address, then none have after a registration, whether it returns or
  -- throws.
  pub register-HasUniqueEmails :
      (w : World)
      → HasUniqueEmails w.db.users
      → HasUniqueEmails (register svc signing dto d w).1.db.users
  register-HasUniqueEmails w = unique_after (register-Registers w)

  -- Balances, entries and overdrafts stay sound, whatever a registration does, if no account has the
  -- id that is drawn for the new one.
  pub register-IsSound :
      (w : World) (opening : ℕ → ℤ)
      → count (with_account_id d.account_id) w.db.accounts ≡ 0
      → IsSound opening w.db
      → IsSound opening (register svc signing dto d w).1.db
  register-IsSound w opening fresh sound = IsSound-after (register-Registers w) fresh sound
