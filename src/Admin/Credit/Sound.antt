-- ===== src/Admin/Credit/Sound.antt =====
-- What a credit does to the money.
use online_banking.Base.{
  All-of_unique, ℕ, ◌≡◌, refl, ap, true, false, inl, inr, ◌==◌, Memᴰ, arith, ok, Result,
  Option-cases, Bool-cases, count-pos_of_Memᴰ,
}
use online_banking.Base.Int.{ℤ, pos, ◌≤ℤ◌}
use online_banking.Base.Text.{text_eq}
use online_banking.Schema.{Db, CustomerProfile, Account, account_is_active}
use online_banking.Prisma.{Prisma}
use online_banking.Prisma.Tx.{Tx, TxState, begin, Settles, committed, rolled_back, given_up}
use online_banking.Services.{Services, World, Draw}
use online_banking.Payments.Types.{Formats}
use online_banking.Payments.Steps.{with_account_id, ron}
use online_banking.Payments.Outcome.{is_ok}
use online_banking.Ledger.{IsKeyed, IsBooked, IsSound, SameMoney}
use online_banking.Ledger.Posted.{IsBooked-IsSound, SameMoney-IsSound}
use online_banking.Admin.Credit.{
  AdminCreditDto, AdminCreditResponse, is_system_account, credit_movement, post_credit,
  execute_credit_tx, credit_account,
}

-- A credit that was made: from a system account to the account asked for, which is a customer's.
pub record IsCredit (before after : Db) (account_id : ℕ) (amount : ℤ) (d : Draw) : Type 0 where
  pub target : Account
  pub system : Account
  pub listed : Memᴰ target before.accounts
  pub named : with_account_id account_id target ≡ true
  pub customers : target.is_system ≡ false
  pub active : account_is_active target.status ≡ true
  pub exists : Memᴰ system before.accounts
  pub funding : is_system_account system ≡ true
  pub booked : IsBooked before after (credit_movement system.id account_id amount d)

module _ (prisma : Prisma) (fmt : Formats) (admin_id account_id : ℕ) (dto : AdminCreditDto)
    (d : Draw) (s s' : TxState) (r : AdminCreditResponse) (keyed : IsKeyed s.db.accounts) where
  post_credit-IsBooked :
      (target system : Account) (customer : CustomerProfile)
      → Memᴰ target s.db.accounts
      → Memᴰ system s.db.accounts
      → with_account_id account_id target ≡ true
      → post_credit prisma fmt admin_id target customer system dto d s ≡ (ok r, s')
      → IsBooked s.db s'.db (credit_movement system.id account_id dto.amount d)
  unfolding post_credit
  post_credit-IsBooked target system customer listed exists named h =
      let same : target.id ≡ account_id = ground arith in
      record {
        accounts = grind (arith, prisma.create_appends, prisma.update_patches);
        entries = grind (arith, prisma.create_appends, prisma.update_patches);
        source_one = omega (
          arith,
          keyed system.id,
          count-pos_of_Memᴰ (with_account_id system.id) s.db.accounts exists (ground arith),
        );
        destination_one = omega (
          arith,
          keyed account_id,
          count-pos_of_Memᴰ (with_account_id account_id) s.db.accounts listed named,
        );
      }

  execute_credit_tx-IsCredit :
      execute_credit_tx prisma fmt admin_id account_id dto d s ≡ (ok r, s')
      → IsCredit s.db s'.db account_id dto.amount d
  unfolding execute_credit_tx
  execute_credit_tx-IsCredit h =
      elim (Option-cases (prisma.find Account (with_account_id account_id) s.db.accounts)) [
        | inl missing ↦ absurd (ground arith)
        | inr (target, found) ↦
            elim (Option-cases
              (prisma.find CustomerProfile (λ p. p.id == target.customer_id) s.db.profiles)) [
                | inl missing ↦ absurd (ground arith)
                | inr (customer, joined) ↦
                    elim (Option-cases (prisma.find Account is_system_account s.db.accounts)) [
                      | inl missing ↦ absurd (ground arith)
                      | inr (system, funding) ↦
                          let listed = prisma.find_member Account _ _ _ found in
                          let named = prisma.find_holds Account _ _ _ found in
                          let exists = prisma.find_member Account _ _ _ funding in
                          record {
                            target = target;
                            system = system;
                            listed = listed;
                            named = named;
                            customers = ground arith;
                            active = ground arith;
                            exists = exists;
                            funding = prisma.find_holds Account _ _ _ funding;
                            booked =
                                post_credit-IsBooked target system customer listed exists named
                                  (ground arith);
                          }
                    ]
              ]
      ]

IsCredit-IsSound :
    {opening : ℕ → ℤ} {before after : Db} {account_id : ℕ} {amount : ℤ} {d : Draw}
    → pos 0 ≤ℤ amount
    → IsCredit before after account_id amount d
    → IsSound opening before
    → IsSound opening after
IsCredit-IsSound {before} {amount} nonneg c sound =
    IsBooked-IsSound c.booked nonneg
      (All-of_unique (with_account_id c.system.id)
        (λ a. a.is_system ≡ false → amount ≤ℤ a.available_balance) before.accounts c.exists
        (ground arith) (sound.keyed c.system.id) (λ e. absurd (ground (arith, c.funding))))
      sound

-- How an administrator's credit may end: made, or refused with the money as it was.
pub data Credited (w : World) (account_id : ℕ) (amount : ℤ) (d : Draw)
    (out : Result AdminCreditResponse × World) : Type 0 where
  made :
      (r : AdminCreditResponse)
      → out.0 ≡ ok r
      → IsCredit w.db out.1.db account_id amount d
      → Credited w account_id amount d out
  refused : is_ok out.0 ≡ false → SameMoney w.db out.1.db → Credited w account_id amount d out

Credited-IsSound :
    {opening : ℕ → ℤ} {w : World} {account_id : ℕ} {amount : ℤ} {d : Draw}
    {out : Result AdminCreditResponse × World}
    → Credited w account_id amount d out
    → pos 0 ≤ℤ amount
    → IsSound opening w.db
    → IsSound opening out.1.db
Credited-IsSound (made r e c) nonneg sound = IsCredit-IsSound nonneg c sound
Credited-IsSound (refused e same) nonneg sound = SameMoney-IsSound same sound

module _ (svc : Services) (admin_id account_id : ℕ) (dto : AdminCreditDto) (d : Draw)
    (w : World) where
  abbrev body_of : Tx AdminCreditResponse
  body_of = execute_credit_tx svc.prisma svc.formats admin_id account_id dto d

  settled :
      IsKeyed w.db.accounts
      → (out : Result AdminCreditResponse × Db) → Settles body_of w.db out
      → Credited w account_id dto.amount d (out.0, record w { db = out.1 })
  settled keyed out (committed a s h e) = made a (ap (λ o. o.0) e) (
      rw e (
        let c =
          execute_credit_tx-IsCredit svc.prisma svc.formats admin_id account_id dto d (begin w.db) s
            a keyed h in
        record {
          target = c.target;
          system = c.system;
          listed = c.listed;
          named = c.named;
          customers = c.customers;
          active = c.active;
          exists = c.exists;
          funding = c.funding;
          booked = record {
            accounts = c.booked.accounts;
            entries = c.booked.entries;
            source_one = c.booked.source_one;
            destination_one = c.booked.destination_one;
          };
        }))
  settled keyed out (rolled_back x s h e) =
      refused (rw e) (record { accounts = rw e; entries = rw e })
  settled keyed out (given_up x sent abort e) =
      refused (rw e) (record { accounts = rw e; entries = rw e })

  -- A request of an administrator to credit an account ends in one of two ways: money goes from a
  -- system account to the account named, which is an active account of a customer; or the request
  -- gives no result, and no balance and no entry has changed.
  pub credit_account-Credited :
      IsKeyed w.db.accounts
      → Credited w account_id dto.amount d (credit_account svc admin_id account_id dto d w)
  unfolding credit_account
  credit_account-Credited keyed = elim (Bool-cases (text_eq dto.currency ron)) [
    | inr foreign ↦ rw foreign (refused refl (record { accounts = refl; entries = refl }))
    | inl ron_it_is ↦ rw ron_it_is (
        settled keyed (svc.transactions.run AdminCreditResponse 1 body_of w.db)
          (svc.transactions.run_settles AdminCreditResponse 1 body_of w.db))
  ]

  -- Balances, entries and overdrafts stay sound, whatever a request to credit an account with an
  -- amount that is not negative does. The system account may fall below zero.
  pub credit_account-IsSound :
      (opening : ℕ → ℤ)
      → pos 0 ≤ℤ dto.amount
      → IsSound opening w.db
      → IsSound opening (credit_account svc admin_id account_id dto d w).1.db
  credit_account-IsSound opening nonneg sound =
      Credited-IsSound (credit_account-Credited sound.keyed) nonneg sound
