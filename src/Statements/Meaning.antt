-- ===== src/Statements/Meaning.antt =====
-- A statement shows the account's balance, and successive statements fit together.
use online_banking.Base.{
  ℕ, ◌+◌, ◌≡◌, ◌≤◌, ◌≢◌, ◌∙◌, sym, refl, true, Option, some, inl, inr, List, [], ◌∷◌, arith, ok,
  All, Memᴰ, Option-cases, Bool-cases, ltb, leb, ◌==◌,
}
use online_banking.Base.Int.{pos, int_laws}
use online_banking.Base.Text.{Text}
use online_banking.Schema.{CustomerProfile, Account, LedgerEntry, is_debit, is_credit}
use online_banking.Services.{Services, World}
use online_banking.Payments.Steps.{by_user}
use online_banking.Ledger.{booked_to, balance_of, IsSound}
use online_banking.Statements.{
  end_of_day, owned_account, within, Statement, statement_of, get_statement,
}
use online_banking.Statements.Sums.{booked_until, booked_before, amount_of, turnover, end_of_day-ge}
use online_banking.Statements.Balances.{
  opening-Shown, closing-Shown, total_debits-Shown, total_credits-Shown,
}
use online_banking.Numbers.{Numbers, Prints, Prints-exactly}
use online_banking.Prisma.{sum_column}

-- A statement's account is the user's own; its balances are shown as those of the ledger's entries
-- before the first day and until the end of the last, and its totals as those of the debits and of
-- the credits between.
pub record IsStatement (num : Numbers) (to_date : Text → Option ℕ) (user_id account_id : ℕ)
    (from to : Text) (w : World) (r : Statement) : Type 0 where
  pub profile : CustomerProfile
  pub account : Account
  pub user : by_user user_id profile ≡ true
  pub listed : Memᴰ account w.db.accounts
  pub own : owned_account account_id profile.id account ≡ true
  pub start : ℕ
  pub day : ℕ
  pub start_date : to_date from ≡ some start
  pub day_date : to_date to ≡ some day
  pub in_order : start ≤ day
  pub opening :
      Prints num.decimal_4 r.opening_balance (booked_before account_id start w.db.ledger_entries)
  pub closing :
      Prints num.decimal_4 r.closing_balance
        (booked_until account_id (end_of_day day) w.db.ledger_entries)
  pub debits :
      Prints num.decimal_4 r.total_debits (
        sum_column
          (within is_debit account_id start (end_of_day day))
          amount_of
          w.db.ledger_entries)
  pub credits : Prints num.decimal_4 r.total_credits (
      sum_column (within is_credit account_id start (end_of_day day)) amount_of w.db.ledger_entries)

until-All :
    (id at : ℕ) (entries : List LedgerEntry)
    → All (λ e. e.created_at ≤ at) entries
    → booked_until id at entries ≡ booked_to id entries
until-All id at [] h = refl
until-All id at (e ∷ entries) h =
    let in_time : leb e.created_at at ≡ true = ground (arith, h.0) in
    elim (Bool-cases (e.account_id == id)) [
      | inl hit ↦ rw (hit, in_time) (rw (until-All id at entries h.1) refl)
      | inr miss ↦ rw miss (rw (until-All id at entries h.1) refl)
    ]

until_before :
    (id at : ℕ) (entries : List LedgerEntry)
    → booked_before id (at + 1) entries ≡ booked_until id at entries
until_before id at [] = refl
until_before id at (e ∷ entries) =
    let same : ltb e.created_at (at + 1) ≡ leb e.created_at at = ground arith in
    rw same (rw (until_before id at entries) refl)

module _ (svc : Services) (to_date : Text → Option ℕ) (user_id account_id : ℕ) (w : World) where
  -- If the amounts of the account's entries add up to at most 7.5 thousand million, a statement that is
  -- given is of an account of the user's customer that is no system account, for a period of valid
  -- dates in order. Its texts are those of the exact decimals, or `-0.0000` for zero: the opening
  -- balance is the net of the account's entries before the first day, the closing balance that of
  -- the entries until the end of the last day, and the totals are the sums of the debits and of the
  -- credits between.
  pub get_statement-IsStatement :
      (from to : Text) (w' : World) (r : Statement)
      → turnover account_id w.db.ledger_entries ≤ 75000000000000
      → get_statement svc to_date user_id account_id from to w ≡ (ok r, w')
      → IsStatement svc.numbers to_date user_id account_id from to w r
  unfolding get_statement
  get_statement-IsStatement from to w' r modest h =
      elim (Option-cases (svc.prisma.find CustomerProfile (by_user user_id) w.db.profiles)) [
        | inl missing ↦ absurd (ground arith)
        | inr (profile, found) ↦
            elim (Option-cases
              (svc.prisma.find Account (owned_account account_id profile.id) w.db.accounts)) [
                | inl missing ↦ absurd (ground arith)
                | inr (account, held) ↦ elim (Option-cases (to_date from)) [
                  | inl invalid ↦ absurd (ground arith)
                  | inr (start, e) ↦ elim (Option-cases (to_date to)) [
                    | inl invalid ↦ absurd (ground arith)
                    | inr (day, e') ↦
                        let own = svc.prisma.find_holds Account _ _ _ held in
                        let same : account.id ≡ account_id = ground arith in
                        let in_order : start ≤ day = ground arith in
                        let run : statement_of svc account from to start (end_of_day day) w
                            ≡ (ok r, w') =
                          ground arith in
                        let few : turnover account.id w.db.ledger_entries ≤ 75000000000000 =
                          rw same modest in
                        record {
                          profile = profile;
                          account = account;
                          user = svc.prisma.find_holds CustomerProfile _ _ _ found;
                          listed = svc.prisma.find_member Account _ _ _ held;
                          own = own;
                          start = start;
                          day = day;
                          start_date = e;
                          day_date = e';
                          in_order = in_order;
                          opening = rw (← same) (
                              opening-Shown svc account from to start (end_of_day day) w w' r run
                                few);
                          closing = rw (← same) (
                              closing-Shown svc account from to start (end_of_day day) w w' r run
                                few (omega (arith, end_of_day-ge day)));
                          debits = rw (← same) (
                              total_debits-Shown svc account from to start (end_of_day day) w w' r
                                run few);
                          credits = rw (← same) (
                              total_credits-Shown svc account from to start (end_of_day day) w w' r
                                run few);
                        }
                  ]
                ]
              ]
      ]

  -- In a sound database whose accounts have all begun with nothing, a statement to a day after which
  -- the ledger has no entries closes with the text of the account's balance, or with `-0.0000` for a
  -- balance of zero, if the amounts of the account's entries add up to at most 7.5 thousand million.
  pub get_statement-balance_of :
      (from to : Text) (w' : World) (r : Statement) (day : ℕ)
      → turnover account_id w.db.ledger_entries ≤ 75000000000000
      → IsSound (λ id. pos 0) w.db
      → get_statement svc to_date user_id account_id from to w ≡ (ok r, w')
      → to_date to ≡ some day
      → All (λ e. e.created_at ≤ end_of_day day) w.db.ledger_entries
      → Prints svc.numbers.decimal_4 r.closing_balance (balance_of account_id w.db.accounts)
  get_statement-balance_of from to w' r day modest sound h date past =
      let s = get_statement-IsStatement from to w' r modest h in
      let same : s.day ≡ day = ground (arith, s.day_date) in
      let shown : booked_until account_id (end_of_day s.day) w.db.ledger_entries
          ≡ balance_of account_id w.db.accounts =
        rw
          (
            same,
            until-All account_id (end_of_day day) w.db.ledger_entries past,
            sound.in_sync account_id,
          )
          (omega int_laws) in
      rw (← shown) s.closing

  -- Of one database, a statement that begins when the last day of another has ended opens with the
  -- text with which the other closes, if the balance then was not zero and the amounts of the
  -- account's entries add up to at most 7.5 thousand million.
  pub get_statement-continues :
      (from to from' to' : Text) (v v' : World) (r r' : Statement) (day : ℕ)
      → turnover account_id w.db.ledger_entries ≤ 75000000000000
      → booked_until account_id (end_of_day day) w.db.ledger_entries ≢ pos 0
      → get_statement svc to_date user_id account_id from to w ≡ (ok r, v)
      → get_statement svc to_date user_id account_id from' to' w ≡ (ok r', v')
      → to_date to ≡ some day
      → to_date from' ≡ some (end_of_day day + 1)
      → r'.opening_balance ≡ r.closing_balance
  get_statement-continues from to from' to' v v' r r' day modest other h h' date date' =
      let s = get_statement-IsStatement from to v r modest h in
      let s' = get_statement-IsStatement from' to' v' r' modest h' in
      let same : s.day ≡ day = ground (arith, s.day_date) in
      let next : s'.start ≡ end_of_day day + 1 = ground (arith, s'.start_date) in
      let opens : Prints svc.numbers.decimal_4 r'.opening_balance
          (booked_until account_id (end_of_day day) w.db.ledger_entries) =
        rw (next, until_before account_id (end_of_day day) w.db.ledger_entries) at s'.opening in
      let closes : Prints svc.numbers.decimal_4 r.closing_balance
          (booked_until account_id (end_of_day day) w.db.ledger_entries) =
        rw same at s.closing in
      Prints-exactly other opens ∙ sym (Prints-exactly other closes)
