-- ===== src/Payments/Outcome.antt =====
-- How a payment may end, for the money and for the rest of the database.
use online_banking.Base.{
  ℕ, ◌≡◌, ◌∙◌, ◌⊎◌, refl, Bool, true, false, Option, none, some, List, [], Memᴰ, Result, ok, err,
}
use online_banking.Base.Int.{ℤ, pos, ◌≤ℤ◌}
use online_banking.Base.Text.{Text}
use online_banking.Schema.{Db, Notification, IdempotencyKey, IdempotencyStatus}
use online_banking.Schema.Json.{Json}
use online_banking.Prisma.{Prisma, violated}
use online_banking.Prisma.Tx.{notified}
use online_banking.Services.{World}
use online_banking.Ledger.{IsPosted, Covers, SameMoney, IsSound}
use online_banking.Ledger.Posted.{IsPosted-IsSound, SameMoney-IsSound}
use online_banking.Payments.Types.{ServiceResult}
use online_banking.Payments.Steps.{Movement, by_user_and_key}

-- A key that the database has: a row of the table, or a row that was met by the insertion of one with
-- the same user and key.
pub data IsKnown (prisma : Prisma) (user_id : ℕ) (key : Text) (table : List IdempotencyKey)
    (row : IdempotencyKey) : Type 0 where
  listed : Memᴰ row table → IsKnown prisma user_id key table row
  met :
      (fresh : IdempotencyKey) (seen : List IdempotencyKey)
      → by_user_and_key user_id key fresh ≡ true
      → prisma.create IdempotencyKey fresh table ≡ violated seen
      → Memᴰ row seen
      → IsKnown prisma user_id key table row

-- The request's hash was recorded with the key.
abbrev pub IsRecorded : Text → Option Text → Type 0
IsRecorded hash stored = stored ≡ some hash

-- The request's hash was recorded with the key, or no hash was.
abbrev pub IsUncontested : Text → Option Text → Type 0
IsUncontested hash stored = IsRecorded hash stored ⊎ ((stored ≡ none) ⊎ (stored ≡ some []))

-- A body that is stored as the response of the user's completed key, for a request whose hash fits
-- what is stored.
pub record IsStored {B : Type 0} (prisma : Prisma) (user_id : ℕ) (key : Text)
    (Fits : Option Text → Type 0) (parse : Option Json → Option B) (table : List IdempotencyKey)
    (body : B) : Type 0 where
  pub row : IdempotencyKey
  pub known : IsKnown prisma user_id key table row
  pub own : by_user_and_key user_id key row ≡ true
  pub completed : row.status ≡ IdempotencyStatus.completed
  pub fits : Fits row.request_hash
  pub answer : parse row.response_payload ≡ some body

-- A committed payment: a movement that the request allows was posted now, and the answer is 201; or
-- an answer that may be given again was given with 200, and nothing was moved.
pub data IsSettled {B : Type 0} (Allowed : Movement → Type 0) (Replays : B → Type 0)
    (before after : Db) (r : ServiceResult B) : Type 0 where
  posted_now :
      r.http_status ≡ 201
      → (m : Movement) → Allowed m
      → IsPosted before after m
      → Covers m.amount m.source_id before.accounts
      → IsSettled Allowed Replays before after r
  replayed :
      r.http_status ≡ 200
      → Replays r.body
      → SameMoney before after
      → IsSettled Allowed Replays before after r

-- What a payment has done is seen in the accounts and the entries alone.
pub IsSettled-SameMoney :
    {B : Type 0} {Allowed : Movement → Type 0} {Replays : B → Type 0}
    {before before' after' after : Db} {r : ServiceResult B}
    → SameMoney before before'
    → SameMoney after' after
    → IsSettled Allowed Replays before' after' r
    → IsSettled Allowed Replays before after r
IsSettled-SameMoney same later (posted_now s m allowed posted covers) =
    posted_now s m allowed
      (record {
        accounts = rw (← same.accounts) (later.accounts ∙ posted.accounts);
        entries = rw (← same.entries) (later.entries ∙ posted.entries);
        source = rw (← same.accounts) posted.source;
        destination = rw (← same.accounts) posted.destination;
      })
      (rw (← same.accounts) covers)
IsSettled-SameMoney same later (replayed s again kept) = replayed s again (record {
  accounts = later.accounts ∙ kept.accounts ∙ same.accounts;
  entries = later.entries ∙ kept.entries ∙ same.entries;
})

-- The same for another beginning with the same money, where the movements allowed are allowed too.
pub IsSettled-elsewhere :
    {B : Type 0} {Allowed Allowed' : Movement → Type 0} {Replays : B → Type 0}
    {before before' after : Db} {r : ServiceResult B}
    → SameMoney before before'
    → ((m : Movement) → Allowed' m → Allowed m)
    → IsSettled Allowed' Replays before' after r
    → IsSettled Allowed Replays before after r
IsSettled-elsewhere same widen (posted_now s m allowed posted covers) =
    IsSettled-SameMoney same (record { accounts = refl; entries = refl })
      (posted_now s m (widen m allowed) posted covers)
IsSettled-elsewhere same widen (replayed s again kept) =
    IsSettled-SameMoney same (record { accounts = refl; entries = refl }) (replayed s again kept)

abbrev pub is_ok : {A : Type 0} → Result A → Bool
is_ok (ok _) = true
is_ok (err _) = false

-- A request to pay: it was settled; or it was rejected before any transaction and the database is as
-- it was; or its transactions were taken back, and all that remains of them is notifications.
pub data Outcome {B : Type 0} (Allowed : ℕ → Movement → Type 0) (Replays : B → Type 0) (w : World)
    (out : Result (ServiceResult B) × World) : Type 0 where
  settled :
      (attempt : ℕ) (r : ServiceResult B)
      → out.0 ≡ ok r
      → IsSettled (Allowed attempt) Replays w.db out.1.db r
      → out.1.cache ≡ w.cache
      → Outcome Allowed Replays w out
  rejected : is_ok out.0 ≡ false → out.1.db ≡ w.db → Outcome Allowed Replays w out
  taken_back :
      (sent : List Notification)
      → is_ok out.0 ≡ false
      → out.1.db ≡ notified w.db sent
      → out.1.cache ≡ w.cache
      → Outcome Allowed Replays w out

-- Whatever the outcome, the money stays sound if the amounts are not negative.
pub Outcome-IsSound :
    {B : Type 0} {Allowed : ℕ → Movement → Type 0} {Replays : B → Type 0} {opening : ℕ → ℤ}
    {w : World} {out : Result (ServiceResult B) × World}
    → ((attempt : ℕ) (m : Movement) → Allowed attempt m → pos 0 ≤ℤ m.amount)
    → Outcome Allowed Replays w out
    → IsSound opening w.db
    → IsSound opening out.1.db
Outcome-IsSound nonneg (settled attempt r e (posted_now s m allowed posted covers) c) sound =
    IsPosted-IsSound posted (nonneg attempt m allowed) covers sound
Outcome-IsSound nonneg (settled attempt r e (replayed s again same) c) sound =
    SameMoney-IsSound same sound
Outcome-IsSound nonneg (rejected e same) sound = rw same sound
Outcome-IsSound nonneg (taken_back sent e same c) sound =
    SameMoney-IsSound (record { accounts = rw same; entries = rw same }) sound
