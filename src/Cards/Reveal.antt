-- ===== src/Cards/Reveal.antt =====
-- The details of a card are shown once for a password that its owner was sent.
use online_banking.Base.{
  ℕ, ◌+◌, ◌≡◌, ◌∙◌, true, false, arith, ok, err, none, some, Memᴰ, Option-cases, Bool-cases, inl,
  inr, bad_request, ltb, ap,
}
use online_banking.Base.Text.{Text, text_eq, text_eq→eq, is_empty}
use online_banking.Schema.{CustomerProfile, Card}
use online_banking.Redis.{stored_otp, reveal, password}
use online_banking.Services.{Services, World}
use online_banking.Payments.Steps.{by_user}
use online_banking.Cards.{
  CardDraw, CardDetails, own_open_card, details_of, initiate_reveal, verify_reveal,
}

-- The details are those of an open card of the user's customer, and the password was stored for it.
pub record IsRevealed (svc : Services) (user_id card_id now : ℕ) (otp : Text) (w w' : World)
    (shown : CardDetails) : Type 0 where
  pub profile : CustomerProfile
  pub card : Card
  pub user : by_user user_id profile ≡ true
  pub listed : Memᴰ card w.db.cards
  pub own : own_open_card card_id profile.id card ≡ true
  pub sent : stored_otp (svc.redis.get now (reveal user_id card_id) w.cache) ≡ some otp
  pub details : shown ≡ details_of card
  pub used : (later : ℕ) → svc.redis.get later (reveal user_id card_id) w'.cache ≡ none

module _ (svc : Services) (user_id card_id : ℕ) where
  -- Details are shown only of an open card of the user's own and for the password that is stored
  -- for the user and the card, and that password is gone afterwards.
  pub verify_reveal-IsRevealed :
      (otp : Text) (d : CardDraw) (w w' : World) (shown : CardDetails)
      → verify_reveal svc user_id card_id otp d w ≡ (ok shown, w')
      → IsRevealed svc user_id card_id d.now otp w w' shown
  unfolding verify_reveal
  verify_reveal-IsRevealed otp d w w' shown h =
      elim (Option-cases (svc.prisma.find CustomerProfile (by_user user_id) w.db.profiles)) [
        | inl missing ↦ absurd (ground arith)
        | inr (profile, found) ↦
            elim (Option-cases
              (svc.prisma.find Card (own_open_card card_id profile.id) w.db.cards)) [
                | inl missing ↦ absurd (ground arith)
                | inr (card, held) ↦
                    let own = svc.prisma.find_holds Card _ _ _ held in
                    let same : card.id ≡ card_id = ground arith in
                    elim (Option-cases
                      (stored_otp (svc.redis.get d.now (reveal user_id card.id) w.cache))) [
                        | inl expired ↦ absurd (ground arith)
                        | inr (stored, there) ↦ elim (Bool-cases (text_eq stored otp)) [
                          | inr wrong ↦ absurd (ground arith)
                          | inl right ↦ record {
                            profile = profile;
                            card = card;
                            user = svc.prisma.find_holds CustomerProfile _ _ _ found;
                            listed = svc.prisma.find_member Card _ _ _ held;
                            own = own;
                            sent =
                                rw (← same)
                                  (there ∙ ap (λ t. some t) (text_eq→eq stored otp right));
                            details = ground arith;
                            used = λ later.
                                ground
                                  (arith, svc.redis.get_del later (reveal user_id card_id) w.cache);
                          }
                        ]
                      ]
              ]
      ]

  -- A request that sends a password leaves the database as it is. Within 300 seconds a reveal with
  -- another password is refused and changes nothing, and after them every reveal is refused.
  pub verify_reveal-initiate_reveal :
      (d d' : CardDraw) (otp : Text) (w w' : World)
      → is_empty d.otp ≡ false
      → initiate_reveal svc user_id card_id d w ≡ (ok tt, w')
      → (ltb d'.now (d.now + 300000) ≡ false
          → (verify_reveal svc user_id card_id otp d' w').0
            ≡ err (bad_request "OTP expired or invalid"))
        × (ltb d'.now (d.now + 300000) ≡ true
            → text_eq d.otp otp ≡ false
            → verify_reveal svc user_id card_id otp d' w' ≡ (err (bad_request "Invalid OTP"), w'))
        × (w'.db ≡ w.db)
  unfolding initiate_reveal verify_reveal
  verify_reveal-initiate_reveal d d' otp w w' filled h =
      elim (Option-cases (svc.prisma.find CustomerProfile (by_user user_id) w.db.profiles)) [
        | inl missing ↦ absurd (ground arith)
        | inr (profile, found) ↦
            elim (Option-cases
              (svc.prisma.find Card (own_open_card card_id profile.id) w.db.cards)) [
                | inl missing ↦ absurd (ground arith)
                | inr (card, held) ↦
                    let back =
                      svc.redis.get_set_ex d'.now d.now 300 (reveal user_id card.id)
                        (password d.otp) w.cache in
                    (
                      (λ late. ground (arith, back)),
                      (λ soon wrong. ground (arith, back)),
                      ground arith,
                    )
              ]
      ]
