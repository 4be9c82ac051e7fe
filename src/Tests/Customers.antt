-- ===== src/Tests/Customers.antt =====
-- The theorems on cards and payees, applied to the small bank.
use online_banking.Base.{
  ◌≡◌, refl, true, false, ok, err, not_found, bad_request, arith, ltb, ◌+◌, [], ◌∷◌, Bool-cases,
  inl, inr,
}
use online_banking.Base.Text.{codes, text_eq, text_eq→eq}
use online_banking.Services.{World}
use online_banking.Services.Statements.{create_notification}
use online_banking.Cards.{
  blocked_card, block_card, close_card, initiate_reveal, verify_reveal, details_of,
}
use online_banking.Cards.Effect.{ChangesOwn, blocking, CardStep-ChangesOwn, close_card-once}
use online_banking.Cards.Reveal.{
  IsRevealed, verify_reveal-IsRevealed, verify_reveal-initiate_reveal,
}
use online_banking.Beneficiaries.{create_beneficiary, remove_beneficiary}
use online_banking.Beneficiaries.Laws.{HasUniqueIbans, beneficiaries-HasUniqueIbans}
use online_banking.Fixtures.{services, bank, world, world_with_card, ann_card, card_draw, to_add}

abbrev after_block : World
after_block = (block_card services 1 501 (card_draw 60000) world_with_card).1

blocked :
    block_card services 1 501 (card_draw 60000) world_with_card
    ≡ (ok (blocked_card 60000 ann_card), after_block)
unfolding block_card create_notification
blocked = refl

CardStep-ChangesOwn_example :
    ChangesOwn 1 501 (blocked_card 60000) world_with_card.db after_block.db
CardStep-ChangesOwn_example =
    CardStep-ChangesOwn services 1 501 world_with_card after_block
      (blocking (card_draw 60000) (blocked_card 60000 ann_card) blocked)

abbrev after_close : World
after_close = (close_card services 1 501 (card_draw 60000) world_with_card).1

closed : close_card services 1 501 (card_draw 60000) world_with_card ≡ (ok tt, after_close)
unfolding close_card create_notification
closed = refl

-- The user's notifications have been cleared since.
abbrev cleared : World
cleared = record after_close { db = record after_close.db { notifications = [] } }

close_card-once_example :
    (close_card services 1 501 (card_draw 61000) cleared
      ≡ (err (not_found "Card not found"), cleared))
    × (initiate_reveal services 1 501 (card_draw 61000) cleared
        ≡ (err (not_found "Card not found"), cleared))
    × (verify_reveal services 1 501 (codes "654321") (card_draw 61000) cleared
        ≡ (err (not_found "Card not found"), cleared))
close_card-once_example =
    close_card-once services 1 501 (card_draw 60000) (card_draw 61000) (codes "654321")
      world_with_card after_close cleared closed refl

abbrev after_reveal : World
after_reveal = (verify_reveal services 1 501 (codes "654321") (card_draw 60000) world_with_card).1

revealed :
    verify_reveal services 1 501 (codes "654321") (card_draw 60000) world_with_card
    ≡ (ok (details_of ann_card), after_reveal)
unfolding verify_reveal
revealed = refl

verify_reveal-IsRevealed_example :
    IsRevealed services 1 501 60000
      (codes "654321")
      world_with_card
      after_reveal
      (details_of ann_card)
verify_reveal-IsRevealed_example =
    verify_reveal-IsRevealed services 1 501 (codes "654321") (card_draw 60000) world_with_card
      after_reveal (details_of ann_card) revealed

abbrev after_request : World
after_request = (initiate_reveal services 1 501 (card_draw 70000) world_with_card).1

requested :
    initiate_reveal services 1 501 (card_draw 70000) world_with_card ≡ (ok tt, after_request)
unfolding initiate_reveal
requested = refl

verify_reveal-initiate_reveal_example :
    (ltb 80000 (70000 + 300000) ≡ false
      → (verify_reveal services 1 501 (codes "999999") (card_draw 80000) after_request).0
        ≡ err (bad_request "OTP expired or invalid"))
    × (ltb 80000 (70000 + 300000) ≡ true
        → text_eq (codes "654321") (codes "999999") ≡ false
        → verify_reveal services 1 501 (codes "999999") (card_draw 80000) after_request
          ≡ (err (bad_request "Invalid OTP"), after_request))
    × (after_request.db ≡ world_with_card.db)
verify_reveal-initiate_reveal_example =
    verify_reveal-initiate_reveal services 1 501 (card_draw 70000) (card_draw 80000)
      (codes "999999") world_with_card after_request refl requested

bank-HasUniqueIbans : HasUniqueIbans bank.beneficiaries
bank-HasUniqueIbans customer_id iban = elim (Bool-cases (text_eq (201 ∷ []) iban)) [
  | inl bob ↦ rw (← text_eq→eq (201 ∷ []) iban bob) (ground arith)
  | inr other ↦ ground arith
]

beneficiaries-HasUniqueIbans_example :
    HasUniqueIbans
      (create_beneficiary services 1 (to_add (codes " ro1 ")) 303 60000 world).1.db.beneficiaries
    × HasUniqueIbans (remove_beneficiary services 1 301 60000 world).1.db.beneficiaries
beneficiaries-HasUniqueIbans_example =
    beneficiaries-HasUniqueIbans services 1 (to_add (codes " ro1 ")) 303 301 60000 world
      bank-HasUniqueIbans
