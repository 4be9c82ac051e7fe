-- ===== src/Cards/Effect.antt =====
-- What the operations on cards change.
use online_banking.Base.{
  ℕ, ◌≡◌, refl, true, arith, ok, err, count, patch, Memᴰ, Option-cases, inl, inr, List, [], ◌∷◌,
  Bool-cases, count-pos_of_Memᴰ, not_found,
}
use online_banking.Base.Text.{Text}
use online_banking.Schema.{Db, CustomerProfile, Card}
use online_banking.Services.{Services, World}
use online_banking.Services.Statements.{create_notification}
use online_banking.Payments.Steps.{by_user}
use online_banking.Cards.{
  CardDraw, own_card, own_open_card, has_card_id, blocked_card, unblocked_card, closed_card,
  block_card, unblock_card, close_card, initiate_reveal, verify_reveal,
}

-- The cards after a change of one card, which the user's customer has; nothing happens to other rows.
pub record ChangesOwn (user_id card_id : ℕ) (f : Card → Card) (before after : Db) : Type 0 where
  pub profile : CustomerProfile
  pub card : Card
  pub user : by_user user_id profile ≡ true
  pub listed : Memᴰ card before.cards
  pub own : own_card card_id profile.id card ≡ true
  pub cards : after.cards ≡ patch (has_card_id card_id) f before.cards
  pub accounts : after.accounts ≡ before.accounts

module _ (svc : Services) (user_id card_id : ℕ) (d : CardDraw) (w w' : World) where
  -- A card that is blocked is the user's own, and it alone is changed.
  block_card-ChangesOwn :
      (c : Card)
      → block_card svc user_id card_id d w ≡ (ok c, w')
      → ChangesOwn user_id card_id (blocked_card d.now) w.db w'.db
  unfolding block_card create_notification
  block_card-ChangesOwn c h =
      elim (Option-cases (svc.prisma.find CustomerProfile (by_user user_id) w.db.profiles)) [
        | inl missing ↦ absurd (ground arith)
        | inr (profile, found) ↦
            elim (Option-cases (svc.prisma.find Card (own_card card_id profile.id) w.db.cards)) [
              | inl missing ↦ absurd (ground arith)
              | inr (card, held) ↦
                  let own = svc.prisma.find_holds Card _ _ _ held in
                  let same : card.id ≡ card_id = ground arith in
                  record {
                    profile = profile;
                    card = card;
                    user = svc.prisma.find_holds CustomerProfile _ _ _ found;
                    listed = svc.prisma.find_member Card _ _ _ held;
                    own = own;
                    cards = grind (arith, svc.prisma.update_patches);
                    accounts = grind (arith, svc.prisma.update_patches);
                  }
            ]
      ]

  -- A card that is unblocked is the user's own, and it alone is changed.
  unblock_card-ChangesOwn :
      (c : Card)
      → unblock_card svc user_id card_id d w ≡ (ok c, w')
      → ChangesOwn user_id card_id unblocked_card w.db w'.db
  unfolding unblock_card create_notification
  unblock_card-ChangesOwn c h =
      elim (Option-cases (svc.prisma.find CustomerProfile (by_user user_id) w.db.profiles)) [
        | inl missing ↦ absurd (ground arith)
        | inr (profile, found) ↦
            elim (Option-cases (svc.prisma.find Card (own_card card_id profile.id) w.db.cards)) [
              | inl missing ↦ absurd (ground arith)
              | inr (card, held) ↦
                  let own = svc.prisma.find_holds Card _ _ _ held in
                  let same : card.id ≡ card_id = ground arith in
                  record {
                    profile = profile;
                    card = card;
                    user = svc.prisma.find_holds CustomerProfile _ _ _ found;
                    listed = svc.prisma.find_member Card _ _ _ held;
                    own = own;
                    cards = grind (arith, svc.prisma.update_patches);
                    accounts = grind (arith, svc.prisma.update_patches);
                  }
            ]
      ]

  -- A card that is closed is the user's own, and it alone is changed.
  close_card-ChangesOwn :
      close_card svc user_id card_id d w ≡ (ok tt, w')
      → ChangesOwn user_id card_id (closed_card d.now) w.db w'.db
  unfolding close_card create_notification
  close_card-ChangesOwn h =
      elim (Option-cases (svc.prisma.find CustomerProfile (by_user user_id) w.db.profiles)) [
        | inl missing ↦ absurd (ground arith)
        | inr (profile, found) ↦
            elim (Option-cases
              (svc.prisma.find Card (own_open_card card_id profile.id) w.db.cards)) [
                | inl missing ↦ absurd (ground arith)
                | inr (card, held) ↦
                    let own = svc.prisma.find_holds Card _ _ _ held in
                    let same : card.id ≡ card_id = ground arith in
                    record {
                      profile = profile;
                      card = card;
                      user = svc.prisma.find_holds CustomerProfile _ _ _ found;
                      listed = svc.prisma.find_member Card _ _ _ held;
                      own = ground arith;
                      cards = grind (arith, svc.prisma.update_patches);
                      accounts = grind (arith, svc.prisma.update_patches);
                    }
              ]
      ]

-- a request about one card that was answered without an exception
pub data CardStep (svc : Services) (user_id card_id : ℕ) (w w' : World) : Type 0 where
  blocking :
      (d : CardDraw) (c : Card)
      → block_card svc user_id card_id d w ≡ (ok c, w')
      → CardStep svc user_id card_id w w'
  unblocking :
      (d : CardDraw) (c : Card)
      → unblock_card svc user_id card_id d w ≡ (ok c, w')
      → CardStep svc user_id card_id w w'
  closing :
      (d : CardDraw)
      → close_card svc user_id card_id d w ≡ (ok tt, w')
      → CardStep svc user_id card_id w w'

-- what it means to do to the card
abbrev pub change_of :
    {svc : Services} {user_id card_id : ℕ} {w w' : World}
    → CardStep svc user_id card_id w w'
    → Card
    → Card
change_of (blocking d c h) = blocked_card d.now
change_of (unblocking d c h) = unblocked_card
change_of (closing d h) = closed_card d.now

-- A request to block, to unblock or to close a card that is answered without an exception makes that
-- change to a card of the user's customer with the id, and to no other row of the cards' table.
pub CardStep-ChangesOwn :
    (svc : Services) (user_id card_id : ℕ) (w w' : World) (step : CardStep svc user_id card_id w w')
    → ChangesOwn user_id card_id (change_of step) w.db w'.db
CardStep-ChangesOwn svc user_id card_id w w' (blocking d c h) =
    block_card-ChangesOwn svc user_id card_id d w w' c h
CardStep-ChangesOwn svc user_id card_id w w' (unblocking d c h) =
    unblock_card-ChangesOwn svc user_id card_id d w w' c h
CardStep-ChangesOwn svc user_id card_id w w' (closing d h) =
    close_card-ChangesOwn svc user_id card_id d w w' h

-- Where a card has just been closed, no open card of a customer has its id.
module _ (card_id customer_id now : ℕ) where
  open_after_closing :
      (t : List Card)
      → count (own_open_card card_id customer_id) (patch (has_card_id card_id) (closed_card now) t)
        ≡ 0
  open_after_closing [] = refl
  open_after_closing (c ∷ t) = elim (Bool-cases (has_card_id card_id c)) [
    | inl hit ↦ rw hit (ground (arith, open_after_closing t))
    | inr miss ↦ rw miss (ground (arith, open_after_closing t))
  ]

module _ (svc : Services) (user_id card_id : ℕ) where
  -- After a card has been closed, and as long as the cards are as the closing has left them, the
  -- user's requests to close it or to reveal its details fail with a missing card and change nothing.
  pub close_card-once :
      (d d' : CardDraw) (otp : Text) (w w' v : World)
      → close_card svc user_id card_id d w ≡ (ok tt, w')
      → v.db.cards ≡ w'.db.cards
      → (close_card svc user_id card_id d' v ≡ (err (not_found "Card not found"), v))
        × (initiate_reveal svc user_id card_id d' v ≡ (err (not_found "Card not found"), v))
        × (verify_reveal svc user_id card_id otp d' v ≡ (err (not_found "Card not found"), v))
  unfolding close_card initiate_reveal verify_reveal
  close_card-once d d' otp w w' v h still =
      let changed = close_card-ChangesOwn svc user_id card_id d w w' h in
      elim (Option-cases (svc.prisma.find CustomerProfile (by_user user_id) v.db.profiles)) [
        | inl missing ↦ (ground arith, ground arith, ground arith)
        | inr (profile, found) ↦
            elim (Option-cases
              (svc.prisma.find Card (own_open_card card_id profile.id) v.db.cards)) [
                | inl gone ↦ (ground arith, ground arith, ground arith)
                | inr (card, held) ↦
                    let some_open =
                      count-pos_of_Memᴰ (own_open_card card_id profile.id) v.db.cards
                        (svc.prisma.find_member Card _ _ _ held)
                        (svc.prisma.find_holds Card _ _ _ held) in
                    absurd (
                      ground (
                        arith,
                        still,
                        changed.cards,
                        open_after_closing card_id profile.id d.now w.db.cards,
                      ))
              ]
      ]
