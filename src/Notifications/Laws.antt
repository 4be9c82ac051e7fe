-- ===== src/Notifications/Laws.antt =====
-- What marking as read does to the notifications of a user and of others.
use online_banking.Base.{
  ℕ, ◌≡◌, ◌≢◌, refl, Bool, true, false, ok, [], ◌∷◌, List, arith, count, patch, ◌==◌, Bool-cases,
  inl, inr,
}
use online_banking.Schema.{Notification}
use online_banking.Services.{Services, World}
use online_banking.Notifications.{
  own_notification, own_unread, read_now, mark_as_read, mark_all_as_read,
}

module _ (user_id now : ℕ) where
  all_read :
      (t : List Notification)
      → count (own_unread user_id) (patch (own_unread user_id) (read_now now) t) ≡ 0
  all_read [] = refl
  all_read (n ∷ t) = elim (Bool-cases (own_unread user_id n)) [
    | inl hit ↦ rw hit (ground (arith, all_read t))
    | inr miss ↦ rw (miss, miss) (all_read t)
  ]

  others_kept :
      (other : ℕ) (p : Notification → Bool) (t : List Notification)
      → ((n : Notification) → p n ≡ true → (n.user_id == other) ≡ false)
      → count (own_unread other) (patch p (read_now now) t) ≡ count (own_unread other) t
  others_kept other p [] apart = refl
  others_kept other p (n ∷ t) apart = elim (Bool-cases (p n)) [
    | inl hit ↦ rw hit (rw (apart n hit) (others_kept other p t apart))
    | inr miss ↦ rw miss (ground (arith, others_kept other p t apart))
  ]

module _ (svc : Services) (user_id now : ℕ) (w : World) where
  -- Marking all as read gives the number of the user's unread notifications, leaves the user none
  -- unread, and leaves every other user as many unread as before.
  mark_all_as_read-own_unread :
      (other : ℕ)
      → other ≢ user_id
      → ((mark_all_as_read svc user_id now w).0
          ≡ ok (count (own_unread user_id) w.db.notifications))
        × (count (own_unread user_id) (mark_all_as_read svc user_id now w).1.db.notifications ≡ 0)
        × (count (own_unread other) (mark_all_as_read svc user_id now w).1.db.notifications
            ≡ count (own_unread other) w.db.notifications)
  unfolding mark_all_as_read
  mark_all_as_read-own_unread other apart =
      rw
        (svc.prisma.update_many_patches Notification (own_unread user_id) (read_now now)
          w.db.notifications)
        (
          refl,
          all_read user_id now w.db.notifications,
          others_kept user_id now other (own_unread user_id) w.db.notifications
              (λ n hit. ground arith),
        )

  -- Marking one notification as read leaves every other user as many unread as before, whatever id
  -- the request names.
  mark_as_read-own_unread :
      (id other : ℕ)
      → other ≢ user_id
      → count (own_unread other) (mark_as_read svc id user_id now w).1.db.notifications
        ≡ count (own_unread other) w.db.notifications
  unfolding mark_as_read
  mark_as_read-own_unread id other apart =
      rw
        (svc.prisma.update_many_patches Notification (own_notification id user_id) (read_now now)
          w.db.notifications)
        (others_kept user_id now other (own_notification id user_id) w.db.notifications
          (λ n hit. ground arith))

  -- Marking all as read answers with the number of the user's unread notifications and leaves the user
  -- none, and neither this nor marking the notification of any id leaves another user more or fewer
  -- unread ones.
  pub notifications-own_unread :
      (id other : ℕ)
      → other ≢ user_id
      → ((mark_all_as_read svc user_id now w).0
          ≡ ok (count (own_unread user_id) w.db.notifications))
        × (count (own_unread user_id) (mark_all_as_read svc user_id now w).1.db.notifications ≡ 0)
        × (count (own_unread other) (mark_all_as_read svc user_id now w).1.db.notifications
            ≡ count (own_unread other) w.db.notifications)
        × (count (own_unread other) (mark_as_read svc id user_id now w).1.db.notifications
            ≡ count (own_unread other) w.db.notifications)
  notifications-own_unread id other apart =
      let all_read_now = mark_all_as_read-own_unread other apart in
      (all_read_now.0, all_read_now.1, all_read_now.2, mark_as_read-own_unread id other apart)
