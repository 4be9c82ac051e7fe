-- ===== src/Notifications.antt =====
-- backend/src/notifications/notifications.service.ts: marking as read. `create` is in
-- Services/Statements and, for the callback of a transaction, in Payments/Steps.
pub mod Laws
use online_banking.Base.{ℕ, Bool, ◌&&◌, Option, none, some, ok, true, false, ◌==◌}
use online_banking.Schema.{Notification}
use online_banking.Prisma.Statements.{notification_table}
use online_banking.Services.{Services, Service}

abbrev pub is_unread : Notification → Bool
is_unread n = elim n.read_at [ none ↦ true | some _ ↦ false ]

abbrev pub own_notification : ℕ → ℕ → Notification → Bool
own_notification id user_id n = n.id == id && n.user_id == user_id

abbrev pub own_unread : ℕ → Notification → Bool
own_unread user_id n = n.user_id == user_id && is_unread n

abbrev pub read_now : ℕ → Notification → Notification
read_now now n = record n { read_at = some now }

module _ (svc : Services) where
  -- `this.prisma.notification.updateMany`, which returns the count
  abbrev mark : (Notification → Bool) → ℕ → Service ℕ
  mark p now w =
      let (n, t) = svc.prisma.update_many Notification p (read_now now) w.db.notifications in
      (ok n, record w { db = notification_table.replaced w.db t })

  unfoldable pub mark_as_read : ℕ → ℕ → ℕ → Service ℕ
  mark_as_read id user_id now = mark (own_notification id user_id) now

  unfoldable pub mark_all_as_read : ℕ → ℕ → Service ℕ
  mark_all_as_read user_id now = mark (own_unread user_id) now
