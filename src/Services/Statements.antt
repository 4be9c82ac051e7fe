-- ===== src/Services/Statements.antt =====
-- The client's statements outside a transaction, and `NotificationsService.create` of
-- backend/src/notifications/notifications.service.ts.
use online_banking.Base.{
  Bool, none, some, ok, err, unique_violation, record_not_found, gets, or_throw, ◌>>=◌, Exception,
}
use online_banking.Schema.{Notification, AuditEvent}
use online_banking.Prisma.{created, violated}
use online_banking.Prisma.Statements.{Table, notification_table, audit_event_table}
use online_banking.Services.{Services, Service}

module _ (svc : Services) where
  -- `findUnique` and `findFirst`, and an exception where there is no row
  abbrev pub find_or_throw : {R : Type 0} → Table R → (R → Bool) → Exception → Service R
  find_or_throw table p e = do
    found ← gets (λ w. svc.prisma.find _ p (table.rows w.db))
    or_throw found e

  abbrev pub insert_row : {R : Type 0} → Table R → R → Service (Unit {0})
  insert_row table r w = elim (svc.prisma.create _ r (table.rows w.db)) [
    | created t ↦ (ok tt, record w { db = table.replaced w.db t })
    | violated t ↦ (err unique_violation, w)
  ]

  abbrev pub update_row : {R : Type 0} → Table R → (R → Bool) → (R → R) → Service (Unit {0})
  update_row table p f w = elim (svc.prisma.update _ p f (table.rows w.db)) [
    | some t ↦ (ok tt, record w { db = table.replaced w.db t })
    | none ↦ (err record_not_found, w)
  ]

  abbrev pub write_audit : AuditEvent → Service (Unit {0})
  write_audit e = insert_row audit_event_table e

  -- a failure is only logged
  unfoldable pub create_notification : Notification → Service (Unit {0})
  create_notification n w = elim (svc.prisma.create _ n w.db.notifications) [
    | created t ↦ (ok tt, record w { db = notification_table.replaced w.db t })
    | violated t ↦ (ok tt, w)
  ]
