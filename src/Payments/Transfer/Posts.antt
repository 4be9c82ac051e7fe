-- ===== src/Payments/Transfer/Posts.antt =====
-- A transfer that meets its conditions is posted.
use online_banking.Base.Text.{Text}
use online_banking.Prisma.{Prisma}
