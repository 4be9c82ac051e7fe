-- ===== src/Admin/Audit.antt =====
-- `getAuditEvents` of backend/src/admin/admin.service.ts: the events that match a filter, page by page,
-- the latest first. An id in the filter is a number here. `integer_of` is `Number` on a text that means
-- an integer, `to_date` is `new Date(…)`, none for an invalid date.
pub mod Matches
pub mod Pages
use online_banking.Base.{
  ℕ, ◌+◌, ◌-◌, ◌*◌, Bool, true, false, ◌&&◌, Option, none, some, List, take, drop, count,
  bad_request, Exception, pure, throw, gets, ltb, leb, ◌>>=◌, ◌>>◌, ◌==◌, ◌||◌, ok, if◌then◌else◌,
  String,
}
use text.Mathlib.Text.{◌==◌ as str_eq}
use online_banking.Base.Int.{ℤ, pos, negsuc}
use online_banking.Base.Text.{Text, is_empty}
use online_banking.Schema.{AuditEvent}
use online_banking.Services.{Services, Service}

-- `AuditEventFilters`; an empty text counts as missing
pub record AuditEventFilters : Type 0 where
  pub action : Option String
  pub resource_type : Option String
  pub actor_user_id : Option ℕ
  pub from : Option Text
  pub to : Option Text
  pub page : Option Text
  pub limit : Option Text

pub record AuditPage : Type 0 where
  pub items : List AuditEvent
  pub page : ℕ
  pub limit : ℕ
  pub total : ℕ

-- `Math.min`
abbrev pub smaller : ℕ → ℕ → ℕ
smaller a b = if leb a b then a else b

-- an integer that is at least 1
abbrev positive_or : Exception → Option ℤ → Service ℕ
positive_or e (some (pos n)) = if ltb n 1 then throw e else pure n
positive_or e (some (negsuc n)) = throw e
positive_or e none = throw e

module _ (integer_of : Text → Option ℤ) where
  unfoldable pub parse_positive_int : Option Text → ℕ → Exception → Service ℕ
  parse_positive_int none fallback e = pure fallback
  parse_positive_int (some t) fallback e =
      if is_empty t then pure fallback else positive_or e (integer_of t)

abbrev date_or : Exception → Option ℕ → Service (Option ℕ)
date_or e none = throw e
date_or e (some t) = pure (some t)

-- `if (filters.from) createdAt.gte = this.parseDate(…)`
unfoldable pub parse_date :
    (to_date : Text → Option ℕ) → Option Text → Exception → Service (Option ℕ)
parse_date to_date none e = pure none
parse_date to_date (some t) e = if is_empty t then pure none else date_or e (to_date t)

abbrev pub str_matches : Option String → String → Bool
str_matches none s = true
str_matches (some t) s = str_eq t "" || str_eq s t

abbrev pub id_matches : Option ℕ → ℕ → Bool
id_matches none id = true
id_matches (some x) id = id == x

abbrev pub not_before : Option ℕ → ℕ → Bool
not_before none at = true
not_before (some start) at = leb start at

abbrev pub not_after : Option ℕ → ℕ → Bool
not_after none at = true
not_after (some end) at = leb at end

-- the `where` clause
abbrev pub audit_where : AuditEventFilters → Option ℕ → Option ℕ → AuditEvent → Bool
audit_where f start end e =
    str_matches f.action e.action
    && (str_matches f.resource_type e.resource_type
        && (id_matches f.actor_user_id e.actor_user_id
            && (not_before start e.created_at && not_after end e.created_at)))

abbrev pub later_first : AuditEvent → AuditEvent → Bool
later_first a b = leb b.created_at a.created_at

module _ (svc : Services) (integer_of : Text → Option ℤ) (to_date : Text → Option ℕ) where
  -- the `$transaction` of the two queries
  unfoldable pub audit_page :
      AuditEventFilters → Option ℕ → Option ℕ → (page limit : ℕ) → Service AuditPage
  audit_page f start end page limit w = (
    ok (record {
      items = take limit (
          drop ((page - 1) * limit) (
            svc.prisma.find_many AuditEvent (audit_where f start end) later_first
              w.db.audit_events));
      page = page;
      limit = limit;
      total = count (audit_where f start end) w.db.audit_events;
    }),
    w,
  )

  unfoldable pub get_audit_events : AuditEventFilters → Service AuditPage
  get_audit_events f = do
    page ← parse_positive_int integer_of f.page 1 (bad_request "page must be a positive integer")
    asked ←
        parse_positive_int integer_of f.limit 25 (bad_request "limit must be a positive integer")
    start ← parse_date to_date f.from (bad_request "from must be a valid date")
    end ← parse_date to_date f.to (bad_request "to must be a valid date")
    audit_page f start end page (smaller asked 100)
