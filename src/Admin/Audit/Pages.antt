-- ===== src/Admin/Audit/Pages.antt =====
-- The bounds of a page of audit events.
use online_banking.Base.{
  ◌↔◌, All, All-of_members, All-Memᴰ, ℕ, zero, suc, ◌-◌, ◌*◌, ◌≡◌, ◌≤◌, refl, sym, ◌∙◌, bad_request,
  Bool, true, ◌&&◌, Option, inl, inr, List, [], ◌∷◌, take, drop, count, length, IsOrdered, arith,
  ok, Exception, leb, returns?, if◌then◌else◌,
}
use online_banking.Base.Int.{ℤ}
use online_banking.Base.Text.{Text}
use online_banking.Schema.{AuditEvent}
use online_banking.Services.{Services, World}
use online_banking.Admin.Audit.{
  AuditEventFilters, AuditPage, smaller, parse_positive_int, parse_date, audit_where, later_first,
  audit_page, get_audit_events,
}
use online_banking.Admin.Audit.Matches.{Matches, audit_where-Matches}

module _ {A : Type 0} where
  length-drop : (n : ℕ) (t : List A) → length (drop n t) ≡ length t - n
  length-drop zero t = grind arith
  length-drop (suc n) [] = grind arith
  length-drop (suc n) (x ∷ t) = grind (arith, length-drop n t)

  length-take :
      (n : ℕ) (t : List A) → length (take n t) ≡ (if leb n (length t) then n else length t)
  length-take zero t = ground arith
  length-take (suc n) [] = ground arith
  length-take (suc n) (x ∷ t) = ground (arith, length-take n t)

  count-all : (t : List A) → count (λ _. true) t ≡ length t
  count-all [] = refl
  count-all (x ∷ t) = ground (arith, count-all t)

  count-and_true : (p : A → Bool) (t : List A) → count (λ x. p x && true) t ≡ count p t
  count-and_true p [] = refl
  count-and_true p (x ∷ t) = ground (arith, count-and_true p t)

-- A page of the events that a filter asks for: `test` decides what it asks for, and `rows` are all
-- the events that pass it, each as often as it was written, the latest first. The page is cut from
-- them by its number and size.
pub record IsPage (to_date : Text → Option ℕ) (f : AuditEventFilters) (events : List AuditEvent)
    (r : AuditPage) : Type 0 where
  pub test : AuditEvent → Bool
  pub decides : (e : AuditEvent) → (test e ≡ true) ↔ Matches to_date f e
  pub rows : List AuditEvent
  pub matching : All (Matches to_date f) rows
  pub whole : (q : AuditEvent → Bool) → count q rows ≡ count (λ e. test e && q e) events
  pub ordered : IsOrdered later_first rows
  pub first : 1 ≤ r.page
  pub has_room : 1 ≤ r.limit
  pub limited : r.limit ≤ 100
  pub cut : r.items ≡ take r.limit (drop ((r.page - 1) * r.limit) rows)
  pub counted : r.total ≡ count test events
  pub filled : length r.items ≡ (
      if leb r.limit (r.total - (r.page - 1) * r.limit)
      then r.limit
      else r.total - (r.page - 1) * r.limit)

module _ (svc : Services) (integer_of : Text → Option ℤ) (to_date : Text → Option ℕ)
    (w : World) where
  parse_positive_int-positive :
      (t : Option Text) (fallback : ℕ) (e : Exception) (w w' : World) (n : ℕ)
      → 1 ≤ fallback
      → parse_positive_int integer_of t fallback e w ≡ (ok n, w')
      → 1 ≤ n
  unfolding parse_positive_int
  parse_positive_int-positive t fallback e w w' n base h = ground arith

  parse_positive_int-same :
      (t : Option Text) (fallback : ℕ) (e : Exception) (w w' : World) (n : ℕ)
      → parse_positive_int integer_of t fallback e w ≡ (ok n, w')
      → w' ≡ w
  unfolding parse_positive_int
  parse_positive_int-same t fallback e w w' n h = ground arith

  parse_date-same :
      (t : Option Text) (e : Exception) (w w' : World) (at : Option ℕ)
      → parse_date to_date t e w ≡ (ok at, w')
      → w' ≡ w
  unfolding parse_date
  parse_date-same t e w w' at h = ground arith

  audit_page-IsPage :
      (f : AuditEventFilters) (start end : Option ℕ) (page limit : ℕ) (v w' : World) (r : AuditPage)
      → 1 ≤ page
      → 1 ≤ limit
      → limit ≤ 100
      → ((e : AuditEvent) → (audit_where f start end e ≡ true) ↔ Matches to_date f e)
      → audit_page svc integer_of to_date f start end page limit v ≡ (ok r, w')
      → IsPage to_date f v.db.audit_events r
  unfolding audit_page
  audit_page-IsPage f start end page limit v w' r one some_room bounded decides h =
      let p : AuditEvent → Bool = audit_where f start end in
      let rows = svc.prisma.find_many AuditEvent p later_first v.db.audit_events in
      let skipped = (page - 1) * limit in
      let total = count p v.db.audit_events in
      let counted : length rows ≡ total =
        sym (count-all rows)
        ∙ svc.prisma.find_many_count AuditEvent p (λ _. true) later_first v.db.audit_events
        ∙ count-and_true p v.db.audit_events in
      let e : record {
        items = take limit (drop skipped rows);
        page = page;
        limit = limit;
        total = total;
      }
          ≡ r =
        ground arith in
      rw (← e) (record {
        test = p;
        decides = decides;
        rows = rows;
        matching = All-of_members (Matches to_date f) rows (λ x m. (decides x).0 (
            All-Memᴰ (λ a. p a ≡ true) rows
              (svc.prisma.find_many_holds AuditEvent p later_first v.db.audit_events) m));
        whole = λ q. svc.prisma.find_many_count AuditEvent p q later_first v.db.audit_events;
        cut = refl;
        counted = refl;
        first = one;
        has_room = some_room;
        limited = bounded;
        filled = rw (length-take limit (drop skipped rows), length-drop skipped rows, counted) refl;
        ordered =
            svc.prisma.find_many_ordered AuditEvent p later_first v.db.audit_events
              (λ a b h. ground arith);
      })

  -- A page of audit events that is given has a number of at least 1 and a size between 1 and 100. It
  -- is cut, by its number and size, from all the events that match the filter, the latest first; its
  -- total is their number, and it is as full as they allow. An event matches if it has the action,
  -- the resource type and the user that the filter names, and its time is not before the filter's
  -- first date nor after its last.
  pub get_audit_events-IsPage :
      (f : AuditEventFilters) (w' : World) (r : AuditPage)
      → get_audit_events svc integer_of to_date f w ≡ (ok r, w')
      → IsPage to_date f w.db.audit_events r
  unfolding get_audit_events
  get_audit_events-IsPage f w' r h =
      elim (returns? (
        parse_positive_int integer_of f.page 1 (bad_request "page must be a positive integer") w)) [
          | inr (e, v, h0) ↦ absurd (ground arith)
          | inl (page, v, h0) ↦
              elim (returns? (
                parse_positive_int integer_of f.limit 25
                  (bad_request "limit must be a positive integer") v)) [
                    | inr (e, v1, h1) ↦ absurd (ground arith)
                    | inl (asked, v1, h1) ↦
                        elim (returns? (
                          parse_date to_date f.from (bad_request "from must be a valid date") v1)) [
                            | inr (e, v2, h2) ↦ absurd (ground arith)
                            | inl (start, v2, h2) ↦
                                elim (returns? (
                                  parse_date to_date f.to (bad_request "to must be a valid date")
                                    v2)) [
                                      | inr (e, v3, h3) ↦ absurd (ground arith)
                                      | inl (end, v3, h3) ↦
                                          let some_room =
                                            parse_positive_int-positive f.limit 25 _ v v1 asked
                                              (omega arith) h1 in
                                          let still : v3 ≡ w =
                                            parse_date-same f.to _ v2 v3 end h3
                                            ∙ parse_date-same f.from _ v1 v2 start h2
                                            ∙ parse_positive_int-same f.limit 25 _ v v1 asked h1
                                            ∙ parse_positive_int-same f.page 1 _ w v page h0 in
                                          rw (← still) (
                                            audit_page-IsPage f start end page (smaller asked 100)
                                              v3 w' r
                                              (parse_positive_int-positive f.page 1 _ w v page
                                                (omega arith) h0)
                                              (ground (arith, some_room)) (ground arith)
                                              (λ e.
                                                audit_where-Matches to_date f _ _ v1 v2 v2 v3 start
                                                  end e h2 h3)
                                              (ground arith))
                                    ]
                          ]
                  ]
        ]
