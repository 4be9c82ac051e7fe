-- ===== src/Admin/Audit/Matches.antt =====
-- What a filter of audit events asks for, apart from the `where` clause that is made of it.
use online_banking.Base.{
  ℕ, ◌≡◌, ◌≤◌, ◌⊎◌, ◌↔◌, inl, inr, refl, true, Option, none, some, [], ◌∷◌, arith, ok, Exception,
  String, Bool-cases, Option-cases,
}
use text.Mathlib.Text.{◌==◌ as str_eq}
use text.Mathlib.TextEquality.{eq_iff}
use online_banking.Base.Text.{Text}
use online_banking.Schema.{AuditEvent}
use online_banking.Services.{World}
use online_banking.Admin.Audit.{
  AuditEventFilters, parse_date, str_matches, id_matches, not_before, not_after, audit_where,
}

-- a given text that is not empty is the event's
abbrev AsksText : Option String → String → Type 0
AsksText none s = Unit {0}
AsksText (some t) s = (t ≡ "") ⊎ (s ≡ t)

abbrev AsksId : Option ℕ → ℕ → Type 0
AsksId none id = Unit {0}
AsksId (some x) id = id ≡ x

-- a given text that is not empty means a date, for which something holds
abbrev AsksDate : (Text → Option ℕ) → Option Text → (ℕ → Type 0) → Type 0
AsksDate to_date none P = Unit {0}
AsksDate to_date (some []) P = Unit {0}
AsksDate to_date (some (c ∷ t)) P = (at : ℕ) × (to_date (c ∷ t) ≡ some at) × P at

pub record Matches (to_date : Text → Option ℕ) (f : AuditEventFilters) (e : AuditEvent)
    : Type 0 where
  pub action : AsksText f.action e.action
  pub resource_type : AsksText f.resource_type e.resource_type
  pub actor : AsksId f.actor_user_id e.actor_user_id
  pub since : AsksDate to_date f.from (λ at. at ≤ e.created_at)
  pub until : AsksDate to_date f.to (λ at. e.created_at ≤ at)

str_matches-AsksText : (o : Option String) (s : String) → (str_matches o s ≡ true) ↔ AsksText o s
str_matches-AsksText none s = (λ h. tt, λ h. refl)
str_matches-AsksText (some t) s = (
  λ h. elim (Bool-cases (str_eq t "")) [
    | inl blank ↦ inl ((eq_iff t "").0 blank)
    | inr given ↦ inr ((eq_iff s t).0 (ground arith))
  ],
  λ k. elim k [
    | inl blank ↦ ground (arith, (eq_iff t "").1 blank)
    | inr same ↦ elim (Bool-cases (str_eq t "")) [
      | inl blank ↦ ground arith
      | inr given ↦ ground (arith, (eq_iff s t).1 same)
    ]
  ],
)

id_matches-AsksId : (o : Option ℕ) (id : ℕ) → (id_matches o id ≡ true) ↔ AsksId o id
id_matches-AsksId none id = (λ h. tt, λ h. refl)
id_matches-AsksId (some x) id = (λ h. ground arith, λ h. ground arith)

module _ (to_date : Text → Option ℕ) (e : Exception) (w w' : World) (at : ℕ) where
  not_before-AsksDate :
      (t : Option Text) (start : Option ℕ)
      → parse_date to_date t e w ≡ (ok start, w')
      → (not_before start at ≡ true) ↔ AsksDate to_date t (λ d. d ≤ at)
  unfolding parse_date
  not_before-AsksDate none start h = (λ k. tt, λ k. ground arith)
  not_before-AsksDate (some []) start h = (λ k. tt, λ k. ground arith)
  not_before-AsksDate (some (c ∷ t)) start h = elim (Option-cases (to_date (c ∷ t))) [
    | inl missing ↦ absurd (ground arith)
    | inr (d, found) ↦ (λ k. (d, found, ground arith), λ k. ground (arith, k.1, k.2))
  ]

  not_after-AsksDate :
      (t : Option Text) (end : Option ℕ)
      → parse_date to_date t e w ≡ (ok end, w')
      → (not_after end at ≡ true) ↔ AsksDate to_date t (λ d. at ≤ d)
  unfolding parse_date
  not_after-AsksDate none end h = (λ k. tt, λ k. ground arith)
  not_after-AsksDate (some []) end h = (λ k. tt, λ k. ground arith)
  not_after-AsksDate (some (c ∷ t)) end h = elim (Option-cases (to_date (c ∷ t))) [
    | inl missing ↦ absurd (ground arith)
    | inr (d, found) ↦ (λ k. (d, found, ground arith), λ k. ground (arith, k.1, k.2))
  ]

-- The `where` clause made of a filter's dates decides what the filter asks for.
pub audit_where-Matches :
    (to_date : Text → Option ℕ) (f : AuditEventFilters) (x y : Exception) (w v v' w' : World)
    (start end : Option ℕ) (e : AuditEvent)
    → parse_date to_date f.from x w ≡ (ok start, v)
    → parse_date to_date f.to y v' ≡ (ok end, w')
    → (audit_where f start end e ≡ true) ↔ Matches to_date f e
audit_where-Matches to_date f x y w v v' w' start end e from to =
    let action = str_matches-AsksText f.action e.action in
    let kind = str_matches-AsksText f.resource_type e.resource_type in
    let actor = id_matches-AsksId f.actor_user_id e.actor_user_id in
    let since = not_before-AsksDate to_date x w v e.created_at f.from start from in
    let until = not_after-AsksDate to_date y v' w' e.created_at f.to end to in
    (
      λ h. record {
        action = action.0 (ground arith);
        resource_type = kind.0 (ground arith);
        actor = actor.0 (ground arith);
        since = since.0 (ground arith);
        until = until.0 (ground arith);
      },
      λ m. ground (
        arith,
        action.1 m.action,
        kind.1 m.resource_type,
        actor.1 m.actor,
        since.1 m.since,
        until.1 m.until,
      ),
    )
