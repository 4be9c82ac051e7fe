-- ===== src/Prisma/Memory.antt =====
-- The client of a database in memory that nobody else uses: the interface's assumptions can be met.
use online_banking.Base.{
  ◌≡◌, refl, sym, ap, Bool, true, Option, none, some, List, [], ◌∷◌, ◌++◌, Memᴰ, inl, inr, arith,
  count, patch, ◌==◌, if◌then◌else◌, Result, ok, err, Bool-cases, false, All, IsOrdered, ◌&&◌,
}
use online_banking.Schema.{Db}
use online_banking.Prisma.{Prisma, Created, created, sum_column}
use online_banking.Prisma.Tx.{
  Tx, TxState, begin, notified, Settles, committed, rolled_back, Transactions,
}

module _ {R : Type 0} where
  abbrev pub first : (R → Bool) → List R → Option R
  first p [] = none
  first p (x ∷ xs) = if p x then some x else first p xs

  pub first-Memᴰ : (p : R → Bool) (t : List R) (r : R) → first p t ≡ some r → Memᴰ r t
  first-Memᴰ p [] r h = cc
  first-Memᴰ p (x ∷ xs) r h = elim (Bool-cases (p x)) [
    | inl hit ↦ Memᴰ.head (ground arith)
    | inr miss ↦ Memᴰ.tail (first-Memᴰ p xs r (ground arith))
  ]

  pub first_holds : (p : R → Bool) (t : List R) (r : R) → first p t ≡ some r → p r ≡ true
  first_holds p [] r h = cc
  first_holds p (x ∷ xs) r h = elim (Bool-cases (p x)) [
    | inl hit ↦ subst_hit x r hit (ground arith)
    | inr miss ↦ first_holds p xs r (ground arith)
  ]
    where
      subst_hit : (x r : R) → p x ≡ true → x ≡ r → p r ≡ true
      subst_hit x r hit e = rw e at hit

  pub first_misses : (p : R → Bool) (t : List R) → first p t ≡ none → count p t ≡ 0
  first_misses p [] h = refl
  first_misses p (x ∷ xs) h = ground (arith, first_misses p xs)

  -- sorting by insertion
  abbrev pub insert_by : (R → R → Bool) → R → List R → List R
  insert_by before x [] = x ∷ []
  insert_by before x (y ∷ t) = if before x y then x ∷ y ∷ t else y ∷ insert_by before x t

  abbrev pub many : (R → Bool) → (R → R → Bool) → List R → List R
  many p before [] = []
  many p before (x ∷ t) = if p x then insert_by before x (many p before t) else many p before t

  All-insert_by :
      (P : R → Type 0) (before : R → R → Bool) (x : R) (t : List R)
      → P x
      → All P t
      → All P (insert_by before x t)
  All-insert_by P before x [] h k = (h, tt)
  All-insert_by P before x (y ∷ t) h k = elim (Bool-cases (before x y)) [
    | inl e ↦ rw e (h, k)
    | inr e ↦ rw e (k.0, All-insert_by P before x t h k.1)
  ]

  pub many_among :
      (P : R → Type 0) (p : R → Bool) (before : R → R → Bool) (t : List R)
      → All P t
      → All P (many p before t)
  many_among P p before [] h = tt
  many_among P p before (x ∷ t) h = elim (Bool-cases (p x)) [
    | inl e ↦ rw e (All-insert_by P before x (many p before t) h.0 (many_among P p before t h.1))
    | inr e ↦ rw e (many_among P p before t h.1)
  ]

  pub many_holds :
      (p : R → Bool) (before : R → R → Bool) (t : List R) → All (λ r. p r ≡ true) (many p before t)
  many_holds p before [] = tt
  many_holds p before (x ∷ t) = elim (Bool-cases (p x)) [
    | inl e ↦
        rw e (All-insert_by (λ r. p r ≡ true) before x (many p before t) e (many_holds p before t))
    | inr e ↦ rw e (many_holds p before t)
  ]

  count-insert_by :
      (q : R → Bool) (before : R → R → Bool) (x : R) (t : List R)
      → count q (insert_by before x t) ≡ count q (x ∷ t)
  count-insert_by q before x [] = refl
  count-insert_by q before x (y ∷ t) = ground (arith, count-insert_by q before x t)

  pub count-many :
      (p q : R → Bool) (before : R → R → Bool) (t : List R)
      → count q (many p before t) ≡ count (λ r. p r && q r) t
  count-many p q before [] = refl
  count-many p q before (x ∷ t) =
      ground (arith, count-many p q before t, count-insert_by q before x (many p before t))

  module _ (before : R → R → Bool)
      (total : (a b : R) → before a b ≡ false → before b a ≡ true) where
    insert_by-IsOrdered :
        (x : R) (t : List R) → IsOrdered before t → IsOrdered before (insert_by before x t)
    insert_by-IsOrdered x [] h = tt
    insert_by-IsOrdered x (y ∷ t) h = elim (Bool-cases (before x y)) [
      | inl e ↦ rw e (e, h)
      | inr e ↦ rw e (after_head x y t (total x y e) h)
    ]
      where
        after_head :
            (x y : R) (t : List R)
            → before y x ≡ true
            → IsOrdered before (y ∷ t)
            → IsOrdered before (y ∷ insert_by before x t)
        after_head x y [] e h = (e, tt)
        after_head x y (z ∷ t) e h = elim (Bool-cases (before x z)) [
          | inl le ↦ rw le (e, (le, h.1))
          | inr gt ↦ rw gt (h.0, after_head x z t (total x z gt) h.1)
        ]

    pub many-IsOrdered : (p : R → Bool) (t : List R) → IsOrdered before (many p before t)
    many-IsOrdered p [] = tt
    many-IsOrdered p (x ∷ t) = elim (Bool-cases (p x)) [
      | inl e ↦ rw e (insert_by-IsOrdered x (many p before t) (many-IsOrdered p t))
      | inr e ↦ rw e (many-IsOrdered p t)
    ]

abbrev pub memory : Prisma
memory = record {
  find = λ R. first;
  find_member = λ R. first-Memᴰ;
  find_holds = λ R. first_holds;
  find_misses = λ R. first_misses;
  update_many = λ R p f t. (count p t, patch p f t);
  update_many_patches = λ R p f t. refl;
  update = λ R p f t. if count p t == 0 then none else some (patch p f t);
  update_patches = λ R p f t. refl;
  create = λ R r t. created (t ++ r ∷ []);
  create_appends = λ R r t t' h. created_inj h;
  find_many = λ R. many;
  find_many_among = λ R. many_among;
  find_many_holds = λ R. many_holds;
  find_many_count = λ R. count-many;
  find_many_ordered = λ R p before t total. many-IsOrdered before total p t;
  aggregate_sum = λ R p column t. if count p t == 0 then none else some (sum_column p column t);
  aggregate_sum_adds = λ R p column t. refl;
}
  where
    taken : {R : Type 0} → Created R → List R → List R
    taken (created t) _ = t
    taken (Created.violated t) d = d

    created_inj : {R : Type 0} {t u : List R} → created t ≡ created u → u ≡ t
    created_inj h = sym (ap (λ c. taken c []) h)

module _ {A : Type 0} where
  -- commits, or rolls back on an exception of the callback
  abbrev pub settle : Db → Result A × TxState → Result A × Db
  settle db (ok a, s) = (ok a, notified s.db s.outside)
  settle db (err e, s) = (err e, notified db s.outside)

  pub settle-Settles :
      (body : Tx A) (db : Db) (r : Result A × TxState)
      → body (begin db) ≡ r
      → Settles body db (settle db r)
  settle-Settles body db (ok a, s) h = committed a s h refl
  settle-Settles body db (err e, s) h = rolled_back e s h refl

-- Every transaction runs alone.
abbrev pub alone : Transactions
alone = record {
  run = λ A attempt body db. settle db (body (begin db));
  run_settles = λ A attempt body db. settle-Settles body db (body (begin db)) refl;
}
