-- ===== src/Tests/Database.antt =====
-- A database with the tables `orders` and `order_items`, kept as one association list from the UUID of
-- an order to its row and its items, whose statements fail only where a key forbids them.
use mathlib.Core.List.{Permᴰ}
use mathlib.Core.List.Permᴰ
use microservices_course.Common.{
  ◌≡◌, refl, sym, ap, ◌∙◌, Bool, true, false, String, Option, some, none, List, [], ◌∷◌, ◌==◌,
  nat_eq, string_eq, Map, lookup, insert, lookup-insert, arith, if◌then◌else◌, eq_iff, subst,
  Bool-cases, Option-cases, nat-cases, nat_beq_iff, inl, inr,
}
use microservices_course.Go.{Uuid, Time}
use microservices_course.Order.Model.{OrderStatus}
use microservices_course.Order.Records.{ItemRecord}
use microservices_course.Order.Postgres.{OrdersDb, UpdateReply, affected, rows, exists}
use microservices_course.Order.Postgres.Tables.{
  StoredRow, Tables, Same, Wrote, Listed, Lacks, Misses, row_reply, all_scanned, is_row,
}
use microservices_course.Tests.Fixtures.{uuids}

abbrev pub Disk : Type 0
Disk = Map (StoredRow × List ItemRecord)

abbrev row_in : Option (StoredRow × List ItemRecord) → Option StoredRow
row_in none = none
row_in (some (r, is)) = some r

abbrev items_in : Option (StoredRow × List ItemRecord) → List ItemRecord
items_in none = []
items_in (some (r, is)) = is

abbrev pub orders : Disk → Uuid → Option StoredRow
orders s u = row_in (lookup u s)

abbrev pub items : Disk → Uuid → List ItemRecord
items s u = items_in (lookup u s)

abbrev has_part : Uuid → List ItemRecord → Bool
has_part p [] = false
has_part p (i ∷ is) = if i.part_uuid == p then true else has_part p is

abbrev new_row : OrderStatus → Time → StoredRow
new_row status at = record {
  status = status;
  transaction_uuid = none;
  payment_method = none;
  created_at = at;
}

-- UPDATE of the row that WHERE selects.
abbrev update_where : Uuid → OrderStatus → (StoredRow → StoredRow) → Disk → UpdateReply × Disk
update_where u old change s = elim (lookup u s) [
  | none ↦ (affected 0, s)
  | some (r, is) ↦
      if r.status == old then (affected 1, insert u (change r, is) s) else (affected 0, s)
]

abbrev insert_order : Uuid → OrderStatus → Time → Disk → Option String × Disk
insert_order u status at s = elim (lookup u s) [
  | none ↦ (none, insert u (new_row status at, []) s)
  | some (r, is) ↦ (some "duplicate key", s)
]

abbrev insert_item : Uuid → ItemRecord → Disk → Option String × Disk
insert_item u i s = elim (lookup u s) [
  | none ↦ (some "foreign key", s)
  | some (r, is) ↦
      if has_part i.part_uuid is then (some "duplicate key", s) else (none, insert u (r, i ∷ is) s)
]

abbrev pub database : OrdersDb Disk
database = record {
  insert_order = insert_order;
  insert_item = λ u part kind price s.
      insert_item u (record { part_uuid = part; part_type = kind; price = price }) s;
  select_order = λ u s. (row_reply uuids u (orders s u), s);
  select_items = λ u s. (rows (all_scanned (items s u)) none, s);
  update_status = λ u new old s. update_where u old (λ r. record r { status = new }) s;
  update_paid = λ u new t m old s.
      update_where u old
        (λ r. record r { status = new; transaction_uuid = some t; payment_method = some m }) s;
  select_exists = λ u s. (exists (is_row (orders s u)), s);
}

abbrev Good : Disk → Type 0
Good s = Unit

pub same_refl : (s : Disk) → Same orders items Good s s
same_refl s = record { good = tt; same_orders = λ v. refl; same_items = λ v. refl }

orders-insert :
    (u v : Uuid) (r : StoredRow) (is : List ItemRecord) (s : Disk)
    → orders (insert u (r, is) s) v ≡ (if u == v then some r else orders s v)
orders-insert u v r is s =
    rw (lookup-insert u v (r, is) s)
      (elim (Bool-cases (u == v)) [ inl e ↦ rw e refl | inr e ↦ rw e refl ])

items-insert :
    (u v : Uuid) (r : StoredRow) (is : List ItemRecord) (s : Disk)
    → items (insert u (r, is) s) v ≡ (if u == v then is else items s v)
items-insert u v r is s =
    rw (lookup-insert u v (r, is) s)
      (elim (Bool-cases (u == v)) [ inl e ↦ rw e refl | inr e ↦ rw e refl ])

at_key :
    (u v : Uuid) (is : List ItemRecord) (s : Disk)
    → items s u ≡ is
    → (if u == v then is else items s v) ≡ items s v
at_key u v is s e = elim (nat-cases u v) [
  | inl q ↦ rw (← q) (rw ((nat_beq_iff u u).1 refl) (sym e))
  | inr n ↦ rw n refl
]

wrote_insert :
    (u : Uuid) (r : StoredRow) (is : List ItemRecord) (s : Disk)
    → items s u ≡ is
    → Wrote orders items Good u r s (insert u (r, is) s)
wrote_insert u r is s e = record {
  good = tt;
  new_orders = λ v. orders-insert u v r is s;
  same_items = λ v. items-insert u v r is s ∙ at_key u v is s e;
}

Lacks-part : (p : Uuid) (is : List ItemRecord) → Lacks p is → has_part p is ≡ false
Lacks-part p [] _ = refl
Lacks-part p (i ∷ is) (n, ns) = rw n (Lacks-part p is ns)

-- The entry under a key, by its row.
entry :
    (s : Disk) (u : Uuid) (r : StoredRow) → orders s u ≡ some r → lookup u s ≡ some (r, items s u)
entry s u r e = go (lookup u s) e
  where
    go : (x : Option (StoredRow × List ItemRecord)) → row_in x ≡ some r → x ≡ some (r, items_in x)
    go none h = absurd (none_some h)
      where
        none_some : none ≡ some r → ⊥
        none_some q = ground arith
    go (some (q, is)) h = ap (λ y. some (y, is)) (ap (λ y. elim y [ none ↦ q | some z ↦ z ]) h)

pub no_entry : (s : Disk) (u : Uuid) → orders s u ≡ none → lookup u s ≡ none
no_entry s u e = go (lookup u s) e
  where
    go : (x : Option (StoredRow × List ItemRecord)) → row_in x ≡ none → x ≡ none
    go none h = refl
    go (some (q, is)) h = absurd (some_none h)
      where
        some_none : some q ≡ none → ⊥
        some_none h = ground arith

module _ (u : Uuid) (old : OrderStatus) (change : StoredRow → StoredRow) (s : Disk) where
  pub hit :
      (r : StoredRow)
      → orders s u ≡ some r
      → r.status ≡ old
      → ((update_where u old change s).0 ≡ affected 1)
        × Wrote orders items Good u (change r) s (update_where u old change s).1
  hit r found e =
      rw (entry s u r found, update_where)
        (rw ((eq_iff r.status old).1 e) (refl, wrote_insert u (change r) (items s u) s refl))

  pub miss :
      Misses old (orders s u)
      → ((update_where u old change s).0 ≡ affected 0)
        × Same orders items Good s (update_where u old change s).1
  miss n = elim (Option-cases (orders s u)) [
    | inl e ↦ rw (no_entry s u e, update_where) (refl, same_refl s)
    | inr (r, e) ↦
        rw (entry s u r e, update_where) (rw (subst (Misses old) e n) (refl, same_refl s))
  ]

pub added :
    (u : Uuid) (status : OrderStatus) (at : Time) (s : Disk)
    → orders s u ≡ none
    → ((insert_order u status at s).0 ≡ none)
      × Wrote orders items Good u (new_row status at) s (insert_order u status at s).1
added u status at s e =
    let n = no_entry s u e in
    rw (n, insert_order) (refl, wrote_insert u (new_row status at) [] s (ap items_in n))

pub listed :
    (u : Uuid) (i : ItemRecord) (s : Disk) (r : StoredRow)
    → orders s u ≡ some r
    → Lacks i.part_uuid (items s u)
    → ((insert_item u i s).0 ≡ none) × Listed orders items Good u i s (insert_item u i s).1
listed u i s r found lacks =
    rw (entry s u r found, insert_item)
      (rw (Lacks-part i.part_uuid (items s u) lacks) (
        refl,
        record {
          good = tt;
          same_orders = λ v. orders-insert u v r (i ∷ items s u) s ∙ kept v;
          new_items =
              subst (λ is. Permᴰ (i ∷ items s u) is)
                (sym (items-insert u u r (i ∷ items s u) s ∙ rw ((nat_beq_iff u u).1 refl) refl))
                (Permᴰ.refl (i ∷ items s u));
          other_items = λ v n. items-insert u v r (i ∷ items s u) s ∙ rw n refl;
        },
      ))
  where
    kept : (v : Uuid) → (if u == v then some r else orders s v) ≡ orders s v
    kept v = elim (nat-cases u v) [
      | inl q ↦ rw (← q) (rw ((nat_beq_iff u u).1 refl) (sym found))
      | inr n ↦ rw n refl
    ]

abbrev pub tables : Tables uuids database
tables = record {
  orders = orders;
  items = items;
  Good = Good;
  keep = λ at. at;
  no_orphans = λ s u _ e. ap items_in (no_entry s u e);
  select_order_lem = λ u s _. (refl, same_refl s);
  select_items_lem = λ u s _. (refl, same_refl s);
  select_exists_lem = λ u s _. (refl, same_refl s);
  update_hit = λ u new old s r _ found e. hit u old (λ x. record x { status = new }) s r found e;
  update_miss = λ u new old s _ n. miss u old (λ x. record x { status = new }) s n;
  paid_hit = λ u t new old m s r _ found e.
      hit u old (λ x. record x { status = new; transaction_uuid = some t; payment_method = some m })
        s r found e;
  paid_miss = λ u t new old m s _ n.
      miss u old
        (λ x. record x { status = new; transaction_uuid = some t; payment_method = some m }) s n;
  insert_order_lem = λ u status at s _ e. added u status at s e;
  insert_item_lem = λ u i s r _ found n. listed u i s r found n;
}
