-- ===== src/Order/Postgres/Shown.antt =====
-- order/internal/repository/order/repository.go: the orders that the tables show to a reader.
use microservices_course.Common.{
  ◌≡◌, refl, sym, ap, ◌∙◌, Option, some, none, List, ◌==◌, nat_eq, string_eq, inl, inr, arith,
  Option-cases, nat-cases, nat_beq_iff, if◌then◌else◌,
}
use microservices_course.Go.{Uuid, UuidPackage}
use microservices_course.Order.Model.{Order, OrderStatus, PaymentMethod}
use microservices_course.Order.Records.{ItemRecord}
use microservices_course.Order.Converter.{stamp, to_model-stamp, to_model_keeps}
use microservices_course.Order.Repository.{Kept, Put}
use microservices_course.Order.Postgres.{OrdersDb, record_of}
use microservices_course.Order.Postgres.Steps.{order_of}
use microservices_course.Order.Postgres.Tables.{row_of, StoredRow, Tables, Same, Wrote}

module _ {St : Type 0} (uuids : UuidPackage) {db : OrdersDb St} (tables : Tables uuids db) where
  open tables use {orders, items, Good}

  abbrev pub shown : Uuid → List ItemRecord → Option StoredRow → Option Order
  shown u is none = none
  shown u is (some r) = some (order_of uuids u is r)

  -- The order that a reader sees under a UUID.
  abbrev pub view : St → Uuid → Option Order
  view s u = shown u (items s u) (orders s u)

  pub Kept_of_Same : {s t : St} → Same orders items Good s t → Kept view Good s t
  Kept_of_Same {s} {t} h = record {
    good = h.good;
    shows = λ v.
        ap (λ is. shown v is (orders t v)) (h.same_items v)
        ∙ ap (shown v (items s v)) (h.same_orders v);
  }

  pub Put_of_Wrote :
      {s t : St} (u : Uuid) (r : StoredRow) (o : Order)
      → Wrote orders items Good u r s t
      → order_of uuids u (items s u) r ≡ o
      → Put view Good u o s t
  Put_of_Wrote {s} {t} u r o h e = record {
    good = h.good;
    shows = λ v.
        ap (λ is. shown v is (orders t v)) (h.same_items v)
        ∙ ap (shown v (items s v)) (h.new_orders v)
        ∙ choose v;
  }
    where
      choose :
          (v : Uuid)
          → shown v (items s v) (if u == v then some r else orders s v)
            ≡ (if u == v then some o else view s v)
      choose v = elim (nat-cases u v) [
        | inl q ↦ rw (← q) (rw ((nat_beq_iff u u).1 refl) (ap some e))
        | inr n ↦ rw n refl
      ]

  -- What a reader sees comes from a row.
  pub record Seen (s : St) (u : Uuid) (o : Order) : Type 0 where
    pub row : StoredRow
    pub found : orders s u ≡ some row
    pub shows : order_of uuids u (items s u) row ≡ o
    pub status_lem : row.status ≡ o.status

  pub seen : (s : St) (u : Uuid) (o : Order) → view s u ≡ some o → Seen s u o
  seen s u o e = elim (Option-cases (orders s u)) [
    | inl n ↦ absurd (none_not_some (ap (shown u (items s u)) (sym n) ∙ e))
    | inr (r, f) ↦
        let q : order_of uuids u (items s u) r ≡ o =
          unsome (ap (shown u (items s u)) (sym f) ∙ e) in
        record {
          row = r;
          found = f;
          shows = q;
          status_lem = sym (to_model_keeps _).1 ∙ ap (λ x. x.status) q;
        }
  ]
    where
      none_not_some : none ≡ some o → ⊥
      none_not_some h = ground arith

      unsome : {a b : Order} → some a ≡ some b → a ≡ b
      unsome {a} h = ap (λ x. elim x [ some y ↦ y | none ↦ a ]) h

  pub unseen : (s : St) (u : Uuid) → view s u ≡ none → orders s u ≡ none
  unseen s u e = elim (Option-cases (orders s u)) [
    | inl n ↦ n
    | inr (r, f) ↦ absurd (some_not_none (ap (shown u (items s u)) (sym f) ∙ e))
  ]
    where
      some_not_none : {a : Order} → some a ≡ none → ⊥
      some_not_none h = ground arith

  -- A row with another status and payment.
  pub restamped :
      (u : Uuid) (is : List ItemRecord) (r : StoredRow) (o : Order) (x : OrderStatus)
      (t : Option Uuid) (m : Option PaymentMethod)
      → order_of uuids u is r ≡ o
      → order_of uuids u is (record r { status = x; transaction_uuid = t; payment_method = m })
        ≡ stamp o x t m
  restamped u is r o x t m e = to_model-stamp _ x t m ∙ ap (λ v. stamp v x t m) e

  -- A row with another status.
  pub restatused :
      (u : Uuid) (is : List ItemRecord) (r : StoredRow) (o : Order) (x : OrderStatus)
      → order_of uuids u is r ≡ o
      → order_of uuids u is (record r { status = x }) ≡ record o { status = x }
  restatused u is r o x e =
      let (_, _, tx, method) =
        to_model_keeps (record_of (row_of uuids u r) r.transaction_uuid is) in
      restamped u is r o x r.transaction_uuid r.payment_method e
      ∙ (λ k. stamp o x (sym tx k) (sym method k))
      ∙ (λ k. stamp o x (e k).transaction_uuid (e k).payment_method)
