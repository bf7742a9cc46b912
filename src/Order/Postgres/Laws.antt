-- ===== src/Order/Postgres/Laws.antt =====
-- order/internal/repository/order/repository.go: the storage in PostgreSQL keeps the contract of
-- `Order.Repository`, over a database with the tables of `Tables`, where no statement fails.
use mathlib.Core.List.{Permᴰ, append-nil}
use microservices_course.Common.{
  ◌≡◌, refl, sym, ap, subst, ◌∙◌, some, none, String, List, [], ◌∷◌, ◌++◌, ◌==◌, nat_eq, inl, inr,
  nat-cases, nat_beq_iff, if◌then◌else◌, arith, All,
}
use microservices_course.Go.{Uuid, UuidPackage, ok}
use microservices_course.Order.Model.{Order, OrderItem}
use microservices_course.Order.Records.{ItemRecord}
use microservices_course.Order.Converter.{order_items_to_record, to_model_keeps}
use microservices_course.Order.Repository.{RepositoryLaws, Put, Mirrors}
use microservices_course.Order.Postgres.{OrdersDb, create, create_items, postgres_repository}
use microservices_course.Order.Postgres.Tables.{StoredRow, Tables, Wrote, Lacks}
use microservices_course.Order.Postgres.Shown.{view, shown, seen, unseen}
use microservices_course.Order.Postgres.Steps.{order_of}
use microservices_course.Order.Postgres.Insert.{Filled, create_items_lem}
use microservices_course.Order.Postgres.Reread.{IsInsertable, fresh_row, order_of-Mirrors}
use microservices_course.Order.Postgres.Methods
use microservices_course.Order.Postgres.Missing

module _ {St : Type 0} (uuids : UuidPackage) (parse_failure : String → String) (db : OrdersDb St)
    (tables : Tables uuids db) where
  open tables use {orders, items, Good, keep}

  Lacks-none : (is : List OrderItem) → All (λ i. Lacks i.part_uuid []) is
  Lacks-none [] = tt
  Lacks-none (i ∷ is) = (tt, Lacks-none is)

  create_of_inserted :
      (o : Order) (s : St)
      → (db.insert_order o.order_uuid o.status o.created_at s).0 ≡ none
      → create uuids parse_failure db o s
        ≡ create_items uuids parse_failure db o.order_uuid o.items
            (db.insert_order o.order_uuid o.status o.created_at s).1
  unfolding create
  create_of_inserted o s e = ground arith

  -- The row of `u` is now `r`, and its items are filled in.
  Put_of_Filled :
      (u : Uuid) (r : StoredRow) (is : List ItemRecord) (s t w : St)
      → Wrote orders items Good u r s t
      → Filled uuids parse_failure db tables u is t w
      → Put (view uuids tables) Good u (order_of uuids u (items w u) r) s w
  Put_of_Filled u r is s t w h k = record {
    good = k.good;
    shows =
        λ v. ap (shown uuids tables v (items w v)) (k.same_orders v ∙ h.new_orders v) ∙ choose v;
  }
    where
      choose :
          (v : Uuid)
          → shown uuids tables v (items w v) (if u == v then some r else orders s v)
            ≡ (if u == v then some (order_of uuids u (items w u) r) else view uuids tables s v)
      choose v = elim (nat-cases u v) [
        | inl q ↦ rw (← q) (rw ((nat_beq_iff u u).1 refl) refl)
        | inr n ↦
            rw n
              (ap (λ is. shown uuids tables v is (orders s v)) (k.other_items v n ∙ h.same_items v))
      ]

  -- Over a database with the tables of `Tables`, in a state where no statement fails: Create of a
  -- new, unpaid order whose items are for different slots and of different parts, and whose
  -- columns agree with them, succeeds; a reader then sees it under its UUID, with its items in
  -- some order and its time as the column keeps it, and every other order as before.
  pub create-Mirrors :
      (o : Order) (s : St)
      → Good s
      → IsInsertable o
      → view uuids tables s o.order_uuid ≡ none
      → ((create uuids parse_failure db o s).0 ≡ ok tt)
        × ((kept : Order) × Mirrors o kept
            × Put
                (view uuids tables)
                Good
                o.order_uuid
                kept
                s
                (create uuids parse_failure db o s).1)
  create-Mirrors o s good h e =
      let u = o.order_uuid in
      let absent : orders s u ≡ none = unseen uuids tables s u e in
      let (a, wrote) = tables.insert_order_lem u o.status o.created_at s good absent in
      let t = (db.insert_order u o.status o.created_at s).1 in
      let empty : items t u ≡ [] = wrote.same_items u ∙ tables.no_orphans s u good absent in
      let found : orders t u ≡ some (fresh_row o (keep o.created_at)) =
        wrote.new_orders u ∙ rw ((nat_beq_iff u u).1 refl) refl in
      let (b, filled) =
        create_items_lem uuids parse_failure db tables u o.items t _ wrote.good found
          (subst (λ is. All (λ i. Lacks i.part_uuid is) o.items) (sym empty) (Lacks-none o.items))
          h.parts in
      rw (create_of_inserted o s a) (
        b,
        (
          _,
          order_of-Mirrors uuids o (keep o.created_at) _ h (
              subst (λ is. Permᴰ is (items (create_items uuids parse_failure db u o.items t).1 u))
                (ap (λ is. order_items_to_record o.items ++ is) empty
                  ∙ append-nil (order_items_to_record o.items))
                filled.new_items),
          Put_of_Filled u _ _ s t _ wrote filled,
        ),
      )

  pub view_key : (s : St) (u : Uuid) {o : Order} → view uuids tables s u ≡ some o → o.order_uuid ≡ u
  view_key s u e =
      ap (λ x. x.order_uuid) (sym (seen uuids tables s u _ e).shows) ∙ (to_model_keeps _).0

  -- The contract of the storage, for the implementation in PostgreSQL.
  abbrev pub postgres_laws : RepositoryLaws (postgres_repository uuids parse_failure db)
  postgres_laws = record {
    view = view uuids tables;
    Good = Good;
    Accepts = IsInsertable;
    view_key = λ s u _ e. view_key s u e;
    create_lem = create-Mirrors;
    get_found = λ u s o g e. Methods.get_found uuids parse_failure db tables u s g o e;
    get_missing = λ u s g e. Missing.get_missing uuids parse_failure db tables u s g e;
    start_pending = λ u s o g e. Methods.start_pending uuids parse_failure db tables u s g o e;
    start_other = λ u s o g e. Methods.start_other uuids parse_failure db tables u s g o e;
    start_missing = λ u s g e. Missing.start_missing uuids parse_failure db tables u s g e;
    finish_processing =
        λ u t m s o g e. Methods.finish_processing uuids parse_failure db tables u s g o e t m;
    finish_other =
        λ u t m s o g e. Methods.finish_other uuids parse_failure db tables u s g o e t m;
    finish_missing =
        λ u t m s g e. Missing.finish_missing uuids parse_failure db tables u s g e t m;
    reset_processing =
        λ u s o g e. Methods.reset_processing uuids parse_failure db tables u s g o e;
    reset_other = λ u s o g e. Methods.reset_other uuids parse_failure db tables u s g o e;
    reset_missing = λ u s g e. Missing.reset_missing uuids parse_failure db tables u s g e;
    cancel_pending = λ u s o g e. Methods.cancel_pending uuids parse_failure db tables u s g o e;
    cancel_other = λ u s o g e. Methods.cancel_other uuids parse_failure db tables u s g o e;
    cancel_missing = λ u s g e. Missing.cancel_missing uuids parse_failure db tables u s g e;
  }
