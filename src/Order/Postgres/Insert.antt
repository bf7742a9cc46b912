-- ===== src/Order/Postgres/Insert.antt =====
-- order/internal/repository/order/repository.go: `Create`, over a database with the tables of
-- `Tables`, where no statement fails.
use mathlib.Core.List.{Permᴰ}
use mathlib.Core.List.Permᴰ
use microservices_course.Common.{
  ◌≡◌, refl, ◌∙◌, false, some, none, List, [], ◌∷◌, ◌++◌, String, ◌==◌, nat_eq, arith, All,
  All-Permᴰ, All-both,
}
use microservices_course.Go.{Uuid, UuidPackage, ok}
use microservices_course.Order.Model.{OrderItem}
use microservices_course.Order.Records.{ItemRecord}
use microservices_course.Order.Converter.{order_items_to_record, item_to_record}
use microservices_course.Order.Postgres.{OrdersDb, create_items}
use microservices_course.Order.Postgres.Tables.{StoredRow, Tables, Lacks, Listed}

-- Each item is of a part of its own, as the primary key of `order_items` wants.
abbrev pub PartsApart : List OrderItem → Type 0
PartsApart [] = Unit
PartsApart (i ∷ is) = All (λ j. (i.part_uuid == j.part_uuid) ≡ false) is × PartsApart is

module _ {St : Type 0} (uuids : UuidPackage) (parse_failure : String → String) (db : OrdersDb St)
    (tables : Tables uuids db) where
  open tables use {orders, items, Good, keep}

  -- The items of `u` are `is` and those before.
  pub record Filled (u : Uuid) (is : List ItemRecord) (s t : St) : Type 0 where
    pub good : Good t
    pub same_orders : (v : Uuid) → orders t v ≡ orders s v
    pub new_items : Permᴰ (is ++ items s u) (items t u)
    pub other_items : (v : Uuid) → (u == v) ≡ false → items t v ≡ items s v

  Filled-more :
      {u : Uuid} {i : ItemRecord} {is : List ItemRecord} {s t w : St}
      → Listed orders items Good u i s t
      → Filled u is t w
      → Filled u (i ∷ is) s w
  Filled-more {u} {i} {is} {s} h k = record {
    good = k.good;
    same_orders = λ v. k.same_orders v ∙ h.same_orders v;
    new_items =
        Permᴰ.trans (Permᴰ.symm (Permᴰ.middle i is (items s u)))
          (Permᴰ.trans (Permᴰ.append_left is h.new_items) k.new_items);
    other_items = λ v n. k.other_items v n ∙ h.other_items v n;
  }

  create_items_of_inserted :
      (u : Uuid) (i : OrderItem) (is : List OrderItem) (s : St)
      → (db.insert_item u i.part_uuid i.part_type i.price s).0 ≡ none
      → create_items uuids parse_failure db u (i ∷ is) s
        ≡ create_items uuids parse_failure db u is
            (db.insert_item u i.part_uuid i.part_type i.price s).1
  unfolding create_items
  create_items_of_inserted u i is s e = ground arith

  pub create_items_lem :
      (u : Uuid) (is : List OrderItem) (s : St) (r : StoredRow)
      → Good s
      → orders s u ≡ some r
      → All (λ i. Lacks i.part_uuid (items s u)) is
      → PartsApart is
      → ((create_items uuids parse_failure db u is s).0 ≡ ok tt)
        × Filled u (order_items_to_record is) s (create_items uuids parse_failure db u is s).1
  unfolding create_items order_items_to_record
  create_items_lem u [] s r good found lacks apart = (
    refl,
    record {
      good = good;
      same_orders = λ v. refl;
      new_items = Permᴰ.refl (items s u);
      other_items = λ v n. refl;
    },
  )
  create_items_lem u (i ∷ is) s r good found (lack, lacks) (away, apart) =
      let (a, listed) = tables.insert_item_lem u (item_to_record i) s r good found lack in
      let (b, filled) =
        create_items_lem u is _ r listed.good (listed.same_orders u ∙ found)
          (All-both
            (λ (j : OrderItem) n l.
              All-Permᴰ (λ (x : ItemRecord). (x.part_uuid == j.part_uuid) ≡ false) listed.new_items
                (n, l))
            is away lacks)
          apart in
      rw (create_items_of_inserted u i is s a) (b, Filled-more listed filled)
