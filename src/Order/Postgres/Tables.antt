-- ===== src/Order/Postgres/Tables.antt =====
-- migrations/order: the tables `orders` and `order_items`, and what PostgreSQL does with the statements
-- of order/internal/repository/order/repository.go where none of them fails. An UPDATE touches the rows
-- that its WHERE selects; where an INSERT puts a row is up to the database. Two things are taken as given
-- that PostgreSQL does not promise of these tables: a query without ORDER BY lists the rows of an order
-- in one order, that in which they stand in the table, until an INSERT changes it; and every text fits
-- into its column, whose width (VARCHAR) is left out.
use mathlib.Core.List.{Permᴰ}
use microservices_course.Common.{
  String, Bool, true, false, ◌≡◌, Option, some, none, List, [], ◌∷◌, ◌==◌, nat_eq, string_eq, All,
  if◌then◌else◌,
}
use microservices_course.Go.{Uuid, UuidPackage, Time}
use microservices_course.Order.Model.{OrderStatus}
use microservices_course.Order.Records.{ItemRecord}
use microservices_course.Order.Postgres.{
  OrdersDb, OrderRow, RowReply, no_rows, one_row, Scanned, scanned, rows, affected, exists,
}

-- A row of `orders`, without its key.
pub record StoredRow : Type 0 where
  pub status : OrderStatus
  pub transaction_uuid : Option Uuid
  pub payment_method : Option String
  pub created_at : Time

-- `transaction_uuid::text`
abbrev pub uuid_text : UuidPackage → Option Uuid → Option String
uuid_text uuids none = none
uuid_text uuids (some u) = some (uuids.to_string u)

abbrev pub row_of : UuidPackage → Uuid → StoredRow → OrderRow
row_of uuids u r = record {
  order_uuid = u;
  status = r.status;
  transaction_uuid = uuid_text uuids r.transaction_uuid;
  payment_method = r.payment_method;
  created_at = r.created_at;
}

abbrev pub row_reply : UuidPackage → Uuid → Option StoredRow → RowReply
row_reply uuids u none = no_rows
row_reply uuids u (some r) = one_row (row_of uuids u r)

abbrev pub all_scanned : List ItemRecord → List Scanned
all_scanned [] = []
all_scanned (i ∷ is) = scanned i ∷ all_scanned is

abbrev pub is_row : Option StoredRow → Bool
is_row none = false
is_row (some r) = true

-- No row, or one whose status is another.
abbrev pub Misses : OrderStatus → Option StoredRow → Type 0
Misses status none = Unit
Misses status (some r) = (r.status == status) ≡ false

-- The part is not among the items.
abbrev pub Lacks : Uuid → List ItemRecord → Type 0
Lacks part_uuid = All (λ i. (i.part_uuid == part_uuid) ≡ false)

module _ {St : Type 0} (orders : St → Uuid → Option StoredRow) (items : St → Uuid → List ItemRecord)
    (Good : St → Type 0) where
  -- A statement that changes no table.
  pub record Same (s t : St) : Type 0 where
    pub good : Good t
    pub same_orders : (v : Uuid) → orders t v ≡ orders s v
    pub same_items : (v : Uuid) → items t v ≡ items s v

  -- The row of `u` is now `r`.
  pub record Wrote (u : Uuid) (r : StoredRow) (s t : St) : Type 0 where
    pub good : Good t
    pub new_orders : (v : Uuid) → orders t v ≡ (if u == v then some r else orders s v)
    pub same_items : (v : Uuid) → items t v ≡ items s v

  -- The items of `u` are `i` and those before.
  pub record Listed (u : Uuid) (i : ItemRecord) (s t : St) : Type 0 where
    pub good : Good t
    pub same_orders : (v : Uuid) → orders t v ≡ orders s v
    pub new_items : Permᴰ (i ∷ items s u) (items t u)
    pub other_items : (v : Uuid) → (u == v) ≡ false → items t v ≡ items s v

-- A database with these tables, in the states in which its statements do not fail; `keep` is what
-- a TIMESTAMP keeps of a time.
pub record Tables {St : Type 0} (uuids : UuidPackage) (db : OrdersDb St) : Type 1 where
  pub orders : St → Uuid → Option StoredRow
  pub items : St → Uuid → List ItemRecord
  pub Good : St → Type 0
  pub keep : Time → Time
  pub no_orphans : (s : St) (u : Uuid) → Good s → orders s u ≡ none → items s u ≡ []
  pub select_order_lem :
      (u : Uuid) (s : St)
      → Good s
      → ((db.select_order u s).0 ≡ row_reply uuids u (orders s u))
        × Same orders items Good s (db.select_order u s).1
  pub select_items_lem :
      (u : Uuid) (s : St)
      → Good s
      → ((db.select_items u s).0 ≡ rows (all_scanned (items s u)) none)
        × Same orders items Good s (db.select_items u s).1
  pub select_exists_lem :
      (u : Uuid) (s : St)
      → Good s
      → ((db.select_exists u s).0 ≡ exists (is_row (orders s u)))
        × Same orders items Good s (db.select_exists u s).1
  pub update_hit :
      (u : Uuid) (new old : OrderStatus) (s : St) (r : StoredRow)
      → Good s
      → orders s u ≡ some r
      → r.status ≡ old
      → ((db.update_status u new old s).0 ≡ affected 1)
        × Wrote orders items Good u (record r { status = new }) s (db.update_status u new old s).1
  pub update_miss :
      (u : Uuid) (new old : OrderStatus) (s : St)
      → Good s
      → Misses old (orders s u)
      → ((db.update_status u new old s).0 ≡ affected 0)
        × Same orders items Good s (db.update_status u new old s).1
  pub paid_hit :
      (u t : Uuid) (new old : OrderStatus) (m : String) (s : St) (r : StoredRow)
      → Good s
      → orders s u ≡ some r
      → r.status ≡ old
      → ((db.update_paid u new t m old s).0 ≡ affected 1)
        × Wrote orders items Good u
            (record r { status = new; transaction_uuid = some t; payment_method = some m })
            s
            (db.update_paid u new t m old s).1
  pub paid_miss :
      (u t : Uuid) (new old : OrderStatus) (m : String) (s : St)
      → Good s
      → Misses old (orders s u)
      → ((db.update_paid u new t m old s).0 ≡ affected 0)
        × Same orders items Good s (db.update_paid u new t m old s).1
  pub insert_order_lem :
      (u : Uuid) (status : OrderStatus) (at : Time) (s : St)
      → Good s
      → orders s u ≡ none
      → ((db.insert_order u status at s).0 ≡ none)
        × Wrote orders items Good u
            (record {
              status = status;
              transaction_uuid = none;
              payment_method = none;
              created_at = keep at;
            })
            s
            (db.insert_order u status at s).1
  pub insert_item_lem :
      (u : Uuid) (i : ItemRecord) (s : St) (r : StoredRow)
      → Good s
      → orders s u ≡ some r
      → Lacks i.part_uuid (items s u)
      → ((db.insert_item u i.part_uuid i.part_type i.price s).0 ≡ none)
        × Listed orders items Good u i s (db.insert_item u i.part_uuid i.part_type i.price s).1
