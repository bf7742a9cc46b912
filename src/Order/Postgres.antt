-- ===== src/Order/Postgres.antt =====
-- order/internal/repository/order/repository.go: the order storage in PostgreSQL. The database is a
-- parameter: what it does with each statement that the code sends, failures included.
mod Statements
pub mod Tables
pub mod Steps
pub mod Shown
pub mod Methods
pub mod Missing
pub mod Insert
pub mod Reread
pub mod Laws
pub mod Agreement
pub mod Failures
use microservices_course.Common.{
  ℕ, String, Bool, true, false, Option, some, none, List, [], ◌∷◌, ◌++◌, ◌==◌, nat_eq,
  if◌then◌else◌,
}
use microservices_course.Go.{
  Action, Result, Uuid, UuidPackage, nil_uuid, ok, err, sentinel, wrap, foreign, lift, pure, ◌>>=◌,
  ◌>>◌,
}
use microservices_course.Order.Errors.{OrderError, order_not_found}
use microservices_course.Order.Model.{
  Order, OrderItem, OrderStatus, PaymentMethod, status_pending_payment, status_payment_processing,
  status_paid, status_cancelled,
}
use microservices_course.Order.Records.{OrderRecord, ItemRecord}
use microservices_course.Order.Converter.{order_to_model}
use microservices_course.Order.Repository.{OrderRepository}
pub use Statements.*

-- `if _, err := db.Exec(...); err != nil { return fmt.Errorf("context: %w", err) }`
abbrev pub insert_with :
    {St : Type 0} → String → (St → Option String × St) → Action St OrderError (Unit {0})
insert_with context statement s =
    let (failure, t) = statement s in
    elim failure [ none ↦ (ok tt, t) | some text ↦ (err (wrap context (foreign text)), t) ]

abbrev pub update_with : {St : Type 0} → String → (St → UpdateReply × St) → Action St OrderError ℕ
update_with context statement s =
    let (reply, t) = statement s in
    elim reply [
      | affected n ↦ (ok n, t)
      | update_failed text ↦ (err (wrap context (foreign text)), t)
    ]

-- The loop over the rows of `Get`.
unfoldable pub scan_items :
    List Scanned → Option String → List ItemRecord → Result OrderError (List ItemRecord)
scan_items [] none items = ok items
scan_items [] (some text) items = err (wrap "прочитать позиции заказа" (foreign text))
scan_items (scanned item ∷ rest) rows_err items = scan_items rest rows_err (items ++ item ∷ [])
scan_items (scan_failed text ∷ rest) rows_err items =
    err (wrap "прочитать позицию заказа" (foreign text))

abbrev pub read_items : RowsReply → Result OrderError (List ItemRecord)
read_items (query_failed text) = err (wrap "получить позиции заказа" (foreign text))
read_items (rows rs rows_err) = scan_items rs rows_err []

abbrev pub read_row : RowReply → Result OrderError OrderRow
read_row no_rows = err (sentinel order_not_found)
read_row (one_row row) = ok row
read_row (row_failed text) = err (wrap "получить заказ" (foreign text))

-- The record, once both queries are read.
abbrev pub record_of : OrderRow → Option Uuid → List ItemRecord → OrderRecord
record_of row transaction_uuid items = record {
  order_uuid = row.order_uuid;
  hull_uuid = nil_uuid;
  engine_uuid = nil_uuid;
  shield_uuid = none;
  weapon_uuid = none;
  total_price = 0;
  transaction_uuid = transaction_uuid;
  payment_method = row.payment_method;
  status = row.status;
  created_at = row.created_at;
  items = items;
}

-- The order that an UPDATE which hit a row returns: the other fields have their zero values.
abbrev pub updated_order : Uuid → Option Uuid → Option PaymentMethod → OrderStatus → Order
updated_order order_uuid transaction_uuid method status = record {
  order_uuid = order_uuid;
  hull_uuid = nil_uuid;
  engine_uuid = nil_uuid;
  shield_uuid = none;
  weapon_uuid = none;
  total_price = 0;
  transaction_uuid = transaction_uuid;
  payment_method = method;
  status = status;
  created_at = 0;
  items = [];
}

-- `parse_failure` is the text of the error of `uuid.Parse`.
module _ {St : Type 0} (uuids : UuidPackage) (parse_failure : String → String)
    (db : OrdersDb St) where
  -- The loop over the items of `Create`.
  unfoldable pub create_items : Uuid → List OrderItem → Action St OrderError (Unit {0})
  create_items order_uuid [] = pure tt
  create_items order_uuid (item ∷ items) = do
    insert_with "создать позицию заказа"
        (db.insert_item order_uuid item.part_uuid item.part_type item.price)
    create_items order_uuid items

  -- Create
  unfoldable pub create : Order → Action St OrderError (Unit {0})
  unfolding create_items
  create order = do
    insert_with "создать заказ" (db.insert_order order.order_uuid order.status order.created_at)
    create_items order.order_uuid order.items

  unfoldable pub read_transaction : OrderRow → Result OrderError (Option Uuid)
  read_transaction row = elim row.transaction_uuid [
    | none ↦ ok none
    | some text ↦ elim (uuids.parse text) [
      | none ↦ err (wrap "разобрать UUID транзакции" (foreign (parse_failure text)))
      | some parsed ↦ ok (some parsed)
    ]
  ]

  abbrev pub select_row : Uuid → Action St OrderError OrderRow
  select_row order_uuid s = let (reply, t) = db.select_order order_uuid s in (read_row reply, t)

  abbrev pub select_item_rows : Uuid → Action St OrderError (List ItemRecord)
  select_item_rows order_uuid s =
      let (reply, t) = db.select_items order_uuid s in (read_items reply, t)

  -- Get
  unfoldable pub get : Uuid → Action St OrderError Order
  unfolding order_to_model read_transaction
  get order_uuid = do
    row ← select_row order_uuid
    transaction_uuid ← lift (read_transaction row)
    items ← select_item_rows order_uuid
    pure (order_to_model (record_of row transaction_uuid items))

  -- `if tag.RowsAffected() == 0 { order, getErr := r.Get(ctx, orderUUID); ... }`
  abbrev pub updated_or_current : Uuid → Order → ℕ → Action St OrderError (Order × Bool)
  updated_or_current order_uuid updated n =
      if n == 0 then (get order_uuid >>= λ order. pure (order, false)) else pure (updated, true)

  -- StartPayment
  unfoldable pub start_payment : Uuid → Action St OrderError (Order × Bool)
  start_payment order_uuid = do
    n ←
        update_with "начать оплату заказа"
          (db.update_status order_uuid status_payment_processing status_pending_payment)
    updated_or_current order_uuid (updated_order order_uuid none none status_payment_processing) n

  -- FinishPayment
  unfoldable pub finish_payment : Uuid → Uuid → PaymentMethod → Action St OrderError (Order × Bool)
  finish_payment order_uuid transaction_uuid method = do
    n ←
        update_with "завершить оплату заказа"
          (db.update_paid order_uuid status_paid transaction_uuid method status_payment_processing)
    updated_or_current order_uuid
        (updated_order order_uuid (some transaction_uuid) (some method) status_paid) n

  -- The second query of `ResetPayment`.
  abbrev pub check_exists : Uuid → Action St OrderError (Unit {0})
  check_exists order_uuid s =
      let (reply, t) = db.select_exists order_uuid s in
      elim reply [
        | exists true ↦ (ok tt, t)
        | exists false ↦ (err (sentinel order_not_found), t)
        | exists_failed text ↦ (err (wrap "проверить заказ" (foreign text)), t)
      ]

  -- ResetPayment
  unfoldable pub reset_payment : Uuid → Action St OrderError (Unit {0})
  reset_payment order_uuid = do
    n ←
        update_with "сбросить оплату заказа"
          (db.update_status order_uuid status_pending_payment status_payment_processing)
    if n == 0 then check_exists order_uuid else pure tt

  -- Cancel
  unfoldable pub cancel : Uuid → Action St OrderError (Order × Bool)
  cancel order_uuid = do
    n ←
        update_with "отменить заказ"
          (db.update_status order_uuid status_cancelled status_pending_payment)
    updated_or_current order_uuid (updated_order order_uuid none none status_cancelled) n

  -- The methods as the service's interface.
  abbrev pub postgres_repository : OrderRepository St
  postgres_repository = record {
    create = create;
    get = get;
    start_payment = start_payment;
    finish_payment = finish_payment;
    reset_payment = reset_payment;
    cancel = cancel;
  }
