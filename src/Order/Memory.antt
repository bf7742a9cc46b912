-- ===== src/Order/Memory.antt =====
-- order/internal/repository/order/memory.go: the in-memory order storage. Each method holds the
-- mutex to its end, so it is one step over the map of records.
pub mod View
pub mod Steps
pub mod Laws
pub mod Lifecycle
pub mod Sequence
use microservices_course.Common.{
  Bool, true, false, not, some, none, [], ◌==◌, string_eq, if◌then◌else◌, Map, lookup, insert,
}
use microservices_course.Go.{Action, Uuid, ok, err, sentinel}
use microservices_course.Order.Errors.{OrderError, order_not_found}
use microservices_course.Order.Model.{
  Order, PaymentMethod, status_pending_payment, status_payment_processing, status_paid,
  status_cancelled,
}
use microservices_course.Order.Records.{OrderRecord}
use microservices_course.Order.Converter.{order_to_model, order_to_record}
use microservices_course.Order.Repository.{OrderRepository}

-- `orders`, the only field beside the mutex.
abbrev pub MemoryRepository : Type 0
MemoryRepository = Map OrderRecord

-- NewMemory
unfoldable pub new_memory : MemoryRepository
new_memory = []

unfoldable pub create : Order → Action MemoryRepository OrderError (Unit {0})
create order orders = (ok tt, insert order.order_uuid (order_to_record order) orders)

unfoldable pub get : Uuid → Action MemoryRepository OrderError Order
get order_uuid orders = elim (lookup order_uuid orders) [
  | none ↦ (err (sentinel order_not_found), orders)
  | some order ↦ (ok (order_to_model order), orders)
]

unfoldable pub start_payment : Uuid → Action MemoryRepository OrderError (Order × Bool)
start_payment order_uuid orders = elim (lookup order_uuid orders) [
  | none ↦ (err (sentinel order_not_found), orders)
  | some order ↦
      let started = record order { status = status_payment_processing } in
      if not (order.status == status_pending_payment)
      then (ok (order_to_model order, false), orders)
      else (ok (order_to_model started, true), insert order_uuid started orders)
]

unfoldable pub finish_payment :
    Uuid → Uuid → PaymentMethod → Action MemoryRepository OrderError (Order × Bool)
finish_payment order_uuid transaction_uuid method orders = elim (lookup order_uuid orders) [
  | none ↦ (err (sentinel order_not_found), orders)
  | some order ↦
      let paid = record order {
        status = status_paid;
        transaction_uuid = some transaction_uuid;
        payment_method = some method;
      } in
      if not (order.status == status_payment_processing)
      then (ok (order_to_model order, false), orders)
      else (ok (order_to_model paid, true), insert order_uuid paid orders)
]

unfoldable pub reset_payment : Uuid → Action MemoryRepository OrderError (Unit {0})
reset_payment order_uuid orders = elim (lookup order_uuid orders) [
  | none ↦ (err (sentinel order_not_found), orders)
  | some order ↦
      let pending = record order { status = status_pending_payment } in
      if order.status == status_payment_processing
      then (ok tt, insert order_uuid pending orders)
      else (ok tt, orders)
]

unfoldable pub cancel : Uuid → Action MemoryRepository OrderError (Order × Bool)
cancel order_uuid orders = elim (lookup order_uuid orders) [
  | none ↦ (err (sentinel order_not_found), orders)
  | some order ↦
      let cancelled = record order { status = status_cancelled } in
      if not (order.status == status_pending_payment)
      then (ok (order_to_model order, false), orders)
      else (ok (order_to_model cancelled, true), insert order_uuid cancelled orders)
]

-- The methods as the service's interface.
abbrev pub memory_repository : OrderRepository MemoryRepository
memory_repository = record {
  create = create;
  get = get;
  start_payment = start_payment;
  finish_payment = finish_payment;
  reset_payment = reset_payment;
  cancel = cancel;
}
