-- ===== src/Order/Repository.antt =====
-- order/internal/service/order/deps.go: the contract of the order storage, as the operations that
-- the service calls and the laws that it relies on.
pub mod Views
pub mod Machine
pub mod Table
use mathlib.Core.List.{Permᴰ}
use microservices_course.Common.{
  ◌≡◌, ◌≢◌, Bool, true, false, Option, some, none, ◌==◌, nat_eq, if◌then◌else◌,
}
use microservices_course.Go.{Action, Uuid, ok, err, sentinel}
use microservices_course.Order.Errors.{OrderError, order_not_found}
use microservices_course.Order.Model.{
  Order, PaymentMethod, status_pending_payment, status_payment_processing, status_paid,
  status_cancelled,
}

-- The operations, over the state `St` of the storage. `(model.Order, bool, error)` is a pair of
-- the order and the flag, or an error.
pub record OrderRepository (St : Type 0) : Type 0 where
  pub create : Order → Action St OrderError (Unit {0})
  pub get : Uuid → Action St OrderError Order
  pub start_payment : Uuid → Action St OrderError (Order × Bool)
  pub finish_payment : Uuid → Uuid → PaymentMethod → Action St OrderError (Order × Bool)
  pub reset_payment : Uuid → Action St OrderError (Unit {0})
  pub cancel : Uuid → Action St OrderError (Order × Bool)

-- An order as the storage shows it: the items may be listed in another order, and the time may have
-- lost the precision that the storage does not keep.
pub record Mirrors (o shown : Order) : Type 0 where
  pub rearranged : Permᴰ o.items shown.items
  pub same : shown ≡ record o { items = shown.items; created_at = shown.created_at }

-- The storage holds the same orders after as before.
pub record Kept {St : Type 0} (view : St → Uuid → Option Order) (Good : St → Type 0) (s t : St)
    : Type 0 where
  pub good : Good t
  pub shows : (v : Uuid) → view t v ≡ view s v

-- The order under `u` is now `o`; the others are as before.
pub record Put {St : Type 0} (view : St → Uuid → Option Order) (Good : St → Type 0) (u : Uuid)
    (o : Order) (s t : St) : Type 0 where
  pub good : Good t
  pub shows : (v : Uuid) → view t v ≡ (if u == v then some o else view s v)

-- What each operation does to the orders that the storage shows, in a good state.
pub record RepositoryLaws {St : Type 0} (r : OrderRepository St) : Type 1 where
  pub view : St → Uuid → Option Order
  pub Good : St → Type 0
  pub Accepts : Order → Type 0
  pub view_key : (s : St) (u : Uuid) {o : Order} → Good s → view s u ≡ some o → o.order_uuid ≡ u
  pub create_lem :
      (o : Order) (s : St)
      → Good s
      → Accepts o
      → view s o.order_uuid ≡ none
      → ((r.create o s).0 ≡ ok tt)
        × ((shown : Order) × Mirrors o shown × Put view Good o.order_uuid shown s (r.create o s).1)
  pub get_found :
      (u : Uuid) (s : St) (o : Order)
      → Good s
      → view s u ≡ some o
      → ((r.get u s).0 ≡ ok o) × Kept view Good s (r.get u s).1
  pub get_missing :
      (u : Uuid) (s : St)
      → Good s
      → view s u ≡ none
      → ((r.get u s).0 ≡ err (sentinel order_not_found)) × Kept view Good s (r.get u s).1
  pub start_pending :
      (u : Uuid) (s : St) (o : Order)
      → Good s
      → view s u ≡ some o
      → o.status ≡ status_pending_payment
      → (o' : Order) × ((r.start_payment u s).0 ≡ ok (o', true))
        × (o'.order_uuid ≡ u)
        × Put view Good u
            (record o { status = status_payment_processing })
            s
            (r.start_payment u s).1
  pub start_other :
      (u : Uuid) (s : St) (o : Order)
      → Good s
      → view s u ≡ some o
      → o.status ≢ status_pending_payment
      → ((r.start_payment u s).0 ≡ ok (o, false)) × Kept view Good s (r.start_payment u s).1
  pub start_missing :
      (u : Uuid) (s : St)
      → Good s
      → view s u ≡ none
      → ((r.start_payment u s).0 ≡ err (sentinel order_not_found))
        × Kept view Good s (r.start_payment u s).1
  pub finish_processing :
      (u t : Uuid) (m : PaymentMethod) (s : St) (o : Order)
      → Good s
      → view s u ≡ some o
      → o.status ≡ status_payment_processing
      → (o' : Order) × ((r.finish_payment u t m s).0 ≡ ok (o', true))
        × Put view Good u
            (record o { status = status_paid; transaction_uuid = some t; payment_method = some m })
            s
            (r.finish_payment u t m s).1
  pub finish_other :
      (u t : Uuid) (m : PaymentMethod) (s : St) (o : Order)
      → Good s
      → view s u ≡ some o
      → o.status ≢ status_payment_processing
      → ((r.finish_payment u t m s).0 ≡ ok (o, false))
        × Kept view Good s (r.finish_payment u t m s).1
  pub finish_missing :
      (u t : Uuid) (m : PaymentMethod) (s : St)
      → Good s
      → view s u ≡ none
      → ((r.finish_payment u t m s).0 ≡ err (sentinel order_not_found))
        × Kept view Good s (r.finish_payment u t m s).1
  pub reset_processing :
      (u : Uuid) (s : St) (o : Order)
      → Good s
      → view s u ≡ some o
      → o.status ≡ status_payment_processing
      → ((r.reset_payment u s).0 ≡ ok tt)
        × Put view Good u (record o { status = status_pending_payment }) s (r.reset_payment u s).1
  pub reset_other :
      (u : Uuid) (s : St) (o : Order)
      → Good s
      → view s u ≡ some o
      → o.status ≢ status_payment_processing
      → ((r.reset_payment u s).0 ≡ ok tt) × Kept view Good s (r.reset_payment u s).1
  pub reset_missing :
      (u : Uuid) (s : St)
      → Good s
      → view s u ≡ none
      → ((r.reset_payment u s).0 ≡ err (sentinel order_not_found))
        × Kept view Good s (r.reset_payment u s).1
  pub cancel_pending :
      (u : Uuid) (s : St) (o : Order)
      → Good s
      → view s u ≡ some o
      → o.status ≡ status_pending_payment
      → (o' : Order) × ((r.cancel u s).0 ≡ ok (o', true))
        × Put view Good u (record o { status = status_cancelled }) s (r.cancel u s).1
  pub cancel_other :
      (u : Uuid) (s : St) (o : Order)
      → Good s
      → view s u ≡ some o
      → o.status ≢ status_pending_payment
      → ((r.cancel u s).0 ≡ ok (o, false)) × Kept view Good s (r.cancel u s).1
  pub cancel_missing :
      (u : Uuid) (s : St)
      → Good s
      → view s u ≡ none
      → ((r.cancel u s).0 ≡ err (sentinel order_not_found)) × Kept view Good s (r.cancel u s).1
