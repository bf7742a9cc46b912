-- ===== src/Order/Service/Deps.antt =====
-- order/internal/service/order/deps.go, service.go: what the service is built from, and the checks
-- that its operations share.
use microservices_course.Common.{String, Bool, true, false, List, ◌==◌, string_eq, if◌then◌else◌}
use microservices_course.Go.{Action, Result, ok, err, Uuid, TxManager, sentinel}
use microservices_course.Order.Errors.{
  OrderError, Error, payment_in_progress, order_already_paid, order_cancelled, order_not_found,
}
use microservices_course.Order.Model.{
  Order, Part, PaymentMethod, status_payment_processing, status_paid, status_cancelled,
}
use microservices_course.Order.Repository.{OrderRepository}

-- The service over a state `St` that the storage and the clients act on.
pub record Service (St : Type 0) : Type 1 where
  pub tx_manager : TxManager St OrderError
  pub order_repo : OrderRepository St
  pub inventory_client : List String → Action St OrderError (List Part)
  pub payment_client : String → PaymentMethod → Action St OrderError Uuid

-- `if c { return ..., e }`
abbrev pub reject_if : {St : Type 0} → Bool → Error → Action St OrderError (Unit {0})
reject_if true e s = (err e, s)
reject_if false e s = (ok tt, s)

-- The `switch` on the status of an order that an update has not changed.
unfoldable pub refusal : Order → OrderError
refusal order =
    if order.status == status_payment_processing
    then payment_in_progress
    else if order.status == status_paid
    then order_already_paid
    else if order.status == status_cancelled
    then order_cancelled
    else order_not_found

-- `if !updated { switch order.Status ... }`
abbrev pub expect_updated : Order × Bool → Result OrderError Order
expect_updated (order, true) = ok order
expect_updated (order, false) = err (sentinel (refusal order))
