-- ===== src/Order/Api/Statuses.antt =====
-- order/internal/api/order/v1 with shared/pkg/openapi/order/v1: the HTTP status of each answer.
use microservices_course.Common.{
  ℕ, ◌≡◌, refl, ap, ◌∙◌, arith, Option, some, none, ◌==◌, string_eq, if◌then◌else◌,
}
use microservices_course.Go.{Result, Uuid, UuidPackage, ok, err, is}
use microservices_course.Openapi.Schemas.{PayOrderRequest}
use microservices_course.Openapi.Responses.{
  HttpResponse, error_body, encode_create_order_response, encode_get_order_response,
  encode_pay_order_response, encode_cancel_order_response,
}
use microservices_course.Order.Errors.{OrderError}
use microservices_course.Order.Model.{
  CreateOrderResult, Order, PaymentMethod, status_pending_payment, status_payment_processing,
  status_paid, status_cancelled,
}
use microservices_course.Order.Repository.{RepositoryLaws}
use microservices_course.Order.Service.Deps.{Service}
use microservices_course.Order.Service.Spec.{
  pay_spec, cancel_spec, is_listed, known_methods, refused_by,
}
use microservices_course.Order.Service.Refinement.{LeavesOrders, cancel-Meets, pay-Meets}
use microservices_course.Order.Api.Convert.{payment_method_to_model}
use microservices_course.Order.Api.Errors.{
  create_error_response, pay_error_response, cancel_error_response, get_error_response,
}
use microservices_course.Order.Api.Handlers.{
  create_order_answer, get_order_answer, pay_order_answer, cancel_order_answer, cancel_order,
  pay_order,
}

-- The code in an error body is the status of the response.
abbrev pub Agrees : HttpResponse → Type 0
Agrees r = elim r.payload [ error_body e ↦ e.code ≡ r.status | _ ↦ Unit ]

create-Agrees :
    (c : Result OrderError CreateOrderResult)
    → Agrees (encode_create_order_response (create_order_answer c))
unfolding create_order_answer create_error_response encode_create_order_response
create-Agrees (ok r) = tt
create-Agrees (err e) = ground arith

get-Agrees : (g : Result OrderError Order) → Agrees (encode_get_order_response (get_order_answer g))
unfolding get_order_answer get_error_response encode_get_order_response
get-Agrees (ok r) = tt
get-Agrees (err e) = ground arith

pay-Agrees : (p : Result OrderError Uuid) → Agrees (encode_pay_order_response (pay_order_answer p))
unfolding pay_order_answer pay_error_response encode_pay_order_response
pay-Agrees (ok r) = tt
pay-Agrees (err e) = ground arith

cancel-Agrees :
    (c : Result OrderError (Unit {0}))
    → Agrees (encode_cancel_order_response (cancel_order_answer c))
unfolding cancel_order_answer cancel_error_response encode_cancel_order_response
cancel-Agrees (ok r) = tt
cancel-Agrees (err e) = ground arith

-- Whatever the service returns, in every operation the code that an error body carries is the
-- status of the response that carries it.
pub answers-Agree :
    (c : Result OrderError CreateOrderResult) (g : Result OrderError Order)
    (p : Result OrderError Uuid) (k : Result OrderError (Unit {0}))
    → Agrees (encode_create_order_response (create_order_answer c))
      × Agrees (encode_get_order_response (get_order_answer g))
      × Agrees (encode_pay_order_response (pay_order_answer p))
      × Agrees (encode_cancel_order_response (cancel_order_answer k))
answers-Agree c g p k = (create-Agrees c, get-Agrees g, pay-Agrees p, cancel-Agrees k)

-- The status that a request to cancel is due, by the order under its UUID.
abbrev pub cancel_status : Option Order → ℕ
cancel_status none = 404
cancel_status (some o) =
    if o.status == status_pending_payment
    then 200
    else if o.status == status_payment_processing
    then 409
    else if o.status == status_paid
    then 409
    else if o.status == status_cancelled
    then 409
    else 404

cancel_status_of_spec :
    (f : Option Order)
    → (encode_cancel_order_response (cancel_order_answer (cancel_spec f).0)).status
      ≡ cancel_status f
unfolding cancel_order_answer cancel_error_response encode_cancel_order_response refused_by is
cancel_status_of_spec none = refl
cancel_status_of_spec (some o) = ground arith

-- The status that a request to pay by a known method is due, by the order and the status of the
-- payment client's reply.
abbrev pub due_status : Option Order → ℕ → ℕ
due_status none charged = 404
due_status (some o) charged =
    if o.status == status_pending_payment
    then charged
    else if o.status == status_payment_processing
    then 409
    else if o.status == status_paid
    then 409
    else if o.status == status_cancelled
    then 409
    else 404

abbrev pub pay_status : PaymentMethod → Option Order → ℕ → ℕ
pay_status m f charged = if is_listed m known_methods then due_status f charged else 400

pay_status_of_spec :
    (m : PaymentMethod) (f : Option Order) (charged : Result OrderError Uuid)
    → (encode_pay_order_response (pay_order_answer (pay_spec m f charged).0)).status
      ≡ pay_status m f (encode_pay_order_response (pay_order_answer charged)).status
unfolding pay_order_answer pay_error_response encode_pay_order_response refused_by is
pay_status_of_spec m none charged = ground arith
pay_status_of_spec m (some o) (ok t) = ground arith
pay_status_of_spec m (some o) (err e) = ground arith

module _ {St : Type 0} (uuids : UuidPackage) (service : Service St)
    (laws : RepositoryLaws service.order_repo) (u : Uuid) (s : St) (good : laws.Good s) where
  -- Over a storage that keeps its contract, in a good state: a request to cancel answers 200 for a
  -- pending order, 404 where there is none or its status is unknown, and 409 for an order in
  -- processing, paid or cancelled.
  pub cancel_order-status :
      (encode_cancel_order_response (cancel_order uuids service u s).0).status
      ≡ cancel_status (laws.view s u)
  unfolding cancel_order
  cancel_order-status =
      ap (λ r. (encode_cancel_order_response (cancel_order_answer r)).status)
        (cancel-Meets uuids service laws u s good).answer
      ∙ cancel_status_of_spec (laws.view s u)

  -- Over a storage that keeps its contract, in a good state, and with a payment client that leaves
  -- the orders alone: a request to pay answers 400 for an unknown method, 404 where there is no
  -- order or its status is unknown, 409 for an order in processing, paid or cancelled, and for a
  -- pending order the status of the payment client's reply.
  pub pay_order-status :
      LeavesOrders uuids service laws
      → (req : PayOrderRequest)
      → let method = payment_method_to_model req.payment_method in
        let charged =
          service.payment_client
            (uuids.to_string u)
            method
            (service.order_repo.start_payment u s).1 in
        (encode_pay_order_response (pay_order uuids service req u s).0).status
        ≡ pay_status method
            (laws.view s u)
            (encode_pay_order_response (pay_order_answer charged.0)).status
  unfolding pay_order
  pay_order-status frame req =
      let method = payment_method_to_model req.payment_method in
      ap (λ r. (encode_pay_order_response (pay_order_answer r)).status)
        (pay-Meets uuids service laws u s good frame method).answer
      ∙ pay_status_of_spec method (laws.view s u) _
