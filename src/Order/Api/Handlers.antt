-- ===== src/Order/Api/Handlers.antt =====
-- order/internal/api/order/v1/create.go, get.go, pay.go, cancel.go: the operations of the handler.
use microservices_course.Go.{Uuid, UuidPackage, Time, Result, ok, err}
use microservices_course.Openapi.Schemas.{
  CreateOrderRequest, PayOrderRequest, CreateOrderRes, GetOrderRes, PayOrderRes, CancelOrderRes,
  opt_get,
}
use microservices_course.Order.Errors.{OrderError}
use microservices_course.Order.Model.{CreateOrderInput, CreateOrderResult, Order}
use microservices_course.Order.Service.Deps.{Service}
use microservices_course.Order.Service.Create.{create}
use microservices_course.Order.Service.Pay.{pay, cancel, get}
use microservices_course.Order.Api.Convert.{payment_method_to_model, order_to_dto}
use microservices_course.Order.Api.Errors.{
  create_error_response, pay_error_response, cancel_error_response, get_error_response,
}

-- The input of the service, from the request.
unfoldable pub create_order_input : CreateOrderRequest → CreateOrderInput
unfolding opt_get
create_order_input req = record {
  hull_uuid = req.hull_uuid;
  engine_uuid = req.engine_uuid;
  shield_uuid = opt_get req.shield_uuid;
  weapon_uuid = opt_get req.weapon_uuid;
}

-- What each operation answers, by what the service returns.
unfoldable pub create_order_answer : Result OrderError CreateOrderResult → CreateOrderRes
create_order_answer (err e) = create_error_response e
create_order_answer (ok result) =
    CreateOrderRes.created
      (record { order_uuid = result.order_uuid; total_price = result.total_price })

unfoldable pub get_order_answer : Result OrderError Order → GetOrderRes
get_order_answer (err e) = get_error_response e
get_order_answer (ok order) = GetOrderRes.found (order_to_dto order)

unfoldable pub pay_order_answer : Result OrderError Uuid → PayOrderRes
pay_order_answer (err e) = pay_error_response e
pay_order_answer (ok transaction_uuid) =
    PayOrderRes.paid (record { transaction_uuid = transaction_uuid })

unfoldable pub cancel_order_answer : Result OrderError (Unit {0}) → CancelOrderRes
cancel_order_answer (err e) = cancel_error_response e
cancel_order_answer (ok _) = CancelOrderRes.cancelled

module _ {St : Type 0} (uuids : UuidPackage) (service : Service St) where
  -- CreateOrder
  unfoldable pub create_order :
      Result OrderError Uuid → Time → CreateOrderRequest → St → CreateOrderRes × St
  create_order fresh now req s =
      let (result, t) = create uuids service fresh now (create_order_input req) s in
      (create_order_answer result, t)

  -- GetOrder
  unfoldable pub get_order : Uuid → St → GetOrderRes × St
  get_order order_uuid s =
      let (result, t) = get uuids service order_uuid s in (get_order_answer result, t)

  -- PayOrder
  unfoldable pub pay_order : PayOrderRequest → Uuid → St → PayOrderRes × St
  pay_order req order_uuid s =
      let (result, t) =
        pay uuids service order_uuid (payment_method_to_model req.payment_method) s in
      (pay_order_answer result, t)

  -- CancelOrder
  unfoldable pub cancel_order : Uuid → St → CancelOrderRes × St
  cancel_order order_uuid s =
      let (result, t) = cancel uuids service order_uuid s in (cancel_order_answer result, t)
