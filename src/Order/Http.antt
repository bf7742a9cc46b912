-- ===== src/Order/Http.antt =====
-- order/internal/app/app.go: OrderService behind its HTTP server.
use Prim.Native.String.{◌++◌ as text_append}
use microservices_course.Common.{ℕ, ◌≡◌, refl, sym, ap, ◌∙◌, true, String, Option, some, none}
use microservices_course.Go.{Uuid, UuidPackage, Time, Result}
use microservices_course.Openapi.Schemas.{PayOrderRequest}
use microservices_course.Openapi.Validators.{method_valid}
use microservices_course.Openapi.Responses.{encode_pay_order_response}
use microservices_course.Openapi.Json.{Jx}
use microservices_course.Openapi.Json.Requests.{encode_pay_order_request}
use microservices_course.Openapi.Router.{UrlPackage, Url, pay_order as paying}
use microservices_course.Openapi.Router.Paths.{NoSlash, path_of}
use microservices_course.Openapi.Bodies.{BodyPackage, Request}
use microservices_course.Openapi.Server.{
  Handler, returned, Sent, response, error, missing, refused, serve,
}
use microservices_course.Openapi.Server.Served.{Carries, serve-pay_order}
use microservices_course.Order.Errors.{OrderError}
use microservices_course.Order.Repository.{RepositoryLaws}
use microservices_course.Order.Service.Deps.{Service}
use microservices_course.Order.Service.Refinement.{LeavesOrders, is_valid-is_listed}
use microservices_course.Order.Crossing.{payment_method-Arrives}
use microservices_course.Order.Api.Convert.{payment_method_to_model}
use microservices_course.Order.Api.Handlers.{
  create_order, get_order, pay_order, cancel_order, pay_order_answer,
}
use microservices_course.Order.Api.Statuses.{due_status, pay_order-status}

-- The API as the handler of the server; `fresh` and `now` are what the random generator and the clock
-- give for the request.
abbrev pub api_handler :
    {St : Type 0} → UuidPackage → Service St → Result OrderError Uuid → Time → Handler St
unfolding create_order get_order pay_order cancel_order
api_handler uuids service fresh now = record {
  create_order = λ request s.
      let run = create_order uuids service fresh now request s in (returned run.0, run.1);
  get_order = λ u s. let run = get_order uuids service u s in (returned run.0, run.1);
  pay_order =
      λ request u s. let run = pay_order uuids service request u s in (returned run.0, run.1);
  cancel_order = λ u s. let run = cancel_order uuids service u s in (returned run.0, run.1);
}

-- The status of a response that a handler gave.
abbrev pub answered_status : Sent → Option ℕ
answered_status (response r) = some r.status
answered_status (error e) = none
answered_status missing = none
answered_status (refused methods headers post) = none

module _ {V St : Type 0} (j : Jx V) (b : BodyPackage V) (p : UrlPackage) (uuids : UuidPackage)
    (service : Service St) (laws : RepositoryLaws service.order_repo)
    (frame : LeavesOrders uuids service laws) (fresh : Result OrderError Uuid) (now : Time) where
  -- Over a storage that keeps its contract, in a good state, with a payment client that leaves the
  -- orders alone, and where the text of a UUID has no '/' and the path decoder keeps it: a POST to
  -- the pay path of an order whose body is the JSON of a request with one of the four methods is
  -- answered 404 where there is no order or its status is unknown, 409 for an order in processing,
  -- paid or cancelled, and for a pending order with the status of the payment client's reply, as
  -- the API encodes it.
  pub serve-pay_status :
      (prefix : String) (u : Uuid) (request : PayOrderRequest) (r : Request) (s : St)
      → NoSlash (uuids.to_string u)
      → p.decode_value (uuids.to_string u) ≡ some (uuids.to_string u)
      → Carries b r (encode_pay_order_request j request)
      → method_valid request.payment_method ≡ true
      → laws.Good s
      → let method = payment_method_to_model request.payment_method in
        let charged =
          service.payment_client
            (uuids.to_string u)
            method
            (service.order_repo.start_payment u s).1 in
        let url : Url = record {
          path = text_append prefix (path_of paying (uuids.to_string u));
          raw_path = "";
        } in
        answered_status
          (serve j b p uuids (api_handler uuids service fresh now) prefix "POST" url r s).0
        ≡ some (
            due_status
              (laws.view s u)
              (encode_pay_order_response (pay_order_answer charged.0)).status)
  unfolding api_handler
  serve-pay_status prefix u request r s n e c valid good =
      ap (λ x. answered_status x.0)
        (serve-pay_order j b p uuids (api_handler uuids service fresh now) prefix u request r s n e
          c valid)
      ∙ ap some (pay_order-status uuids service laws u s good frame request)
      ∙ rw (sym (is_valid-is_listed _) ∙ (payment_method-Arrives request.payment_method valid).0)
          refl
