-- ===== src/Openapi/Server.antt =====
-- shared/pkg/openapi/order/v1/oas_handlers_gen.go: from a request to what is sent back. The handlers of
-- the operations are a parameter; no middleware is set, as in
-- order/internal/app/app.go, and the telemetry is left out.
pub mod Guards
pub mod Served
use microservices_course.Common.{String, Bool, Option, [], ◌∷◌}
use microservices_course.Go.{Uuid, UuidPackage}
use microservices_course.Openapi.Schemas.{
  CreateOrderRequest, PayOrderRequest, CreateOrderRes, GetOrderRes, PayOrderRes, CancelOrderRes,
}
use microservices_course.Openapi.Responses.{
  HttpResponse, encode_create_order_response, encode_get_order_response, encode_pay_order_response,
  encode_cancel_order_response,
}
use microservices_course.Openapi.Json.{Jx}
use microservices_course.Openapi.Router.{
  UrlPackage, Url, Dispatch, handle, not_allowed, not_found, Operation, create_order, get_order,
  cancel_order, pay_order, serve_http,
}
use microservices_course.Openapi.Parameters.{
  ParamError, param, refused as no_param, decode_cancel_order_params, decode_get_order_params,
  decode_pay_order_params,
}
use microservices_course.Openapi.Bodies.{
  BodyPackage, Request, BodyError, body, refused as no_body, read_create_order_request,
  read_pay_order_request,
}

-- What an operation's handler returns: the response, or an error with its text.
pub data Returned (Res : Type 0) : Type 0 where
  returned : Res → Returned Res
  failed : String → Returned Res

-- The interface Handler, over the state of the program.
pub record Handler (St : Type 0) : Type 0 where
  pub create_order : CreateOrderRequest → St → Returned CreateOrderRes × St
  pub get_order : Uuid → St → Returned GetOrderRes × St
  pub pay_order : PayOrderRequest → Uuid → St → Returned PayOrderRes × St
  pub cancel_order : Uuid → St → Returned CancelOrderRes × St

-- The error that the ErrorHandler gets.
pub data ServerError : Type 0 where
  decode_params : Operation → ParamError → ServerError
  decode_request : Operation → BodyError → ServerError
  internal : String → ServerError

-- What is sent back: a response, or what the ErrorHandler, NotFound or MethodNotAllowed make of it.
pub data Sent : Type 0 where
  response : HttpResponse → Sent
  error : ServerError → Sent
  missing : Sent
  refused : String → Option String → String → Sent

-- `if err != nil { s.cfg.ErrorHandler(ctx, w, r, err); return }` and the encoding of the response.
abbrev pub send : {St Res : Type 0} → (Res → HttpResponse) → Returned Res × St → Sent × St
send encode (returned res, t) = (response (encode res), t)
send encode (failed text, t) = (error (internal text), t)

module _ {V St : Type 0} (j : Jx V) (b : BodyPackage V) (p : UrlPackage) (uuids : UuidPackage)
    (h : Handler St) where
  -- (*Server).handleCancelOrderRequest
  unfoldable pub handle_cancel_order : String → Bool → Request → St → Sent × St
  unfolding decode_cancel_order_params encode_cancel_order_response
  handle_cancel_order arg escaped r s = elim (decode_cancel_order_params p uuids arg escaped) [
    | no_param e ↦ (error (decode_params Operation.cancel_order e), s)
    | param order_uuid ↦ send encode_cancel_order_response (h.cancel_order order_uuid s)
  ]

  -- (*Server).handleCreateOrderRequest
  unfoldable pub handle_create_order : Request → St → Sent × St
  unfolding read_create_order_request encode_create_order_response
  handle_create_order r s = elim (read_create_order_request j b r) [
    | no_body e ↦ (error (decode_request Operation.create_order e), s)
    | body request ↦ send encode_create_order_response (h.create_order request s)
  ]

  -- (*Server).handleGetOrderRequest
  unfoldable pub handle_get_order : String → Bool → Request → St → Sent × St
  unfolding decode_get_order_params encode_get_order_response
  handle_get_order arg escaped r s = elim (decode_get_order_params p uuids arg escaped) [
    | no_param e ↦ (error (decode_params Operation.get_order e), s)
    | param order_uuid ↦ send encode_get_order_response (h.get_order order_uuid s)
  ]

  -- (*Server).handlePayOrderRequest
  unfoldable pub handle_pay_order : String → Bool → Request → St → Sent × St
  unfolding decode_pay_order_params read_pay_order_request encode_pay_order_response
  handle_pay_order arg escaped r s = elim (decode_pay_order_params p uuids arg escaped) [
    | no_param e ↦ (error (decode_params Operation.pay_order e), s)
    | param order_uuid ↦ elim (read_pay_order_request j b r) [
      | no_body e ↦ (error (decode_request Operation.pay_order e), s)
      | body request ↦ send encode_pay_order_response (h.pay_order request order_uuid s)
    ]
  ]

  -- The calls of ServeHTTP.
  unfoldable pub dispatched : Dispatch → Request → St → Sent × St
  unfolding handle_cancel_order handle_create_order handle_get_order handle_pay_order
  dispatched not_found r s = (missing, s)
  dispatched (not_allowed methods headers post) r s = (refused methods headers post, s)
  dispatched (handle Operation.create_order args escaped) r s = handle_create_order r s
  dispatched (handle Operation.get_order (arg ∷ args) escaped) r s =
      handle_get_order arg escaped r s
  dispatched (handle Operation.cancel_order (arg ∷ args) escaped) r s =
      handle_cancel_order arg escaped r s
  dispatched (handle Operation.pay_order (arg ∷ args) escaped) r s =
      handle_pay_order arg escaped r s
  dispatched (handle Operation.get_order [] escaped) r s = handle_get_order "" escaped r s
  dispatched (handle Operation.cancel_order [] escaped) r s = handle_cancel_order "" escaped r s
  dispatched (handle Operation.pay_order [] escaped) r s = handle_pay_order "" escaped r s

  -- A request to the server.
  unfoldable pub serve : String → String → Url → Request → St → Sent × St
  unfolding serve_http dispatched
  serve prefix method u r s = dispatched (serve_http p prefix method u) r s
