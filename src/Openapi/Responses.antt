-- ===== src/Openapi/Responses.antt =====
-- shared/pkg/openapi/order/v1/oas_response_encoders_gen.go: from a response to what goes over HTTP:
-- the status line, the content type and the value that is written as JSON.
use microservices_course.Common.{ℕ, String}
use microservices_course.Openapi.Schemas.{
  CreateOrderResponse, PayOrderResponse, OrderDto, ErrorBody, CreateOrderRes, GetOrderRes,
  PayOrderRes, CancelOrderRes,
}

-- The value whose JSON is the body.
pub data Payload : Type 0 where
  create_order_response : CreateOrderResponse → Payload
  order_dto : OrderDto → Payload
  pay_order_response : PayOrderResponse → Payload
  cancel_order_response : Payload
  error_body : ErrorBody → Payload

pub record HttpResponse : Type 0 where
  pub status : ℕ
  pub content_type : String
  pub payload : Payload

abbrev json : ℕ → Payload → HttpResponse
json status payload = record {
  status = status;
  content_type = "application/json; charset=utf-8";
  payload = payload;
}

unfoldable pub encode_cancel_order_response : CancelOrderRes → HttpResponse
encode_cancel_order_response CancelOrderRes.cancelled = json 200 cancel_order_response
encode_cancel_order_response (CancelOrderRes.bad_request e) = json 400 (error_body e)
encode_cancel_order_response (CancelOrderRes.not_found e) = json 404 (error_body e)
encode_cancel_order_response (CancelOrderRes.conflict e) = json 409 (error_body e)
encode_cancel_order_response (CancelOrderRes.internal_server_error e) = json 500 (error_body e)

unfoldable pub encode_create_order_response : CreateOrderRes → HttpResponse
encode_create_order_response (CreateOrderRes.created r) = json 201 (create_order_response r)
encode_create_order_response (CreateOrderRes.bad_request e) = json 400 (error_body e)
encode_create_order_response (CreateOrderRes.not_found e) = json 404 (error_body e)
encode_create_order_response (CreateOrderRes.conflict e) = json 409 (error_body e)
encode_create_order_response (CreateOrderRes.internal_server_error e) = json 500 (error_body e)

unfoldable pub encode_get_order_response : GetOrderRes → HttpResponse
encode_get_order_response (GetOrderRes.found r) = json 200 (order_dto r)
encode_get_order_response (GetOrderRes.bad_request e) = json 400 (error_body e)
encode_get_order_response (GetOrderRes.not_found e) = json 404 (error_body e)
encode_get_order_response (GetOrderRes.internal_server_error e) = json 500 (error_body e)

unfoldable pub encode_pay_order_response : PayOrderRes → HttpResponse
encode_pay_order_response (PayOrderRes.paid r) = json 200 (pay_order_response r)
encode_pay_order_response (PayOrderRes.bad_request e) = json 400 (error_body e)
encode_pay_order_response (PayOrderRes.not_found e) = json 404 (error_body e)
encode_pay_order_response (PayOrderRes.conflict e) = json 409 (error_body e)
encode_pay_order_response (PayOrderRes.internal_server_error e) = json 500 (error_body e)
