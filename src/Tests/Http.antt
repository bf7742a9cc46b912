-- ===== src/Tests/Http.antt =====
-- Requests and responses of the HTTP interface, over the package jx of `Tests.Json`.
use microservices_course.Common.{
  ℕ, suc, ◌≡◌, refl, true, false, some, [], ◌∷◌, nat_eq, string_eq, if◌then◌else◌,
}
use microservices_course.Go.{Uuid}
use microservices_course.Openapi.Schemas.{
  CreateOrderRequest, PayOrderRequest, OrderDto, CreateOrderRes, GetOrderRes, PayOrderRes,
  CancelOrderRes, opt_get,
}
use microservices_course.Openapi.Validators.{method_valid, order_dto_failures, status_valid}
use microservices_course.Openapi.Responses.{encode_pay_order_response, encode_get_order_response}
use microservices_course.Openapi.Json.{decoded}
use microservices_course.Openapi.Json.Requests.{
  encode_create_order_request, decode_create_order_request, encode_pay_order_request,
}
use microservices_course.Openapi.Json.Dto.{encode_order_dto, decode_order_dto}
use microservices_course.Openapi.Json.RoundTrip.{
  normal_request, normal_dto, decode-encode_create_order_request, decode-encode_order_dto,
}
use microservices_course.Openapi.Router.{UrlPackage, Url, pay_order, handle, serve_http}
use microservices_course.Openapi.Router.Finder.{find_path, unescape_args}
use microservices_course.Openapi.Router.Agreement.{handled, find_path-serve_http}
use microservices_course.Openapi.Router.Paths.{serve_http-path_of}
use microservices_course.Openapi.Bodies.{BodyPackage, Request, body}
use microservices_course.Openapi.Server.{Handler, returned, send, serve, handle_pay_order}
use microservices_course.Openapi.Server.Guards.{serve-refusal, handle_pay_order-valid}
use microservices_course.Openapi.Server.Served.{Carries, serve-pay_order}
use microservices_course.Openapi.Answers.{Response, read_get_order_response}
use microservices_course.Openapi.Answers.RoundTrip.{
  Delivers, written, IsValidGet, normal_get, read-encode_get_order_response,
}
use microservices_course.Go.{ok}
use microservices_course.Order.Api.Convert.{payment_method_to_model}
use microservices_course.Order.Api.Handlers.{pay_order_answer}
use microservices_course.Order.Api.Statuses.{due_status}
use microservices_course.Order.Http.{api_handler, answered_status, serve-pay_status}
use microservices_course.Order.Memory.Laws.{memory_laws}
use microservices_course.Order.Memory.View.{view}
use microservices_course.Tests.Fixtures.{
  uuids, service, stocked, stocked-IsKeyed, service-LeavesOrders,
}
use microservices_course.Tests.Json.{Value, object, member, nothing, text, jx}

abbrev create_body : CreateOrderRequest
create_body = record {
  hull_uuid = 1;
  engine_uuid = 2;
  shield_uuid = record { value = 3; set = true; null = false };
  weapon_uuid = record { value = 4; set = true; null = true };
}

abbrev pub dto : OrderDto
dto = record {
  order_uuid = 5;
  hull_uuid = 1;
  engine_uuid = 2;
  shield_uuid = record { value = 3; set = true; null = false };
  weapon_uuid = record { value = 0; set = false; null = false };
  total_price = 60;
  transaction_uuid = record { value = 77; set = true; null = false };
  payment_method = record { value = "SBP"; set = true; null = false };
  status = "PAID";
  created_at = 9;
}

decode-encode_create_order_request_example :
    decode_create_order_request jx (encode_create_order_request jx create_body)
    ≡ decoded (normal_request create_body)
decode-encode_create_order_request_example = decode-encode_create_order_request jx create_body

decode-encode_order_dto_example :
    decode_order_dto jx (encode_order_dto jx dto) ≡ decoded (normal_dto jx dto)
decode-encode_order_dto_example = decode-encode_order_dto jx dto

abbrev pub urls : UrlPackage
urls = record {
  normalize = λ s. some s;
  path_unescape = λ s. some s;
  decode_value = λ s. some s;
  has_percent = λ s. false;
}

abbrev pay_url : Url
pay_url = record { path = "/api/v1/orders/17/pay"; raw_path = "/api/v1/orders/17/pay" }

find_path-serve_http_example :
    find_path urls "" "POST" pay_url
    ≡ unescape_args urls (handled (serve_http urls "" "POST" pay_url))
find_path-serve_http_example = find_path-serve_http urls "" "POST" pay_url

serve_http-path_of_example :
    serve_http urls "/shop" "POST" (record { path = "/shop/api/v1/orders/17/pay"; raw_path = "" })
    ≡ handle pay_order ("17" ∷ []) false
serve_http-path_of_example = serve_http-path_of urls "/shop" pay_order "17" (refl, (refl, tt))

abbrev pub pay_body : PayOrderRequest
pay_body = record { payment_method = "SBP" }

-- Every text stands for the same payment, and the last request is kept as a number.
abbrev bodies : BodyPackage Value
bodies = record {
  media_type = λ t. some "application/json";
  value = λ t. object (member "payment_method" (text "SBP") nothing);
  at_end = λ t. true;
}

abbrev pub pay_request : Request
pay_request = record { content_type = "application/json"; empty = false; body = some "{...}" }

-- The state counts the calls.
abbrev pub handler : Handler ℕ
handler = record {
  create_order = λ request s.
      (returned (CreateOrderRes.created (record { order_uuid = 5; total_price = 30 })), suc s);
  get_order = λ u s. (returned (GetOrderRes.found dto), suc s);
  pay_order =
      λ request u s. (returned (PayOrderRes.paid (record { transaction_uuid = 77 })), suc s);
  cancel_order = λ u s. (returned CancelOrderRes.cancelled, suc s);
}

serve-refusal_example :
    (serve jx bodies urls uuids handler "" "GET"
      (record { path = "/api/v1/order"; raw_path = "" })
      pay_request
      3).1
    ≡ 3
unfolding serve serve_http
serve-refusal_example =
    serve-refusal jx bodies urls uuids handler "" "GET"
      (record { path = "/api/v1/order"; raw_path = "" }) pay_request 3 refl

-- A handler that refuses every other payment method.
abbrev strict : Handler ℕ
unfolding method_valid
strict = record {
  create_order = handler.create_order;
  get_order = handler.get_order;
  pay_order = λ request u s.
      if method_valid request.payment_method
      then handler.pay_order request u s
      else (returned (PayOrderRes.bad_request (record { code = 400; message = "" })), s);
  cancel_order = handler.cancel_order;
}

strict_alike :
    (request : PayOrderRequest) (u : Uuid) (s : ℕ)
    → method_valid request.payment_method ≡ true
    → handler.pay_order request u s ≡ strict.pay_order request u s
unfolding strict
strict_alike request u s e = rw e refl

handle_pay_order-valid_example :
    handle_pay_order jx bodies urls uuids handler "#--" false pay_request 3
    ≡ handle_pay_order jx bodies urls uuids strict "#--" false pay_request 3
handle_pay_order-valid_example =
    handle_pay_order-valid jx bodies urls uuids handler strict strict_alike "#--" false pay_request
      3

pay_request-Carries : Carries bodies pay_request (encode_pay_order_request jx pay_body)
unfolding encode_pay_order_request
pay_request-Carries = record {
  text = "{...}";
  media_type = refl;
  length = refl;
  read = refl;
  some_text = refl;
  value = refl;
  at_end = refl;
}

pub sbp-valid : method_valid "SBP" ≡ true
unfolding method_valid
sbp-valid = refl

serve-pay_order_example :
    serve jx bodies urls uuids handler "" "POST"
      (record { path = "/api/v1/orders/#--/pay"; raw_path = "" })
      pay_request
      3
    ≡ send encode_pay_order_response (handler.pay_order pay_body 2 3)
serve-pay_order_example =
    serve-pay_order jx bodies urls uuids handler "" 2 pay_body pay_request 3
      (refl, (refl, (refl, tt))) refl pay_request-Carries sbp-valid

abbrev pay_response : Response
pay_response = record { status = 200; content_type = "application/json"; body = some "{...}" }

-- The text of a response with an order.
abbrev order_bodies : BodyPackage Value
unfolding encode_order_dto
order_bodies = record {
  media_type = λ t. some "application/json";
  value = λ t. encode_order_dto jx dto;
  at_end = λ t. true;
}

get_response-Delivers :
    Delivers jx order_bodies pay_response (encode_get_order_response (GetOrderRes.found dto))
unfolding encode_get_order_response written order_bodies
get_response-Delivers = record {
  text = "{...}";
  status = refl;
  media_type = refl;
  read = refl;
  value = refl;
  at_end = refl;
}

dto-valid : IsValidGet (GetOrderRes.found dto)
unfolding IsValidGet order_dto_failures method_valid status_valid opt_get
dto-valid = refl

read-encode_get_order_response_example :
    read_get_order_response jx order_bodies pay_response
    ≡ body (normal_get jx (GetOrderRes.found dto))
read-encode_get_order_response_example =
    read-encode_get_order_response jx order_bodies (GetOrderRes.found dto) pay_response
      get_response-Delivers dto-valid

serve-pay_status_example :
    answered_status
      (serve jx bodies urls uuids
        (api_handler uuids service (ok 5) 9)
        ""
        "POST"
        (record { path = "/api/v1/orders/#-----/pay"; raw_path = "" })
        pay_request
        stocked).0
    ≡ some
        (due_status (view stocked 5) (encode_pay_order_response (pay_order_answer (ok 77))).status)
unfolding payment_method_to_model
serve-pay_status_example =
    serve-pay_status jx bodies urls uuids service memory_laws service-LeavesOrders (ok 5) 9 "" 5
      pay_body pay_request stocked (refl, (refl, (refl, (refl, (refl, (refl, tt)))))) refl
      pay_request-Carries sbp-valid stocked-IsKeyed
