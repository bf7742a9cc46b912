-- ===== src/Openapi/Answers.antt =====
-- shared/pkg/openapi/order/v1/oas_response_decoders_gen.go: what the client reads of a response.
pub mod RoundTrip
use microservices_course.Common.{
  ℕ, String, Option, some, none, List, [], ◌∷◌, ◌==◌, nat_eq, string_eq, if◌then◌else◌,
}
use microservices_course.Openapi.Schemas.{
  OrderDto, ErrorBody, CreateOrderRes, GetOrderRes, PayOrderRes, CancelOrderRes,
}
use microservices_course.Openapi.Validators.{order_dto_failures}
use microservices_course.Openapi.Json.{Jx, Decoded}
use microservices_course.Openapi.Json.Replies.{
  decode_create_order_response, decode_pay_order_response, decode_cancel_order_response,
  decode_alias,
}
use microservices_course.Openapi.Json.Dto.{decode_order_dto}
use microservices_course.Openapi.Bodies.{
  BodyPackage, Body, body, refused, parse_media_type, invalid_content_type, unreadable,
  unexpected_status, invalid, decode_body,
}

-- What is read of `http.Response`.
pub record Response : Type 0 where
  pub status : ℕ
  pub content_type : String
  pub body : Option String

abbrev pub map_body : {A B : Type 0} → (A → B) → Body A → Body B
map_body f (body a) = body (f a)
map_body f (refused e) = refused e

-- `if err := response.Validate(); err != nil`
abbrev pub accepted : OrderDto → List String → Body OrderDto
accepted dto [] = body dto
accepted dto (name ∷ names) = refused (invalid (name ∷ names))

abbrev pub validated : Body OrderDto → Body OrderDto
unfolding order_dto_failures
validated (refused e) = refused e
validated (body dto) = accepted dto (order_dto_failures dto)

module _ {V : Type 0} (j : Jx V) (b : BodyPackage V) where
  -- What each case begins with.
  abbrev reply_text : Response → Body String
  reply_text r = elim (b.media_type r.content_type) [
    | none ↦ refused parse_media_type
    | some ct ↦
        if ct == "application/json"
        then elim r.body [ none ↦ refused unreadable | some buf ↦ body buf ]
        else refused (invalid_content_type ct)
  ]

  abbrev pub reply : {A : Type 0} → (V → Decoded A) → Response → Body A
  reply decode r = decode_body j b decode (reply_text r)

  -- A case of a body that is encoded as Error.
  abbrev pub failure : {A : Type 0} → (ErrorBody → A) → Response → Body A
  unfolding decode_alias
  failure make r = map_body make (reply (decode_alias j) r)

  -- decodeCancelOrderResponse
  unfoldable pub read_cancel_order_response : Response → Body CancelOrderRes
  unfolding decode_cancel_order_response decode_alias
  read_cancel_order_response r =
      if r.status == 200
      then map_body (λ _. CancelOrderRes.cancelled) (reply (decode_cancel_order_response j) r)
      else if r.status == 400
      then failure CancelOrderRes.bad_request r
      else if r.status == 404
      then failure CancelOrderRes.not_found r
      else if r.status == 409
      then failure CancelOrderRes.conflict r
      else if r.status == 500
      then failure CancelOrderRes.internal_server_error r
      else refused (unexpected_status r.status)

  -- decodeCreateOrderResponse
  unfoldable pub read_create_order_response : Response → Body CreateOrderRes
  unfolding decode_create_order_response decode_alias
  read_create_order_response r =
      if r.status == 201
      then map_body CreateOrderRes.created (reply (decode_create_order_response j) r)
      else if r.status == 400
      then failure CreateOrderRes.bad_request r
      else if r.status == 404
      then failure CreateOrderRes.not_found r
      else if r.status == 409
      then failure CreateOrderRes.conflict r
      else if r.status == 500
      then failure CreateOrderRes.internal_server_error r
      else refused (unexpected_status r.status)

  -- decodeGetOrderResponse
  unfoldable pub read_get_order_response : Response → Body GetOrderRes
  unfolding decode_order_dto decode_alias order_dto_failures
  read_get_order_response r =
      if r.status == 200
      then map_body GetOrderRes.found (validated (reply (decode_order_dto j) r))
      else if r.status == 400
      then failure GetOrderRes.bad_request r
      else if r.status == 404
      then failure GetOrderRes.not_found r
      else if r.status == 500
      then failure GetOrderRes.internal_server_error r
      else refused (unexpected_status r.status)

  -- decodePayOrderResponse
  unfoldable pub read_pay_order_response : Response → Body PayOrderRes
  unfolding decode_pay_order_response decode_alias
  read_pay_order_response r =
      if r.status == 200
      then map_body PayOrderRes.paid (reply (decode_pay_order_response j) r)
      else if r.status == 400
      then failure PayOrderRes.bad_request r
      else if r.status == 404
      then failure PayOrderRes.not_found r
      else if r.status == 409
      then failure PayOrderRes.conflict r
      else if r.status == 500
      then failure PayOrderRes.internal_server_error r
      else refused (unexpected_status r.status)
