-- ===== src/Openapi/Answers/RoundTrip.antt =====
-- shared/pkg/openapi/order/v1/oas_response_decoders_gen.go with oas_response_encoders_gen.go: the client
-- reads the responses that the server writes.
use microservices_course.Common.{
  ◌≡◌, refl, ap, ◌∙◌, ℕ, String, true, some, [], nat_eq, string_eq, arith,
}
use microservices_course.Openapi.Schemas.{
  OrderDto, ErrorBody, CreateOrderRes, GetOrderRes, PayOrderRes, CancelOrderRes,
}
use microservices_course.Openapi.Validators.{order_dto_failures}
use microservices_course.Openapi.Responses.{
  Payload, HttpResponse, create_order_response, order_dto, pay_order_response,
  cancel_order_response, error_body, encode_create_order_response, encode_get_order_response,
  encode_pay_order_response, encode_cancel_order_response,
}
use microservices_course.Openapi.Json.{Jx, Decoded, decoded, walk}
use microservices_course.Openapi.Json.Replies
use microservices_course.Openapi.Json.Replies.{encode_error, decode_alias}
use microservices_course.Openapi.Json.Dto.{encode_order_dto, decode_order_dto}
use microservices_course.Openapi.Json.Walk.{opt_get-normal}
use microservices_course.Openapi.Json.RoundTrip.{decode-encode_order_dto, normal_dto}
use microservices_course.Openapi.Json.RoundTrip.Replies.{
  decode-encode_create_order_response, decode-encode_pay_order_response, decode-encode_error,
}
use microservices_course.Openapi.Bodies.{BodyPackage, body}
use microservices_course.Openapi.Answers.{
  Response, reply, failure, validated, map_body, read_cancel_order_response,
  read_create_order_response, read_get_order_response, read_pay_order_response,
}

-- What the client gets of an order.
abbrev pub normal_get : {V : Type 0} → Jx V → GetOrderRes → GetOrderRes
normal_get j (GetOrderRes.found dto) = GetOrderRes.found (normal_dto j dto)
normal_get j (GetOrderRes.bad_request e) = GetOrderRes.bad_request e
normal_get j (GetOrderRes.not_found e) = GetOrderRes.not_found e
normal_get j (GetOrderRes.internal_server_error e) = GetOrderRes.internal_server_error e

-- An order in the response passes the checks.
unfoldable pub IsValidGet : GetOrderRes → Type 0
unfolding order_dto_failures
IsValidGet (GetOrderRes.found dto) = order_dto_failures dto ≡ []
IsValidGet (GetOrderRes.bad_request e) = Unit
IsValidGet (GetOrderRes.not_found e) = Unit
IsValidGet (GetOrderRes.internal_server_error e) = Unit

module _ {V : Type 0} (j : Jx V) (b : BodyPackage V) where
  -- The JSON of a payload.
  unfoldable pub written : Payload → V
  unfolding encode_order_dto encode_error Replies.encode_create_order_response
      Replies.encode_pay_order_response Replies.encode_cancel_order_response
  written (create_order_response r) = Replies.encode_create_order_response j r
  written (order_dto s) = encode_order_dto j s
  written (pay_order_response r) = Replies.encode_pay_order_response j r
  written cancel_order_response = Replies.encode_cancel_order_response j
  written (error_body e) = encode_error j e

  -- The response that arrives is the one that was sent.
  pub record Delivers (r : Response) (sent : HttpResponse) : Type 0 where
    pub text : String
    pub status : r.status ≡ sent.status
    pub media_type : b.media_type r.content_type ≡ some "application/json"
    pub read : r.body ≡ some text
    pub value : b.value text ≡ written sent.payload
    pub at_end : b.at_end text ≡ true

  reply_lem :
      {A : Type 0} (decode : V → Decoded A) (a : A) (r : Response) (sent : HttpResponse)
      → Delivers r sent
      → decode (written sent.payload) ≡ decoded a
      → reply j b decode r ≡ body a
  reply_lem decode a r sent d e = ground (arith, d.media_type, d.read, d.value, d.at_end, e)

  failure_lem :
      {A : Type 0} (make : ErrorBody → A) (e : ErrorBody) (r : Response) (n : ℕ)
      → Delivers r (record {
        status = n;
        content_type = "application/json; charset=utf-8";
        payload = error_body e;
      })
      → failure j b make r ≡ body (make e)
  unfolding decode_alias written
  failure_lem make e r n d =
      rw (reply_lem (decode_alias j) e r _ d (rw (decode-encode_error j e) refl)) refl

  -- Where the client receives what the server encoded for PayOrder, it decodes the same response,
  -- for the success and for each of the four errors.
  pub read-encode_pay_order_response :
      (res : PayOrderRes) (r : Response)
      → Delivers r (encode_pay_order_response res)
      → read_pay_order_response j b r ≡ body res
  unfolding read_pay_order_response encode_pay_order_response written
      Replies.encode_pay_order_response
  read-encode_pay_order_response (PayOrderRes.paid x) r d = rw d.status (
      rw
        (reply_lem (Replies.decode_pay_order_response j) x r
          (encode_pay_order_response (PayOrderRes.paid x)) d (decode-encode_pay_order_response j x))
        refl)
  read-encode_pay_order_response (PayOrderRes.bad_request e) r d =
      rw d.status (failure_lem PayOrderRes.bad_request e r 400 d)
  read-encode_pay_order_response (PayOrderRes.not_found e) r d =
      rw d.status (failure_lem PayOrderRes.not_found e r 404 d)
  read-encode_pay_order_response (PayOrderRes.conflict e) r d =
      rw d.status (failure_lem PayOrderRes.conflict e r 409 d)
  read-encode_pay_order_response (PayOrderRes.internal_server_error e) r d =
      rw d.status (failure_lem PayOrderRes.internal_server_error e r 500 d)

  pub read-encode_create_order_response :
      (res : CreateOrderRes) (r : Response)
      → Delivers r (encode_create_order_response res)
      → read_create_order_response j b r ≡ body res
  unfolding read_create_order_response encode_create_order_response written
      Replies.encode_create_order_response
  read-encode_create_order_response (CreateOrderRes.created x) r d = rw d.status (
      rw
        (reply_lem (Replies.decode_create_order_response j) x r
          (encode_create_order_response (CreateOrderRes.created x)) d
          (decode-encode_create_order_response j x))
        refl)
  read-encode_create_order_response (CreateOrderRes.bad_request e) r d =
      rw d.status (failure_lem CreateOrderRes.bad_request e r 400 d)
  read-encode_create_order_response (CreateOrderRes.not_found e) r d =
      rw d.status (failure_lem CreateOrderRes.not_found e r 404 d)
  read-encode_create_order_response (CreateOrderRes.conflict e) r d =
      rw d.status (failure_lem CreateOrderRes.conflict e r 409 d)
  read-encode_create_order_response (CreateOrderRes.internal_server_error e) r d =
      rw d.status (failure_lem CreateOrderRes.internal_server_error e r 500 d)

  decode_cancelled :
      Replies.decode_cancel_order_response j (Replies.encode_cancel_order_response j) ≡ decoded tt
  unfolding Replies.decode_cancel_order_response Replies.encode_cancel_order_response walk
  decode_cancelled = rw (j.fields-object []) refl

  pub read-encode_cancel_order_response :
      (res : CancelOrderRes) (r : Response)
      → Delivers r (encode_cancel_order_response res)
      → read_cancel_order_response j b r ≡ body res
  unfolding read_cancel_order_response encode_cancel_order_response written
      Replies.encode_cancel_order_response
  read-encode_cancel_order_response (CancelOrderRes.cancelled) r d = rw d.status (
      rw
        (reply_lem (Replies.decode_cancel_order_response j) tt r
          (encode_cancel_order_response (CancelOrderRes.cancelled)) d decode_cancelled)
        refl)
  read-encode_cancel_order_response (CancelOrderRes.bad_request e) r d =
      rw d.status (failure_lem CancelOrderRes.bad_request e r 400 d)
  read-encode_cancel_order_response (CancelOrderRes.not_found e) r d =
      rw d.status (failure_lem CancelOrderRes.not_found e r 404 d)
  read-encode_cancel_order_response (CancelOrderRes.conflict e) r d =
      rw d.status (failure_lem CancelOrderRes.conflict e r 409 d)
  read-encode_cancel_order_response (CancelOrderRes.internal_server_error e) r d =
      rw d.status (failure_lem CancelOrderRes.internal_server_error e r 500 d)

  normal_dto-valid :
      (dto : OrderDto) → order_dto_failures (normal_dto j dto) ≡ order_dto_failures dto
  unfolding order_dto_failures
  normal_dto-valid dto = rw (opt_get-normal "" dto.payment_method) refl

  validated_lem : (dto : OrderDto) → order_dto_failures dto ≡ [] → validated (body dto) ≡ body dto
  unfolding validated
  validated_lem dto e = rw e refl

  read_found :
      (dto : OrderDto) (r : Response)
      → Delivers r (encode_get_order_response (GetOrderRes.found dto))
      → order_dto_failures dto ≡ []
      → read_get_order_response j b r ≡ body (GetOrderRes.found (normal_dto j dto))
  unfolding read_get_order_response encode_get_order_response written
  read_found dto r d valid = rw d.status (
      rw
        (reply_lem (decode_order_dto j) (normal_dto j dto) r
          (encode_get_order_response (GetOrderRes.found dto)) d (decode-encode_order_dto j dto))
        (ap (map_body GetOrderRes.found)
          (validated_lem (normal_dto j dto) (normal_dto-valid dto ∙ valid))))

  -- Where the client receives what the server encoded for GetOrder, and an order in it passes the
  -- validator, the client decodes the same response, an order as its JSON keeps it.
  pub read-encode_get_order_response :
      (res : GetOrderRes) (r : Response)
      → Delivers r (encode_get_order_response res)
      → IsValidGet res
      → read_get_order_response j b r ≡ body (normal_get j res)
  unfolding read_get_order_response encode_get_order_response written IsValidGet
  read-encode_get_order_response (GetOrderRes.found dto) r d valid = read_found dto r d valid
  read-encode_get_order_response (GetOrderRes.bad_request e) r d valid =
      rw d.status (failure_lem GetOrderRes.bad_request e r 400 d)
  read-encode_get_order_response (GetOrderRes.not_found e) r d valid =
      rw d.status (failure_lem GetOrderRes.not_found e r 404 d)
  read-encode_get_order_response (GetOrderRes.internal_server_error e) r d valid =
      rw d.status (failure_lem GetOrderRes.internal_server_error e r 500 d)
