-- ===== src/Openapi/Json/Replies.antt =====
-- shared/pkg/openapi/order/v1/oas_json_gen.go: CreateOrderResponse, PayOrderResponse and Error; the
-- bodies of the errors (CreateOrderBadRequest, ...) are encoded and decoded as Error.
use microservices_course.Common.{String, List, [], ◌∷◌, ◌==◌, string_eq, if◌then◌else◌}
use microservices_course.Go.{nil_uuid}
use microservices_course.Openapi.Schemas.{CreateOrderResponse, PayOrderResponse, ErrorBody}
use microservices_course.Openapi.Json.{
  Jx, Decoded, decoded, and_then, wrapped, Bits, no_bits, set_required, failures, checked, walk,
  obj_bytes, into,
}
use microservices_course.Openapi.Json.Requests.{first_one, first_two}

module _ {V : Type 0} (j : Jx V) where
  -- (*CreateOrderResponse).Encode and encodeFields
  unfoldable pub encode_create_order_response : CreateOrderResponse → V
  encode_create_order_response s =
      j.object (("order_uuid", j.uuid s.order_uuid) ∷ ("total_price", j.int64 s.total_price) ∷ [])

  unfoldable pub create_order_response_field :
      CreateOrderResponse × List Bits → String → V → Decoded (CreateOrderResponse × List Bits)
  create_order_response_field (s, bits) k v =
      if k == "order_uuid"
      then into "order_uuid" (j.read_uuid v)
          (λ u. (record s { order_uuid = u }, set_required 0 0 bits))
      else if k == "total_price"
      then into "total_price" (j.read_int64 v)
          (λ n. (record s { total_price = n }, set_required 0 1 bits))
      else decoded (s, bits)

  -- (*CreateOrderResponse).Decode
  unfoldable pub decode_create_order_response : V → Decoded CreateOrderResponse
  unfolding create_order_response_field walk failures
  decode_create_order_response v =
      and_then
        (wrapped "decode CreateOrderResponse" (
          obj_bytes j create_order_response_field
            (record { order_uuid = nil_uuid; total_price = 0 }, no_bits ∷ []) v))
        (λ end.
          checked (failures j ("order_uuid" ∷ "total_price" ∷ []) 0 end.1 (first_two ∷ [])) end.0)

  -- (*PayOrderResponse).Encode and encodeFields
  unfoldable pub encode_pay_order_response : PayOrderResponse → V
  encode_pay_order_response s = j.object (("transaction_uuid", j.uuid s.transaction_uuid) ∷ [])

  unfoldable pub pay_order_response_field :
      PayOrderResponse × List Bits → String → V → Decoded (PayOrderResponse × List Bits)
  pay_order_response_field (s, bits) k v =
      if k == "transaction_uuid"
      then into "transaction_uuid" (j.read_uuid v)
          (λ u. (record s { transaction_uuid = u }, set_required 0 0 bits))
      else decoded (s, bits)

  -- (*PayOrderResponse).Decode
  unfoldable pub decode_pay_order_response : V → Decoded PayOrderResponse
  unfolding pay_order_response_field walk failures
  decode_pay_order_response v =
      and_then
        (wrapped "decode PayOrderResponse" (
          obj_bytes j pay_order_response_field
            (record { transaction_uuid = nil_uuid }, no_bits ∷ []) v))
        (λ end. checked (failures j ("transaction_uuid" ∷ []) 0 end.1 (first_one ∷ [])) end.0)

  -- (*Error).Encode and encodeFields
  unfoldable pub encode_error : ErrorBody → V
  encode_error s = j.object (("code", j.int s.code) ∷ ("message", j.str s.message) ∷ [])

  unfoldable pub error_field : ErrorBody × List Bits → String → V → Decoded (ErrorBody × List Bits)
  error_field (s, bits) k v =
      if k == "code"
      then into "code" (j.read_int v) (λ n. (record s { code = n }, set_required 0 0 bits))
      else if k == "message"
      then into "message" (j.read_str v) (λ t. (record s { message = t }, set_required 0 1 bits))
      else decoded (s, bits)

  -- (*Error).Decode
  unfoldable pub decode_error : V → Decoded ErrorBody
  unfolding error_field walk failures
  decode_error v =
      and_then
        (wrapped "decode Error"
          (obj_bytes j error_field (record { code = 0; message = "" }, no_bits ∷ []) v))
        (λ end. checked (failures j ("code" ∷ "message" ∷ []) 0 end.1 (first_two ∷ [])) end.0)

  -- (*CreateOrderBadRequest).Decode and the other aliases of Error.
  unfoldable pub decode_alias : V → Decoded ErrorBody
  unfolding decode_error
  decode_alias v = wrapped "alias" (decode_error v)

  -- (*CancelOrderResponse).Encode, which has no fields
  unfoldable pub encode_cancel_order_response : V
  encode_cancel_order_response = j.object []

  -- (*CancelOrderResponse).Decode
  unfoldable pub decode_cancel_order_response : V → Decoded (Unit {0})
  unfolding walk
  decode_cancel_order_response v =
      wrapped "decode CancelOrderResponse" (obj_bytes j (λ s k x. decoded s) tt v)
