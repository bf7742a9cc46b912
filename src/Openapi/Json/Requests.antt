-- ===== src/Openapi/Json/Requests.antt =====
-- shared/pkg/openapi/order/v1/oas_json_gen.go: CreateOrderRequest and PayOrderRequest.
use microservices_course.Common.{
  String, true, false, List, [], ◌∷◌, ◌++◌, ◌==◌, string_eq, if◌then◌else◌,
}
use microservices_course.Go.{nil_uuid}
use microservices_course.Openapi.Schemas.{CreateOrderRequest, PayOrderRequest, unset}
use microservices_course.Openapi.Json.{
  Jx, Decoded, decoded, and_then, wrapped, Bits, no_bits, set_required, failures, checked, walk,
  obj_bytes, into,
}
use microservices_course.Openapi.Json.Fields.{
  encode_opt_uuid, decode_opt_uuid, encode_method, decode_method, optional,
}

-- The zero value that the decoder fills.
abbrev pub empty_create_order_request : CreateOrderRequest
unfolding unset
empty_create_order_request = record {
  hull_uuid = nil_uuid;
  engine_uuid = nil_uuid;
  shield_uuid = unset nil_uuid;
  weapon_uuid = unset nil_uuid;
}

abbrev pub create_order_request_names : List String
create_order_request_names = "hull_uuid" ∷ "engine_uuid" ∷ "shield_uuid" ∷ "weapon_uuid" ∷ []

-- 0b00000011
abbrev pub first_two : Bits
first_two = true ∷ true ∷ false ∷ false ∷ false ∷ false ∷ false ∷ false ∷ []

-- 0b00000001
abbrev pub first_one : Bits
first_one = true ∷ false ∷ false ∷ false ∷ false ∷ false ∷ false ∷ false ∷ []

module _ {V : Type 0} (j : Jx V) where
  -- (*CreateOrderRequest).Encode and encodeFields
  unfoldable pub encode_create_order_request : CreateOrderRequest → V
  unfolding encode_opt_uuid
  encode_create_order_request s = j.object (
      ("hull_uuid", j.uuid s.hull_uuid)
      ∷ ("engine_uuid", j.uuid s.engine_uuid)
      ∷ (optional "shield_uuid" s.shield_uuid (encode_opt_uuid j s.shield_uuid)
          ++ (optional "weapon_uuid" s.weapon_uuid (encode_opt_uuid j s.weapon_uuid) ++ [])))

  -- The function of ObjBytes.
  unfoldable pub create_order_request_field :
      CreateOrderRequest × List Bits → String → V → Decoded (CreateOrderRequest × List Bits)
  unfolding decode_opt_uuid
  create_order_request_field (s, bits) k v =
      if k == "hull_uuid"
      then into "hull_uuid" (j.read_uuid v)
          (λ u. (record s { hull_uuid = u }, set_required 0 0 bits))
      else if k == "engine_uuid"
      then into "engine_uuid" (j.read_uuid v)
          (λ u. (record s { engine_uuid = u }, set_required 0 1 bits))
      else if k == "shield_uuid"
      then into "shield_uuid" (decode_opt_uuid j v) (λ o. (record s { shield_uuid = o }, bits))
      else if k == "weapon_uuid"
      then into "weapon_uuid" (decode_opt_uuid j v) (λ o. (record s { weapon_uuid = o }, bits))
      else decoded (s, bits)

  -- (*CreateOrderRequest).Decode
  unfoldable pub decode_create_order_request : V → Decoded CreateOrderRequest
  unfolding create_order_request_field walk failures
  decode_create_order_request v =
      and_then
        (wrapped "decode CreateOrderRequest"
          (obj_bytes j create_order_request_field (empty_create_order_request, no_bits ∷ []) v))
        (λ end. checked (failures j create_order_request_names 0 end.1 (first_two ∷ [])) end.0)

  -- (*PayOrderRequest).Encode and encodeFields
  unfoldable pub encode_pay_order_request : PayOrderRequest → V
  encode_pay_order_request s = j.object (("payment_method", encode_method j s.payment_method) ∷ [])

  -- The function of ObjBytes.
  unfoldable pub pay_order_request_field :
      PayOrderRequest × List Bits → String → V → Decoded (PayOrderRequest × List Bits)
  unfolding decode_method
  pay_order_request_field (s, bits) k v =
      if k == "payment_method"
      then into "payment_method" (decode_method j v)
          (λ m. (record s { payment_method = m }, set_required 0 0 bits))
      else decoded (s, bits)

  -- (*PayOrderRequest).Decode
  unfoldable pub decode_pay_order_request : V → Decoded PayOrderRequest
  unfolding pay_order_request_field walk failures
  decode_pay_order_request v =
      and_then
        (wrapped "decode PayOrderRequest"
          (obj_bytes j pay_order_request_field (record { payment_method = "" }, no_bits ∷ []) v))
        (λ end. checked (failures j ("payment_method" ∷ []) 0 end.1 (first_one ∷ [])) end.0)
