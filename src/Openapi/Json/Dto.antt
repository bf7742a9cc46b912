-- ===== src/Openapi/Json/Dto.antt =====
-- shared/pkg/openapi/order/v1/oas_json_gen.go: OrderDto.
use microservices_course.Common.{
  String, true, false, List, [], ◌∷◌, ◌++◌, ◌==◌, string_eq, if◌then◌else◌,
}
use microservices_course.Go.{nil_uuid}
use microservices_course.Openapi.Schemas.{OrderDto, unset}
use microservices_course.Openapi.Json.{
  Jx, Decoded, decoded, and_then, wrapped, Bits, no_bits, set_required, failures, checked, walk,
  obj_bytes, into,
}
use microservices_course.Openapi.Json.Fields.{
  encode_opt_uuid, decode_opt_uuid, encode_opt_method, decode_opt_method, encode_status,
  decode_status, optional,
}
use microservices_course.Openapi.Json.Requests.{first_two}

-- The zero value that the decoder fills.
abbrev pub empty_order_dto : OrderDto
unfolding unset
empty_order_dto = record {
  order_uuid = nil_uuid;
  hull_uuid = nil_uuid;
  engine_uuid = nil_uuid;
  shield_uuid = unset nil_uuid;
  weapon_uuid = unset nil_uuid;
  total_price = 0;
  transaction_uuid = unset nil_uuid;
  payment_method = unset "";
  status = "";
  created_at = 0;
}

abbrev pub order_dto_names : List String
order_dto_names =
    "order_uuid" ∷ "hull_uuid" ∷ "engine_uuid" ∷ "shield_uuid" ∷ "weapon_uuid" ∷ "total_price"
    ∷ "transaction_uuid" ∷ "payment_method" ∷ "status" ∷ "created_at" ∷ []

-- 0b00100111
abbrev pub first_byte : Bits
first_byte = true ∷ true ∷ true ∷ false ∷ false ∷ true ∷ false ∷ false ∷ []

module _ {V : Type 0} (j : Jx V) where
  -- (*OrderDto).encodeFields
  unfoldable pub order_dto_fields : OrderDto → List (String × V)
  unfolding encode_opt_uuid encode_opt_method
  order_dto_fields s =
      ("order_uuid", j.uuid s.order_uuid)
      ∷ ("hull_uuid", j.uuid s.hull_uuid)
      ∷ ("engine_uuid", j.uuid s.engine_uuid)
      ∷ (optional "shield_uuid" s.shield_uuid (encode_opt_uuid j s.shield_uuid)
          ++ (optional "weapon_uuid" s.weapon_uuid (encode_opt_uuid j s.weapon_uuid)
              ++ (("total_price", j.int64 s.total_price)
                  ∷ (optional "transaction_uuid" s.transaction_uuid
                        (encode_opt_uuid j s.transaction_uuid)
                      ++ (optional "payment_method" s.payment_method
                            (encode_opt_method j s.payment_method)
                          ++ (("status", encode_status j s.status)
                              ∷ ("created_at", j.date_time s.created_at)
                              ∷ []))))))

  -- (*OrderDto).Encode
  unfoldable pub encode_order_dto : OrderDto → V
  unfolding order_dto_fields
  encode_order_dto s = j.object (order_dto_fields s)

  -- The function of ObjBytes.
  unfoldable pub order_dto_field :
      OrderDto × List Bits → String → V → Decoded (OrderDto × List Bits)
  unfolding decode_opt_uuid decode_opt_method decode_status
  order_dto_field (s, bits) k v =
      if k == "order_uuid"
      then into "order_uuid" (j.read_uuid v)
          (λ u. (record s { order_uuid = u }, set_required 0 0 bits))
      else if k == "hull_uuid"
      then into "hull_uuid" (j.read_uuid v)
          (λ u. (record s { hull_uuid = u }, set_required 0 1 bits))
      else if k == "engine_uuid"
      then into "engine_uuid" (j.read_uuid v)
          (λ u. (record s { engine_uuid = u }, set_required 0 2 bits))
      else if k == "shield_uuid"
      then into "shield_uuid" (decode_opt_uuid j v) (λ o. (record s { shield_uuid = o }, bits))
      else if k == "weapon_uuid"
      then into "weapon_uuid" (decode_opt_uuid j v) (λ o. (record s { weapon_uuid = o }, bits))
      else if k == "total_price"
      then into "total_price" (j.read_int64 v)
          (λ n. (record s { total_price = n }, set_required 0 5 bits))
      else if k == "transaction_uuid"
      then into "transaction_uuid" (decode_opt_uuid j v)
          (λ o. (record s { transaction_uuid = o }, bits))
      else if k == "payment_method"
      then into "payment_method" (decode_opt_method j v)
          (λ o. (record s { payment_method = o }, bits))
      else if k == "status"
      then into "status" (decode_status j v) (λ x. (record s { status = x }, set_required 1 0 bits))
      else if k == "created_at"
      then into "created_at" (j.read_date_time v)
          (λ t. (record s { created_at = t }, set_required 1 1 bits))
      else decoded (s, bits)

  -- (*OrderDto).Decode
  unfoldable pub decode_order_dto : V → Decoded OrderDto
  unfolding order_dto_field walk failures
  decode_order_dto v =
      and_then
        (wrapped "decode OrderDto"
          (obj_bytes j order_dto_field (empty_order_dto, no_bits ∷ no_bits ∷ []) v))
        (λ end. checked (failures j order_dto_names 0 end.1 (first_byte ∷ first_two ∷ [])) end.0)
