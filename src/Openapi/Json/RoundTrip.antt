-- ===== src/Openapi/Json/RoundTrip.antt =====
-- shared/pkg/openapi/order/v1/oas_json_gen.go: what `Decode` makes of what `Encode` wrote.
pub mod Replies
use microservices_course.Common.{◌≡◌, refl, ◌∙◌, String, List, [], ◌∷◌, ◌++◌}
use microservices_course.Go.{nil_uuid}
use microservices_course.Openapi.Schemas.{CreateOrderRequest, PayOrderRequest, OrderDto, unset}
use microservices_course.Openapi.Json.{
  Jx, Decoded, decoded, Bits, no_bits, walk, obj_bytes, failures, failures_of, set_required,
}
use microservices_course.Openapi.Json.Fields.{encode_opt_uuid, optional}
use microservices_course.Openapi.Json.Requests.{
  encode_create_order_request, decode_create_order_request, create_order_request_field,
  empty_create_order_request, encode_pay_order_request, decode_pay_order_request,
  pay_order_request_field,
}
use microservices_course.Openapi.Json.Dto.{
  encode_order_dto, decode_order_dto, order_dto_field, order_dto_fields, empty_order_dto,
}
use microservices_course.Openapi.Json.Walk.{
  normal, walk_field, walk_end, walk_opt_uuid, walk_opt_method, decode_method-str,
  decode_status-str,
}

-- What is read back of a request: the optional fields without what stood beside an unset value.
abbrev pub normal_request : CreateOrderRequest → CreateOrderRequest
normal_request s = record s {
  shield_uuid = normal nil_uuid s.shield_uuid;
  weapon_uuid = normal nil_uuid s.weapon_uuid;
}

module _ {V : Type 0} (j : Jx V) where
  pub obj_of_walk :
      {A : Type 0} (f : A → String → V → Decoded A) (a : A) (fs : List (String × V)) {b : A}
      → walk f a fs ≡ decoded b
      → obj_bytes j f a (j.object fs) ≡ decoded b
  obj_of_walk f a fs e = rw (j.fields-object fs) (rw e refl)

  walk_request :
      (s : CreateOrderRequest)
      → obj_bytes j
          (create_order_request_field j)
          (empty_create_order_request, no_bits ∷ [])
          (encode_create_order_request j s)
        ≡ decoded (normal_request s, set_required 0 1 (set_required 0 0 (no_bits ∷ [])))
  unfolding encode_create_order_request create_order_request_field unset
  walk_request s =
      let f = create_order_request_field j in
      let bits : List Bits = set_required 0 1 (set_required 0 0 (no_bits ∷ [])) in
      let s1 : CreateOrderRequest = record empty_create_order_request {
        hull_uuid = s.hull_uuid;
        engine_uuid = s.engine_uuid;
      } in
      obj_of_walk f _ _ (
        walk_field f "hull_uuid" _ _
          (λ u.
            (record empty_create_order_request { hull_uuid = u }, set_required 0 0 (no_bits ∷ [])))
          refl (j.read_uuid-uuid s.hull_uuid)
        ∙ walk_field f "engine_uuid" _ _ (λ u. (record s1 { engine_uuid = u }, bits)) refl
            (j.read_uuid-uuid s.engine_uuid)
        ∙ walk_opt_uuid j f "shield_uuid" _ (λ o. (record s1 { shield_uuid = o }, bits))
            s.shield_uuid (λ v. refl)
        ∙ walk_opt_uuid j f "weapon_uuid" []
            (λ o.
              (record s1 { shield_uuid = normal nil_uuid s.shield_uuid; weapon_uuid = o }, bits))
            s.weapon_uuid (λ v. refl)
        ∙ walk_end f _)

  -- Over a package whose readers read back what its writers write, Decode reads from the JSON of
  -- any request to create an order the same request, but for what stood beside an unset or null
  -- field.
  pub decode-encode_create_order_request :
      (s : CreateOrderRequest)
      → decode_create_order_request j (encode_create_order_request j s) ≡ decoded (normal_request s)
  unfolding decode_create_order_request failures failures_of
  decode-encode_create_order_request s = rw (walk_request s) refl

  walk_pay_order_request :
      (s : PayOrderRequest)
      → obj_bytes j
          (pay_order_request_field j)
          (record { payment_method = "" }, no_bits ∷ [])
          (encode_pay_order_request j s)
        ≡ decoded (s, set_required 0 0 (no_bits ∷ []))
  unfolding encode_pay_order_request pay_order_request_field
  walk_pay_order_request s =
      let f = pay_order_request_field j in
      obj_of_walk f _ _ (
        walk_field f "payment_method" _ []
          (λ m. (record { payment_method = m }, set_required 0 0 (no_bits ∷ []))) refl
          (decode_method-str j s.payment_method)
        ∙ walk_end f _)

  pub decode-encode_pay_order_request :
      (s : PayOrderRequest) → decode_pay_order_request j (encode_pay_order_request j s) ≡ decoded s
  unfolding decode_pay_order_request failures failures_of
  decode-encode_pay_order_request s = rw (walk_pay_order_request s) refl

  -- What is read back of an order: its optional fields as above, and its time in whole seconds.
  abbrev pub normal_dto : OrderDto → OrderDto
  normal_dto s = record s {
    shield_uuid = normal nil_uuid s.shield_uuid;
    weapon_uuid = normal nil_uuid s.weapon_uuid;
    transaction_uuid = normal nil_uuid s.transaction_uuid;
    payment_method = normal "" s.payment_method;
    created_at = j.seconds s.created_at;
  }

  abbrev dto_bits : List Bits
  dto_bits =
      set_required 0 5
        (set_required 0 2 (set_required 0 1 (set_required 0 0 (no_bits ∷ no_bits ∷ []))))

  -- The record after the price, and with every optional field read.
  abbrev priced_dto : OrderDto → OrderDto
  priced_dto s = record empty_order_dto {
    order_uuid = s.order_uuid;
    hull_uuid = s.hull_uuid;
    engine_uuid = s.engine_uuid;
    shield_uuid = normal nil_uuid s.shield_uuid;
    weapon_uuid = normal nil_uuid s.weapon_uuid;
    total_price = s.total_price;
  }

  abbrev paid_dto : OrderDto → OrderDto
  paid_dto s = record (priced_dto s) {
    transaction_uuid = normal nil_uuid s.transaction_uuid;
    payment_method = normal "" s.payment_method;
  }

  walk_up_to_price :
      (s : OrderDto) (fs : List (String × V))
      → walk
          (order_dto_field j)
          (empty_order_dto, no_bits ∷ no_bits ∷ [])
          (("order_uuid", j.uuid s.order_uuid)
            ∷ ("hull_uuid", j.uuid s.hull_uuid)
            ∷ ("engine_uuid", j.uuid s.engine_uuid)
            ∷ (optional "shield_uuid" s.shield_uuid (encode_opt_uuid j s.shield_uuid)
                ++ (optional "weapon_uuid" s.weapon_uuid (encode_opt_uuid j s.weapon_uuid)
                    ++ (("total_price", j.int64 s.total_price) ∷ fs))))
        ≡ walk (order_dto_field j) (priced_dto s, dto_bits) fs
  unfolding order_dto_field unset
  walk_up_to_price s fs =
      let f = order_dto_field j in
      let b1 : List Bits = set_required 0 0 (no_bits ∷ no_bits ∷ []) in
      let b3 : List Bits = set_required 0 2 (set_required 0 1 b1) in
      let s3 : OrderDto = record empty_order_dto {
        order_uuid = s.order_uuid;
        hull_uuid = s.hull_uuid;
        engine_uuid = s.engine_uuid;
      } in
      walk_field f "order_uuid" _ _ (λ u. (record empty_order_dto { order_uuid = u }, b1)) refl
        (j.read_uuid-uuid s.order_uuid)
      ∙ walk_field f "hull_uuid" _ _
          (λ u. (
            record empty_order_dto { order_uuid = s.order_uuid; hull_uuid = u },
            set_required 0 1 b1,
          ))
          refl (j.read_uuid-uuid s.hull_uuid)
      ∙ walk_field f "engine_uuid" _ _ (λ u. (record s3 { engine_uuid = u }, b3)) refl
          (j.read_uuid-uuid s.engine_uuid)
      ∙ walk_opt_uuid j f "shield_uuid" _ (λ o. (record s3 { shield_uuid = o }, b3)) s.shield_uuid
          (λ v. refl)
      ∙ walk_opt_uuid j f "weapon_uuid" _
          (λ o. (record s3 { shield_uuid = normal nil_uuid s.shield_uuid; weapon_uuid = o }, b3))
          s.weapon_uuid (λ v. refl)
      ∙ walk_field f "total_price" _ fs (λ n. (record (priced_dto s) { total_price = n }, dto_bits))
          refl (j.read_int64-int64 s.total_price)

  walk_dto :
      (s : OrderDto)
      → walk (order_dto_field j) (empty_order_dto, no_bits ∷ no_bits ∷ []) (order_dto_fields j s)
        ≡ decoded (normal_dto s, set_required 1 1 (set_required 1 0 dto_bits))
  unfolding order_dto_fields order_dto_field unset
  walk_dto s =
      let f = order_dto_field j in
      walk_up_to_price s _
      ∙ walk_opt_uuid j f "transaction_uuid" _
          (λ o. (record (priced_dto s) { transaction_uuid = o }, dto_bits)) s.transaction_uuid
          (λ v. refl)
      ∙ walk_opt_method j f "payment_method" _
          (λ o. (
            record (priced_dto s) {
              transaction_uuid = normal nil_uuid s.transaction_uuid;
              payment_method = o;
            },
            dto_bits,
          ))
          s.payment_method (λ v. refl)
      ∙ walk_field f "status" _ _
          (λ x. (record (paid_dto s) { status = x }, set_required 1 0 dto_bits)) refl
          (decode_status-str j s.status)
      ∙ walk_field f "created_at" _ []
          (λ t. (
            record (paid_dto s) { status = s.status; created_at = t },
            set_required 1 1 (set_required 1 0 dto_bits),
          ))
          refl (j.read_date_time-date_time s.created_at)
      ∙ walk_end f _

  -- Over a package whose readers read back what its writers write, Decode reads from the JSON of
  -- any order the same order, but for its time, which is in whole seconds, and what stood beside
  -- an unset or null field.
  pub decode-encode_order_dto :
      (s : OrderDto) → decode_order_dto j (encode_order_dto j s) ≡ decoded (normal_dto s)
  unfolding decode_order_dto encode_order_dto failures failures_of
  decode-encode_order_dto s =
      rw
        (obj_of_walk (order_dto_field j) (empty_order_dto, no_bits ∷ no_bits ∷ [])
          (order_dto_fields j s) (walk_dto s))
        refl
