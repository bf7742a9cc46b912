-- ===== src/Openapi/Json/RoundTrip/Replies.antt =====
-- shared/pkg/openapi/order/v1/oas_json_gen.go: what `Decode` makes of the responses and the errors that
-- `Encode` wrote.
use microservices_course.Common.{◌≡◌, refl, ◌∙◌, [], ◌∷◌}
use microservices_course.Go.{nil_uuid}
use microservices_course.Openapi.Schemas.{CreateOrderResponse, PayOrderResponse, ErrorBody}
use microservices_course.Openapi.Json.{
  Jx, decoded, no_bits, obj_bytes, failures, failures_of, set_required,
}
use microservices_course.Openapi.Json.Replies.{
  encode_create_order_response, decode_create_order_response, create_order_response_field,
  encode_pay_order_response, decode_pay_order_response, pay_order_response_field, encode_error,
  decode_error, error_field,
}
use microservices_course.Openapi.Json.Walk.{walk_field, walk_end}
use microservices_course.Openapi.Json.RoundTrip.{obj_of_walk}

module _ {V : Type 0} (j : Jx V) where
  walk_create_order_response :
      (s : CreateOrderResponse)
      → obj_bytes j
          (create_order_response_field j)
          (record { order_uuid = nil_uuid; total_price = 0 }, no_bits ∷ [])
          (encode_create_order_response j s)
        ≡ decoded (s, set_required 0 1 (set_required 0 0 (no_bits ∷ [])))
  unfolding encode_create_order_response create_order_response_field
  walk_create_order_response s =
      let f = create_order_response_field j in
      obj_of_walk j f _ _ (
        walk_field f "order_uuid" _ _
          (λ u. (record { order_uuid = u; total_price = 0 }, set_required 0 0 (no_bits ∷ []))) refl
          (j.read_uuid-uuid s.order_uuid)
        ∙ walk_field f "total_price" _ []
            (λ n.
              (record s { total_price = n }, set_required 0 1 (set_required 0 0 (no_bits ∷ []))))
            refl (j.read_int64-int64 s.total_price)
        ∙ walk_end f _)

  pub decode-encode_create_order_response :
      (s : CreateOrderResponse)
      → decode_create_order_response j (encode_create_order_response j s) ≡ decoded s
  unfolding decode_create_order_response failures failures_of
  decode-encode_create_order_response s = rw (walk_create_order_response s) refl

  walk_pay_order_response :
      (s : PayOrderResponse)
      → obj_bytes j
          (pay_order_response_field j)
          (record { transaction_uuid = nil_uuid }, no_bits ∷ [])
          (encode_pay_order_response j s)
        ≡ decoded (s, set_required 0 0 (no_bits ∷ []))
  unfolding encode_pay_order_response pay_order_response_field
  walk_pay_order_response s =
      let f = pay_order_response_field j in
      obj_of_walk j f _ _ (
        walk_field f "transaction_uuid" _ []
          (λ u. (record { transaction_uuid = u }, set_required 0 0 (no_bits ∷ []))) refl
          (j.read_uuid-uuid s.transaction_uuid)
        ∙ walk_end f _)

  pub decode-encode_pay_order_response :
      (s : PayOrderResponse)
      → decode_pay_order_response j (encode_pay_order_response j s) ≡ decoded s
  unfolding decode_pay_order_response failures failures_of
  decode-encode_pay_order_response s = rw (walk_pay_order_response s) refl

  walk_error :
      (s : ErrorBody)
      → obj_bytes j
          (error_field j)
          (record { code = 0; message = "" }, no_bits ∷ [])
          (encode_error j s)
        ≡ decoded (s, set_required 0 1 (set_required 0 0 (no_bits ∷ [])))
  unfolding encode_error error_field
  walk_error s =
      let f = error_field j in
      obj_of_walk j f _ _ (
        walk_field f "code" _ _
          (λ n. (record { code = n; message = "" }, set_required 0 0 (no_bits ∷ []))) refl
          (j.read_int-int s.code)
        ∙ walk_field f "message" _ []
            (λ m. (record s { message = m }, set_required 0 1 (set_required 0 0 (no_bits ∷ []))))
            refl (j.read_str-str s.message)
        ∙ walk_end f _)

  pub decode-encode_error : (s : ErrorBody) → decode_error j (encode_error j s) ≡ decoded s
  unfolding decode_error failures failures_of
  decode-encode_error s = rw (walk_error s) refl
