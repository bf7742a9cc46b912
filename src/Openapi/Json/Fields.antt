-- ===== src/Openapi/Json/Fields.antt =====
-- shared/pkg/openapi/order/v1/oas_json_gen.go: the types of single fields, which are not objects.
use microservices_course.Common.{
  String, true, false, not, Option, some, none, List, [], ◌∷◌, ◌==◌, string_eq, if◌then◌else◌,
}
use microservices_course.Go.{Uuid, nil_uuid}
use microservices_course.Openapi.Schemas.{
  OptNil, PaymentMethod, OrderStatus, card, sbp, credit_card, investor_money, pending_payment,
  paid_status, cancelled_status,
}
use microservices_course.Openapi.Json.{Jx, Decoded, decoded, and_then}

-- The constant that spells the text.
abbrev pub method_of_text : String → PaymentMethod
method_of_text v =
    if v == card
    then card
    else if v == sbp
    then sbp
    else if v == credit_card
    then credit_card
    else if v == investor_money
    then investor_money
    else v

abbrev pub status_of_text : String → OrderStatus
status_of_text v =
    if v == pending_payment
    then pending_payment
    else if v == paid_status
    then paid_status
    else if v == cancelled_status
    then cancelled_status
    else v

module _ {V : Type 0} (j : Jx V) where
  -- (PaymentMethod).Encode, (*PaymentMethod).Decode
  abbrev pub encode_method : PaymentMethod → V
  encode_method s = j.str s

  unfoldable pub decode_method : V → Decoded PaymentMethod
  decode_method v = and_then (j.read_str v) (λ text. decoded (method_of_text text))

  -- (OrderStatus).Encode, (*OrderStatus).Decode
  abbrev pub encode_status : OrderStatus → V
  encode_status s = j.str s

  unfoldable pub decode_status : V → Decoded OrderStatus
  decode_status v = and_then (j.read_str v) (λ text. decoded (status_of_text text))

  -- (OptNilUUID).Encode: what it writes, if anything
  unfoldable pub encode_opt_uuid : OptNil Uuid → Option V
  encode_opt_uuid o =
      if not o.set then none else if o.null then some j.null else some (j.uuid o.value)

  -- (*OptNilUUID).Decode, after `Reset`
  unfoldable pub decode_opt_uuid : V → Decoded (OptNil Uuid)
  decode_opt_uuid v =
      if j.is_null v
      then and_then (j.read_null v)
          (λ _. decoded (record { value = nil_uuid; set = true; null = true }))
      else and_then (j.read_uuid v) (λ u. decoded (record { value = u; set = true; null = false }))

  -- (OptNilPaymentMethod).Encode: what it writes, if anything
  unfoldable pub encode_opt_method : OptNil PaymentMethod → Option V
  encode_opt_method o =
      if not o.set then none else if o.null then some j.null else some (j.str o.value)

  -- (*OptNilPaymentMethod).Decode, after `Reset`
  unfoldable pub decode_opt_method : V → Decoded (OptNil PaymentMethod)
  unfolding decode_method
  decode_opt_method v =
      if j.is_null v
      then and_then (j.read_null v) (λ _. decoded (record { value = ""; set = true; null = true }))
      else and_then (decode_method v)
          (λ m. decoded (record { value = m; set = true; null = false }))

-- `if s.Field.Set { e.FieldStart(name); s.Field.Encode(e) }`, with what `Encode` writes; it writes a
-- value whenever the field is set.
abbrev pub optional : {A V : Type 0} → String → OptNil A → Option V → List (String × V)
optional name o none = []
optional name o (some v) = if o.set then (name, v) ∷ [] else []
