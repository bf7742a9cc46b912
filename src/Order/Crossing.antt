-- ===== src/Order/Crossing.antt =====
-- The payment method on its way from the HTTP request to PaymentService: order/internal/converter,
-- order/internal/client/grpc/payment/v1 and payment/internal/api/payment/v1; and the order on its way
-- to the HTTP response.
use microservices_course.Common.{
  ◌≡◌, refl, sym, ap, subst, ◌∙◌, arith, Bool, true, false, ◌==◌, string_eq, some, [], inl, inr,
  text-cases, Option-cases, if◌then◌else◌,
}
use microservices_course.Openapi.Schemas
use microservices_course.Openapi.Validators.{method_valid, status_valid, order_dto_failures}
use microservices_course.Payment.Api
use microservices_course.Payment.Service
use microservices_course.Order.Api.Convert.{
  payment_method_to_model, payment_method_to_dto, order_status_to_dto, order_to_dto,
}
use microservices_course.Order.Clients.Payment.{payment_method_to_proto}
use microservices_course.Order.Model.{
  Order, PaymentMethod, OrderStatus, method_card, method_sbp, method_credit_card,
  method_investor_money,
}
use microservices_course.Order.Service.Pay.{is_valid_payment_method}

-- The four methods.
data Known : PaymentMethod → Type 0 where
  card : Known method_card
  sbp : Known method_sbp
  credit_card : Known method_credit_card
  investor_money : Known method_investor_money

Known_of_text :
    (m c : PaymentMethod) {rest : Bool}
    → Known c
    → (rest ≡ true → Known m)
    → (if m == c then true else rest) ≡ true
    → Known m
Known_of_text m c {rest = rest} k later h = elim (text-cases m c) [
  | inl e ↦ subst Known (sym e) k
  | inr n ↦ later (ap (λ b. if b then true else rest) (sym n) ∙ h)
]

Known_of_false : {m : PaymentMethod} → false ≡ true → Known m
Known_of_false h = ground arith

Known_of_method_valid : (m : PaymentMethod) → method_valid m ≡ true → Known m
unfolding method_valid
Known_of_method_valid m = Known_of_text m method_card card (
    Known_of_text m method_sbp sbp (
      Known_of_text m method_credit_card credit_card
        (Known_of_text m method_investor_money investor_money Known_of_false)))

is_valid-method_valid :
    (m : PaymentMethod) → is_valid_payment_method m ≡ true → method_valid m ≡ true
unfolding is_valid_payment_method method_valid
is_valid-method_valid m h = ground arith

Known_of_is_valid : (m : PaymentMethod) → is_valid_payment_method m ≡ true → Known m
Known_of_is_valid m h = Known_of_method_valid m (is_valid-method_valid m h)

-- The method is a known one of the order service, comes out of the protobuf message as the same text,
-- and is valid in PaymentService.
abbrev pub Arrives : Schemas.PaymentMethod → Type 0
Arrives m =
    (is_valid_payment_method (payment_method_to_model m) ≡ true)
    × (Api.payment_method_to_model (payment_method_to_proto (payment_method_to_model m)) ≡ m)
    × (Service.is_valid_payment_method
          (Api.payment_method_to_model (payment_method_to_proto (payment_method_to_model m)))
        ≡ true)

Known-Arrives : {m : PaymentMethod} → Known m → Arrives m
unfolding is_valid_payment_method Service.is_valid_payment_method payment_method_to_model
    payment_method_to_proto Api.payment_method_to_model
Known-Arrives card = (refl, refl, refl)
Known-Arrives sbp = (refl, refl, refl)
Known-Arrives credit_card = (refl, refl, refl)
Known-Arrives investor_money = (refl, refl, refl)

-- A payment method that the validator of the request lets through is a known method of the order
-- service, comes out of the protobuf message in PaymentService as the same text, and is valid
-- there.
pub payment_method-Arrives : (m : Schemas.PaymentMethod) → method_valid m ≡ true → Arrives m
payment_method-Arrives m h = Known-Arrives (Known_of_method_valid m h)

-- What PaymentService reads of a known method.
abbrev pub Sent : PaymentMethod → Type 0
Sent m =
    (Api.payment_method_to_model (payment_method_to_proto m) ≡ m)
    × (Service.is_valid_payment_method m ≡ true)

Known-Sent : {m : PaymentMethod} → Known m → Sent m
unfolding Service.is_valid_payment_method payment_method_to_proto Api.payment_method_to_model
Known-Sent card = (refl, refl)
Known-Sent sbp = (refl, refl)
Known-Sent credit_card = (refl, refl)
Known-Sent investor_money = (refl, refl)

pub payment_method-Sent : (m : PaymentMethod) → is_valid_payment_method m ≡ true → Sent m
payment_method-Sent m h = Known-Sent (Known_of_is_valid m h)

status_valid_of_tests :
    (b c : Bool)
    → status_valid (
        if b
        then Schemas.paid_status
        else if c
        then Schemas.cancelled_status
        else Schemas.pending_payment)
      ≡ true
unfolding status_valid
status_valid_of_tests true c = refl
status_valid_of_tests false true = refl
status_valid_of_tests false false = refl

order_status_to_dto-valid : (s : OrderStatus) → status_valid (order_status_to_dto s) ≡ true
unfolding order_status_to_dto
order_status_to_dto-valid s = status_valid_of_tests _ _

payment_method_to_dto-valid :
    {m : PaymentMethod} → Known m → method_valid (payment_method_to_dto m) ≡ true
unfolding method_valid payment_method_to_dto
payment_method_to_dto-valid card = refl
payment_method_to_dto-valid sbp = refl
payment_method_to_dto-valid credit_card = refl
payment_method_to_dto-valid investor_money = refl

-- An order whose payment method, if any, is a known one becomes a response that passes the
-- validator of the interface, whatever its status.
pub order_to_dto-valid :
    (o : Order)
    → ((m : PaymentMethod) → o.payment_method ≡ some m → is_valid_payment_method m ≡ true)
    → order_dto_failures (order_to_dto o) ≡ []
unfolding order_dto_failures order_to_dto Schemas.opt_get Schemas.new_opt_nil Schemas.unset
order_to_dto-valid o h = elim (Option-cases o.payment_method) [
  | inl e ↦ rw (e, order_status_to_dto-valid)
  | inr (m, e) ↦
      rw (e, payment_method_to_dto-valid (Known_of_is_valid m (h m e)), order_status_to_dto-valid)
]
