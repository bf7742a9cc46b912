-- ===== src/System/Charge.antt =====
-- order/internal/client/grpc/payment/v1 over payment/internal: a charge, from the order service to the
-- table of payments and back. The gRPC call in between carries the messages unchanged.
use Prim.Native.String.{◌++◌}
use microservices_course.Common.{
  ◌≡◌, refl, ap, ◌∙◌, true, false, String, Option, none, some, ◌==◌, nat_eq,
}
use microservices_course.Go.{
  Action, Result, Uuid, UuidPackage, nil_uuid, Time, Status, internal, ok, err, wrap, foreign, is,
  error_text,
}
use microservices_course.Payment.Model.{Payment}
use microservices_course.Payment.Api
use microservices_course.Payment.Service
use microservices_course.Payment.Charge.{row, over, pay_order_spec, pay_order-eq}
use microservices_course.Payment.Errors.{PaymentError}
use microservices_course.Order.Errors.{OrderError}
use microservices_course.Order.Model.{PaymentMethod}
use microservices_course.Order.Service.Pay.{is_valid_payment_method}
use microservices_course.Order.Clients.Payment.{
  pay_order, payment_method_to_proto, read_transaction,
}
use microservices_course.Order.Crossing.{payment_method-Sent}

module _ {St : Type 0} (uuids : UuidPackage) (parse_failure : String → String)
    (rpc_text : Status → String) (exec : Payment → St → Option String × St) (tx : Uuid)
    (now : Time) where
  -- The payment client of the order service, over PaymentService.
  abbrev pub charge : Uuid → PaymentMethod → Action St OrderError Uuid
  charge u method =
      pay_order uuids parse_failure rpc_text (Api.pay_order uuids (over exec) (ok tx) now)
        (uuids.to_string u) method

  -- The status with which PaymentService answers where the INSERT fails.
  abbrev pub refused : String → Status
  refused text = record {
    code = internal;
    text = "внутренняя ошибка: " ++ ("создать платёж" ++ (": " ++ text));
  }

  -- What a charge promises.
  abbrev pub charge_spec : Uuid → PaymentMethod → St → Result OrderError Uuid × St
  charge_spec u method s =
      let (failure, t) = exec (row tx now u method) s in
      elim failure [
        | none ↦ (ok tx, t)
        | some text ↦ (err (wrap "оплатить заказ" (foreign (rpc_text (refused text)))), t)
      ]

  -- What the client makes of the service's result.
  abbrev read : Result PaymentError String × St → Result OrderError Uuid × St
  read (r, t) = (read_transaction uuids parse_failure rpc_text (Api.pay_order_reply r), t)

  charge-read :
      (u : Uuid) (method : PaymentMethod) (s : St)
      → charge u method s
        ≡ read (
            Service.pay_order uuids
              (over exec)
              (ok tx)
              now
              (uuids.to_string u)
              (Api.payment_method_to_model (payment_method_to_proto method))
              s)
  unfolding pay_order Api.pay_order
  charge-read u method s = refl

  read-outcome :
      (failure : Option String) (t : St)
      → read (elim failure [
        | none ↦ (ok (uuids.to_string tx), t)
        | some text ↦ (err (wrap "создать платёж" (foreign text)), t)
      ])
        ≡ elim failure [
          | none ↦ (ok tx, t)
          | some text ↦ (err (wrap "оплатить заказ" (foreign (rpc_text (refused text)))), t)
        ]
  unfolding read_transaction Api.pay_order_reply Api.payment_error_to_status is error_text
  read-outcome none t = rw uuids.parse-to_string refl
  read-outcome (some text) t = refl

  -- A charge of an order whose UUID is not nil, by a known method, where the random generator
  -- succeeds: it sends exactly one INSERT, of the payment of that order, by that method, under the
  -- fresh transaction. If it succeeds the order service gets that transaction, and if it fails an
  -- error that wraps the text which the gRPC package makes of an internal status with the text of
  -- the failure.
  pub charge-eq :
      (u : Uuid) (method : PaymentMethod) (s : St)
      → (u == nil_uuid) ≡ false
      → is_valid_payment_method method ≡ true
      → charge u method s ≡ charge_spec u method s
  charge-eq u method s real valid =
      let (same, sound) = payment_method-Sent method valid in
      let outcome = exec (row tx now u method) s in
      charge-read u method s
      ∙ ap (λ m. read (Service.pay_order uuids (over exec) (ok tx) now (uuids.to_string u) m s))
          same
      ∙ ap read (pay_order-eq exec uuids (ok tx) now (uuids.to_string u) method s)
      ∙ ap (λ o. read (pay_order_spec exec uuids (ok tx) now o method s)) (uuids.parse-to_string u)
      ∙ rw (real, sound) (read-outcome outcome.0 outcome.1)
