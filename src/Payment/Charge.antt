-- ===== src/Payment/Charge.antt =====
-- payment/internal/service/payment/service.go: what a request to pay leaves in the table, on every
-- branch.
use microservices_course.Common.{
  String, ◌≡◌, arith, not, Option, some, none, ◌==◌, nat_eq, string_eq, if◌then◌else◌,
}
use microservices_course.Go.{
  Result, Uuid, UuidPackage, nil_uuid, Time, ok, err, sentinel, wrap, foreign,
}
use microservices_course.Payment.Errors.{PaymentError, invalid_uuid, invalid_payment_method}
use microservices_course.Payment.Model.{Payment, PaymentMethod}
use microservices_course.Payment.Service.{
  Service, create_payment, is_valid_payment_method, parse_order_uuid, pay_order,
}

abbrev pub row : Uuid → Time → Uuid → PaymentMethod → Payment
row tx now u method = record {
  transaction_uuid = tx;
  order_uuid = u;
  payment_method = method;
  created_at = now;
}

module _ {St : Type 0} (exec : Payment → St → Option String × St) where
  -- The service over the repository, with a transaction manager that runs the closure and commits.
  abbrev pub over : Service St
  over = record { tx_manager = λ A a. a; create = create_payment exec }

  -- What `PayOrder` promises: the answer, and the table after it.
  abbrev pub pay_order_spec :
      UuidPackage
      → Result PaymentError Uuid
      → Time
      → Option Uuid
      → PaymentMethod
      → St
      → Result PaymentError String × St
  pay_order_spec uuids fresh now none method s = (err (sentinel invalid_uuid), s)
  pay_order_spec uuids fresh now (some u) method s =
      if u == nil_uuid
      then (err (sentinel invalid_uuid), s)
      else if not (is_valid_payment_method method)
      then (err (sentinel invalid_payment_method), s)
      else elim fresh [
        | err e ↦ (err e, s)
        | ok tx ↦
            let (failure, t) = exec (row tx now u method) s in
            elim failure [
              | none ↦ (ok (uuids.to_string tx), t)
              | some text ↦ (err (wrap "создать платёж" (foreign text)), t)
            ]
      ]

  -- With a transaction manager that commits: a request is refused before the table is touched
  -- where the UUID does not parse or is nil, the method is unknown or the random generator fails;
  -- otherwise exactly one INSERT is sent, and the answer is its transaction or the wrapped error
  -- of the INSERT.
  pub pay_order-eq :
      (uuids : UuidPackage) (fresh : Result PaymentError Uuid) (now : Time) (raw : String)
      (method : PaymentMethod) (s : St)
      → pay_order uuids over fresh now raw method s
        ≡ pay_order_spec uuids fresh now (uuids.parse raw) method s
  unfolding pay_order parse_order_uuid create_payment
  pay_order-eq uuids fresh now raw method s = ground arith
