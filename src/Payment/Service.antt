-- ===== src/Payment/Service.antt =====
-- payment/internal/service/payment/service.go and payment/internal/repository/payment/repository.go:
-- paying an order. The database is a parameter: what it does with the INSERT of one payment.
use microservices_course.Common.{
  String, Bool, not, ◌||◌, ◌==◌, nat_eq, string_eq, Option, some, none, if◌then◌else◌,
}
use microservices_course.Go.{
  Action, Result, Uuid, UuidPackage, nil_uuid, Time, TxManager, ok, err, sentinel, wrap, foreign,
  lift, pure, ◌>>=◌, ◌>>◌,
}
use microservices_course.Payment.Errors.{PaymentError, invalid_uuid, invalid_payment_method}
use microservices_course.Payment.Model.{
  Payment, PaymentMethod, method_card, method_sbp, method_credit_card, method_investor_money,
}

-- Create of the repository, where `exec` runs the INSERT and returns the text of its error, if any.
unfoldable pub create_payment :
    {St : Type 0}
    → (Payment → St → Option String × St)
    → Payment
    → Action St PaymentError (Unit {0})
create_payment exec payment s =
    let (failure, t) = exec payment s in
    elim failure [ none ↦ (ok tt, t) | some text ↦ (err (wrap "создать платёж" (foreign text)), t) ]

pub record Service (St : Type 0) : Type 1 where
  pub tx_manager : TxManager St PaymentError
  pub create : Payment → Action St PaymentError (Unit {0})

-- isValidPaymentMethod
unfoldable pub is_valid_payment_method : PaymentMethod → Bool
is_valid_payment_method method =
    method == method_card
    || (method == method_sbp || (method == method_credit_card || method == method_investor_money))

-- `uuid.Parse(raw)` and the comparison with `uuid.Nil`
unfoldable pub parse_order_uuid : UuidPackage → String → Result PaymentError Uuid
parse_order_uuid uuids raw = elim (uuids.parse raw) [
  | none ↦ err (sentinel invalid_uuid)
  | some u ↦ if u == nil_uuid then err (sentinel invalid_uuid) else ok u
]

abbrev pub check_method : PaymentMethod → Result PaymentError (Unit {0})
check_method method =
    if not (is_valid_payment_method method) then err (sentinel invalid_payment_method) else ok tt

module _ {St : Type 0} (uuids : UuidPackage) (service : Service St) where
  -- PayOrder; `fresh` is what `uuid.NewRandom` returns and `now` what `time.Now` does. The log line
  -- is left out.
  unfoldable pub pay_order :
      Result PaymentError Uuid → Time → String → PaymentMethod → Action St PaymentError String
  unfolding is_valid_payment_method parse_order_uuid
  pay_order fresh now raw_order_uuid method = do
    order_uuid ← lift (parse_order_uuid uuids raw_order_uuid)
    lift (check_method method)
    transaction_uuid ← lift fresh
    service.tx_manager Unit (
        service.create (record {
          transaction_uuid = transaction_uuid;
          order_uuid = order_uuid;
          payment_method = method;
          created_at = now;
        }))
    pure (uuids.to_string transaction_uuid)
