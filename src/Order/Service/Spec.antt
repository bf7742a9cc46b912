-- ===== src/Order/Service/Spec.antt =====
-- order/internal/service/order: what `Pay` and `Cancel` promise of one order, with no storage in
-- sight: from the order under the UUID, if any, to the answer and the order afterwards.
use microservices_course.Common.{
  Bool, true, List, [], ◌∷◌, Option, some, none, false, ◌==◌, nat_eq, string_eq, if◌then◌else◌, ◌≡◌,
  refl, ◌∙◌,
}
use microservices_course.Go.{Uuid, Result, ok, err, sentinel}
use microservices_course.Order.Errors.{
  OrderError, order_not_found, invalid_payment_method, payment_in_progress, order_already_paid,
  order_cancelled,
}
use microservices_course.Order.Model.{
  Order, OrderStatus, PaymentMethod, status_pending_payment, status_payment_processing, status_paid,
  status_cancelled, method_card, method_sbp, method_credit_card, method_investor_money,
}
use microservices_course.Order.Repository.{Kept, Put}
use microservices_course.Order.Repository.Views.{Put_here, Put_elsewhere}

abbrev pub known_methods : List PaymentMethod
known_methods = method_card ∷ method_sbp ∷ method_credit_card ∷ method_investor_money ∷ []

unfoldable pub is_listed : PaymentMethod → List PaymentMethod → Bool
is_listed m [] = false
is_listed m (n ∷ ns) = if m == n then true else is_listed m ns

-- The refusal that each status is due, where it is not pending.
abbrev pub refusals : List (OrderStatus × OrderError)
refusals =
    (status_paid, order_already_paid)
    ∷ (status_cancelled, order_cancelled)
    ∷ (status_payment_processing, payment_in_progress)
    ∷ []

unfoldable pub refused_by : List (OrderStatus × OrderError) → OrderStatus → OrderError
refused_by [] x = order_not_found
refused_by ((y, e) ∷ rest) x = if x == y then e else refused_by rest x

-- An order that waits for its payment takes over the payment client's answer; any other is refused
-- by its status.
abbrev pub pay_pending :
    PaymentMethod → Order → Result OrderError Uuid → Result OrderError Uuid × Option Order
pay_pending m o (ok t) = (
  ok t,
  some (record o { status = status_paid; transaction_uuid = some t; payment_method = some m }),
)
pay_pending m o (err e) = (err e, some o)

abbrev pub pay_found :
    PaymentMethod → Option Order → Result OrderError Uuid → Result OrderError Uuid × Option Order
pay_found m none charged = (err (sentinel order_not_found), none)
pay_found m (some o) charged =
    if o.status == status_pending_payment
    then pay_pending m o charged
    else (err (sentinel (refused_by refusals o.status)), some o)

abbrev pub pay_spec :
    PaymentMethod → Option Order → Result OrderError Uuid → Result OrderError Uuid × Option Order
pay_spec m found charged =
    if is_listed m known_methods
    then pay_found m found charged
    else (err (sentinel invalid_payment_method), found)

abbrev pub cancel_spec : Option Order → Result OrderError (Unit {0}) × Option Order
cancel_spec none = (err (sentinel order_not_found), none)
cancel_spec (some o) =
    if o.status == status_pending_payment
    then (ok tt, some (record o { status = status_cancelled }))
    else (err (sentinel (refused_by refusals o.status)), some o)

-- A run on the order `u` gives what the specification says, and leaves every other order alone.
pub record Meets {St A : Type 0} (view : St → Uuid → Option Order) (Good : St → Type 0) (u : Uuid)
    (s : St) (run : Result OrderError A × St) (spec : Result OrderError A × Option Order)
    : Type 0 where
  pub answer : run.0 ≡ spec.0
  pub here : view run.1 u ≡ spec.1
  pub good : Good run.1
  pub elsewhere : (v : Uuid) → (u == v) ≡ false → view run.1 v ≡ view s v

module _ {St : Type 0} {view : St → Uuid → Option Order} {Good : St → Type 0} where
  -- A run that writes the order, or keeps the storage, and answers as the specification.
  module _ {A : Type 0} {u : Uuid} {s t : St} {r : Result OrderError A}
      {run : Result OrderError A × St} {spec : Result OrderError A × Option Order}
      (e : run ≡ (r, t)) where
    pub Meets-of_Put :
        {o : Order} → spec ≡ (r, some o) → Put view Good u o s t → Meets view Good u s run spec
    Meets-of_Put q p =
        rw (e, q)
          (record { answer = refl; here = Put_here p; good = p.good; elsewhere = Put_elsewhere p })

    pub Meets-of_Kept :
        {f : Option Order}
        → spec ≡ (r, f)
        → view s u ≡ f
        → Kept view Good s t
        → Meets view Good u s run spec
    Meets-of_Kept q w k =
        rw (e, q)
          (record {
            answer = refl;
            here = k.shows u ∙ w;
            good = k.good;
            elsewhere = λ v n. k.shows v;
          })
