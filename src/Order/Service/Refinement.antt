-- ===== src/Order/Service/Refinement.antt =====
-- order/internal/service/order: `Pay` and `Cancel` refine `Spec`, over any storage that keeps its
-- contract and any payment client that leaves the orders alone.
use microservices_course.Common.{
  arith, sym, ◌≡◌, refl, ap, ◌∙◌, inl, inr, true, false, some, none, nat_eq, string_eq, Bool-cases,
  Option-cases, text-cases, eq_iff, String,
}
use microservices_course.Go.{Uuid, UuidPackage, Result, Result-cases, ok, err, sentinel}
use microservices_course.Order.Errors.{OrderError, Error, order_not_found, invalid_payment_method}
use microservices_course.Order.Model.{
  Order, PaymentMethod, status_pending_payment, status_payment_processing,
}
use microservices_course.Order.Repository.{RepositoryLaws, Kept, Put}
use microservices_course.Order.Repository.Views.{Put_here, Put-Kept, Put-Put}
use microservices_course.Order.Service.Deps.{Service, refusal}
use microservices_course.Order.Service.Pay.{
  is_valid_payment_method, roll_back, complete, charge, pay, cancel,
}
use microservices_course.Order.Service.Pay.Steps
use microservices_course.Order.Service.Spec.{
  is_listed, known_methods, refused_by, refusals, pay_spec, pay_found, pay_pending, cancel_spec,
  Meets, Meets-of_Put, Meets-of_Kept,
}

-- The `switch` of `Pay` and `Cancel` refuses each status as the table says.
pub refusal-refused_by : (o : Order) → refusal o ≡ refused_by refusals o.status
unfolding refusal refused_by
refusal-refused_by o = elim (text-cases o.status status_payment_processing) [
  | inl e ↦ rw e refl
  | inr n ↦ ground arith
]

pub is_valid-is_listed : (m : PaymentMethod) → is_valid_payment_method m ≡ is_listed m known_methods
unfolding is_valid_payment_method is_listed
is_valid-is_listed m = ground arith

module _ {St : Type 0} (uuids : UuidPackage) (service : Service St)
    (laws : RepositoryLaws service.order_repo) where
  open service use {order_repo, payment_client}
  open laws use {view, Good}

  -- The payment client leaves the orders as they are.
  abbrev pub LeavesOrders : Type 0
  LeavesOrders =
      (raw : String) (m : PaymentMethod) (s : St)
      → Good s
      → Kept view Good s (payment_client raw m s).1

  module _ (u : Uuid) (s : St) (good : Good s) where
    cancel_found :
        (o : Order)
        → view s u ≡ some o
        → Meets view Good u s (cancel uuids service u s) (cancel_spec (some o))
    cancel_found o e = elim (text-cases o.status status_pending_payment) [
      | inl pending ↦
          let (o', answer, put) = laws.cancel_pending u s o good e pending in
          Meets-of_Put (Steps.cancel_of_done uuids service u s o' answer)
            (rw ((eq_iff o.status status_pending_payment).1 pending)) put
      | inr other ↦
          let (answer, kept) =
            laws.cancel_other u s o good e
              (λ q. cc (other, (eq_iff o.status status_pending_payment).1 q)) in
          Meets-of_Kept (Steps.cancel_of_refused uuids service u s o answer)
            (rw other (ap (λ x. (err (sentinel x), some o)) (sym (refusal-refused_by o)))) e kept
    ]

    -- Over a storage that keeps its contract, in a good state: Cancel answers and changes the
    -- order as the specification says, whatever its status and where there is none, and changes no
    -- other order.
    pub cancel-Meets : Meets view Good u s (cancel uuids service u s) (cancel_spec (view s u))
    cancel-Meets = elim (Option-cases (view s u)) [
      | inl e ↦
          let (answer, kept) = laws.cancel_missing u s good e in
          rw e (Meets-of_Kept (Steps.cancel_of_error uuids service u s _ answer) refl e kept)
      | inr (o, e) ↦ rw e (cancel_found o e)
    ]

    module _ (frame : LeavesOrders) (m : PaymentMethod)
        (valid : is_valid_payment_method m ≡ true) where
      -- The state in which the payment client is called, and its answer.
      abbrev pub started : St
      started = (order_repo.start_payment u s).1

      abbrev pub charged : Result OrderError Uuid × St
      charged = payment_client (uuids.to_string u) m started

      module _ (o : Order) (e : view s u ≡ some o)
          (pending : o.status ≡ status_pending_payment) where
        -- While the payment client runs, the order is in processing.
        processing : Put view Good u (record o { status = status_payment_processing }) s charged.1
        processing =
            let (_, _, _, put) = laws.start_pending u s o good e pending in
            Put-Kept put (frame (uuids.to_string u) m started put.good)

        pay-eq-charge :
            (o' : Order) × (o'.order_uuid ≡ u)
            × (pay uuids service u m s ≡ charge uuids service u m o' started)
        pay-eq-charge =
            let (o', answer, key, _) = laws.start_pending u s o good e pending in
            let begun = Steps.begin_of_started uuids service u s m valid o' answer in
            (
              o',
              key,
              Steps.pay_of_begun uuids service u s m o' (ap (λ x. x.0) begun)
                  ∙ ap (λ x. charge uuids service u m o' x.1) begun,
            )

        pay_of_paid :
            (t : Uuid)
            → charged.0 ≡ ok t
            → Meets view Good u s (pay uuids service u m s) (pay_pending m o (ok t))
        pay_of_paid t paid =
            let (o', key, run) = pay-eq-charge in
            let (_, answer, put) =
              laws.finish_processing u t m charged.1 _ processing.good (Put_here processing) refl in
            Meets-of_Put
              (run
                ∙ Steps.charge_of_paid uuids service u started m o' t (rw key paid)
                ∙ ap
                    (λ v.
                      complete uuids service u t m (payment_client (uuids.to_string v) m started).1)
                    key
                ∙ Steps.complete_of_finished uuids service u charged.1 m t _ answer)
              refl (Put-Put processing put)

        pay_of_declined :
            (x : Error)
            → charged.0 ≡ err x
            → Meets view Good u s (pay uuids service u m s) (pay_pending m o (err x))
        pay_of_declined x declined =
            let (o', key, run) = pay-eq-charge in
            let (answer, put) =
              laws.reset_processing u charged.1 _ processing.good (Put_here processing) refl in
            Meets-of_Put
              (run
                ∙ Steps.charge_of_error uuids service u started m o' x (rw key declined)
                ∙ ap
                    (λ v.
                      roll_back uuids service u x (payment_client (uuids.to_string v) m started).1)
                    key
                ∙ Steps.roll_back_of_reset uuids service u charged.1 x answer)
              (ap (λ x'. (err x, some (record o { status = x' }))) pending) (Put-Put processing put)

        pay_of_pending : Meets view Good u s (pay uuids service u m s) (pay_pending m o charged.0)
        pay_of_pending = elim (Result-cases charged.0) [
          | inl (t, paid) ↦ rw paid (pay_of_paid t paid)
          | inr (x, declined) ↦ rw declined (pay_of_declined x declined)
        ]

      pay_of_found :
          (o : Order)
          → view s u ≡ some o
          → Meets view Good u s (pay uuids service u m s) (pay_found m (some o) charged.0)
      pay_of_found o e = elim (text-cases o.status status_pending_payment) [
        | inl pending ↦
            rw ((eq_iff o.status status_pending_payment).1 pending) (pay_of_pending o e pending)
        | inr other ↦
            let (answer, kept) =
              laws.start_other u s o good e
                (λ q. cc (other, (eq_iff o.status status_pending_payment).1 q)) in
            let begun = Steps.begin_of_refused uuids service u s m valid o answer in
            Meets-of_Kept
              (Steps.pay_of_error uuids service u s m _ (ap (λ x. x.0) begun)
                ∙ ap (λ x. (err (sentinel (refusal o)), x.1)) begun)
              (rw other (ap (λ x. (err (sentinel x), some o)) (sym (refusal-refused_by o)))) e kept
      ]

      pay_of_missing :
          view s u ≡ none
          → Meets view Good u s (pay uuids service u m s) (pay_found m none charged.0)
      pay_of_missing e =
          let (answer, kept) = laws.start_missing u s good e in
          let begun = Steps.begin_of_error uuids service u s m valid _ answer in
          Meets-of_Kept
            (Steps.pay_of_error uuids service u s m _ (ap (λ x. x.0) begun)
              ∙ ap (λ x. (err (sentinel order_not_found), x.1)) begun)
            refl e kept

    pay_of_invalid :
        (m : PaymentMethod) (r : Result OrderError Uuid)
        → is_valid_payment_method m ≡ false
        → Meets view Good u s (pay uuids service u m s) (pay_spec m (view s u) r)
    pay_of_invalid m r invalid =
        let begun = Steps.begin_of_invalid uuids service u s m invalid in
        Meets-of_Kept
          (Steps.pay_of_error uuids service u s m _ (ap (λ x. x.0) begun)
            ∙ ap (λ x. (err (sentinel invalid_payment_method), x.1)) begun)
          (rw (sym (is_valid-is_listed m) ∙ invalid) refl) refl
          (record { good = good; shows = λ v. refl })

    -- Over a storage that keeps its contract, in a good state, and with a payment client that
    -- leaves the orders alone: Pay answers and changes the order as the specification says, for
    -- every method, every order or none and every answer of the payment client, and changes no
    -- other order.
    pub pay-Meets :
        LeavesOrders
        → (m : PaymentMethod)
        → Meets view Good u s (pay uuids service u m s) (
            pay_spec m
              (view s u)
              (payment_client (uuids.to_string u) m (order_repo.start_payment u s).1).0)
    pay-Meets frame m = elim (Bool-cases (is_valid_payment_method m)) [
      | inr invalid ↦ pay_of_invalid m _ invalid
      | inl valid ↦ elim (Option-cases (view s u)) [
        | inl e ↦ rw (sym (is_valid-is_listed m) ∙ valid, e) (pay_of_missing frame m valid e)
        | inr (o, e) ↦ rw (sym (is_valid-is_listed m) ∙ valid, e) (pay_of_found frame m valid o e)
      ]
    ]
