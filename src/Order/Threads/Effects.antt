-- ===== src/Order/Threads/Effects.antt =====
-- order/internal/service/order/pay.go, cancel.go: what each step of a request does to the orders, by
-- the contract of the storage.
use microservices_course.Common.{
  ◌≡◌, refl, sym, inl, inr, ◌⊎◌, true, some, Bool-cases, Option-cases, text-cases, eq_iff, subst,
}
use microservices_course.Go.{Uuid, UuidPackage, Result, ok, err}
use microservices_course.Order.Errors.{OrderError, Error}
use microservices_course.Order.Model.{
  Order, PaymentMethod, status_pending_payment, status_payment_processing, status_paid,
  status_cancelled,
}
use microservices_course.Order.Repository.{RepositoryLaws, Kept, Put}
use microservices_course.Order.Service.Deps.{Service}
use microservices_course.Order.Service.Pay.{
  is_valid_payment_method, begin_payment, roll_back, complete, cancel, get,
}
use microservices_course.Order.Service.Pay.Steps

module _ {St : Type 0} (uuids : UuidPackage) (service : Service St)
    (laws : RepositoryLaws service.order_repo) (u : Uuid) (s : St) (good : laws.Good s) where
  open laws use {view, Good}

  -- An order that a payment has started on.
  pub record Begun (o : Order) (s' : St) : Type 0 where
    pub was : Order
    pub found : view s u ≡ some was
    pub pending : was.status ≡ status_pending_payment
    pub key : o.order_uuid ≡ u
    pub put : Put view Good u (record was { status = status_payment_processing }) s s'

  -- What `begin_payment` has done, by its answer.
  abbrev pub BeginEffect : Result OrderError Order × St → Type 0
  BeginEffect (ok o, s') = Begun o s'
  BeginEffect (err e, s') = Kept view Good s s'

  unchanged : Kept view Good s s
  unchanged = record { good = good; shows = λ v. refl }

  begin_valid :
      (m : PaymentMethod)
      → is_valid_payment_method m ≡ true
      → BeginEffect (begin_payment uuids service u m s)
  begin_valid m valid = elim (Option-cases (view s u)) [
    | inl e ↦
        let (answer, kept) = laws.start_missing u s good e in
        subst BeginEffect (sym (Steps.begin_of_error uuids service u s m valid _ answer)) kept
    | inr (o, e) ↦ elim (text-cases o.status status_pending_payment) [
      | inl pending ↦
          let (o', answer, key, put) = laws.start_pending u s o good e pending in
          subst BeginEffect (sym (Steps.begin_of_started uuids service u s m valid o' answer))
            (record { was = o; found = e; pending = pending; key = key; put = put })
      | inr other ↦
          let (answer, kept) =
            laws.start_other u s o good e
              (λ q. cc (other, (eq_iff o.status status_pending_payment).1 q)) in
          subst BeginEffect (sym (Steps.begin_of_refused uuids service u s m valid o answer)) kept
    ]
  ]

  pub begin_effect : (m : PaymentMethod) → BeginEffect (begin_payment uuids service u m s)
  begin_effect m = elim (Bool-cases (is_valid_payment_method m)) [
    | inl valid ↦ begin_valid m valid
    | inr invalid ↦
        subst BeginEffect (sym (Steps.begin_of_invalid uuids service u s m invalid)) unchanged
  ]

  -- A cancellation changes nothing, or an order that waited for its payment.
  pub record Dropped (s' : St) : Type 0 where
    pub was : Order
    pub found : view s u ≡ some was
    pub pending : was.status ≡ status_pending_payment
    pub put : Put view Good u (record was { status = status_cancelled }) s s'

  pub cancel_effect : let s' = (cancel uuids service u s).1 in Kept view Good s s' ⊎ Dropped s'
  cancel_effect = elim (Option-cases (view s u)) [
    | inl e ↦
        let (answer, kept) = laws.cancel_missing u s good e in
        rw (Steps.cancel_of_error uuids service u s _ answer) (inl kept)
    | inr (o, e) ↦ elim (text-cases o.status status_pending_payment) [
      | inl pending ↦
          let (o', answer, put) = laws.cancel_pending u s o good e pending in
          rw (Steps.cancel_of_done uuids service u s o' answer)
            (inr (record { was = o; found = e; pending = pending; put = put }))
      | inr other ↦
          let (answer, kept) =
            laws.cancel_other u s o good e
              (λ q. cc (other, (eq_iff o.status status_pending_payment).1 q)) in
          rw (Steps.cancel_of_refused uuids service u s o answer) (inl kept)
    ]
  ]

  pub get_effect : Kept view Good s (get uuids service u s).1
  unfolding get
  get_effect = elim (Option-cases (view s u)) [
    | inl e ↦ (laws.get_missing u s good e).1
    | inr (o, e) ↦ (laws.get_found u s o good e).1
  ]

  module _ (o : Order) (found : view s u ≡ some o)
      (busy : o.status ≡ status_payment_processing) where
    pub complete_effect :
        (tx : Uuid) (m : PaymentMethod)
        → let run = complete uuids service u tx m s in
          (run.0 ≡ ok tx)
          × Put view Good u
              (record o {
                status = status_paid;
                transaction_uuid = some tx;
                payment_method = some m;
              })
              s
              run.1
    complete_effect tx m =
        let (o', answer, put) = laws.finish_processing u tx m s o good found busy in
        rw (Steps.complete_of_finished uuids service u s m tx o' answer) (refl, put)

    pub roll_back_effect :
        (e : Error)
        → let run = roll_back uuids service u e s in
          (run.0 ≡ err e) × Put view Good u (record o { status = status_pending_payment }) s run.1
    roll_back_effect e =
        let (answer, put) = laws.reset_processing u s o good found busy in
        rw (Steps.roll_back_of_reset uuids service u s e answer) (refl, put)
