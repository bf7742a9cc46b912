-- ===== src/Order/Repository/Machine.antt =====
-- order/internal/service/order/deps.go: the contract of the storage as a machine on one order: what a
-- call answers and which order it leaves, by the order that stands under its UUID.
use microservices_course.Common.{
  arith, ◌≡◌, ◌≢◌, sym, ap, subst, true, false, Bool, Option, some, none, List, [], ◌∷◌, ◌==◌,
  string_eq, eq_iff, Option-cases, inl, inr, if◌then◌else◌, Bool-cases,
}
use microservices_course.Go.{Err, Uuid, Result, ok, err, sentinel}
use microservices_course.Order.Errors.{OrderError, order_not_found}
use microservices_course.Order.Model.{
  Order, OrderStatus, PaymentMethod, status_pending_payment, status_payment_processing, status_paid,
  status_cancelled,
}
use microservices_course.Order.Repository.{OrderRepository, RepositoryLaws, Kept, Put}

-- A call of the storage on the order under a UUID.
pub data Call : Type 0 where
  get : Call
  start_payment : Call
  finish_payment : Uuid → PaymentMethod → Call
  reset_payment : Call
  cancel : Call

-- What a call answers. The order that comes with a change is left out: the two storages fill it
-- differently, and the service reads only its UUID.
pub data Answer : Type 0 where
  found : Order → Answer
  changed : Answer
  unchanged : Order → Answer
  done : Answer
  failed : Err OrderError → Answer

abbrev pub of_order : Result OrderError Order → Answer
of_order (ok o) = found o
of_order (err e) = failed e

abbrev pub of_change : Result OrderError (Order × Bool) → Answer
of_change (ok (o, true)) = changed
of_change (ok (o, false)) = unchanged o
of_change (err e) = failed e

abbrev pub of_unit : Result OrderError (Unit {0}) → Answer
of_unit (ok _) = done
of_unit (err e) = failed e

abbrev pub call : {St : Type 0} → OrderRepository St → Call → Uuid → St → Answer × St
call r get u s = (of_order (r.get u s).0, (r.get u s).1)
call r start_payment u s = (of_change (r.start_payment u s).0, (r.start_payment u s).1)
call r (finish_payment t m) u s =
    (of_change (r.finish_payment u t m s).0, (r.finish_payment u t m s).1)
call r reset_payment u s = (of_unit (r.reset_payment u s).0, (r.reset_payment u s).1)
call r cancel u s = (of_change (r.cancel u s).0, (r.cancel u s).1)

-- The answers to a sequence of calls.
unfoldable pub calls : {St : Type 0} → OrderRepository St → List (Call × Uuid) → St → List Answer
calls r [] s = []
calls r ((c, u) ∷ rest) s = (call r c u s).0 ∷ calls r rest (call r c u s).1

-- The status that a call wants, what it makes of an order with it, and what it answers otherwise.
abbrev pub wants : Call → OrderStatus
wants get = status_pending_payment
wants start_payment = status_pending_payment
wants (finish_payment t m) = status_payment_processing
wants reset_payment = status_payment_processing
wants cancel = status_pending_payment

-- The answer and the order that is written, if any.
abbrev pub hit : Call → Order → Answer × Option Order
hit get o = (found o, none)
hit start_payment o = (changed, some (record o { status = status_payment_processing }))
hit (finish_payment t m) o = (
  changed,
  some (record o { status = status_paid; transaction_uuid = some t; payment_method = some m }),
)
hit reset_payment o = (done, some (record o { status = status_pending_payment }))
hit cancel o = (changed, some (record o { status = status_cancelled }))

abbrev pub miss : Call → Order → Answer × Option Order
miss get o = (found o, none)
miss start_payment o = (unchanged o, none)
miss (finish_payment t m) o = (unchanged o, none)
miss reset_payment o = (done, none)
miss cancel o = (unchanged o, none)

abbrev pub step : Call → Option Order → Answer × Option Order
step c none = (failed (sentinel order_not_found), none)
step c (some o) = if o.status == wants c then hit c o else miss c o

module _ {St : Type 0} {r : OrderRepository St} (laws : RepositoryLaws r) where
  open laws use {view, Good}

  -- What was written.
  abbrev pub Effect : Uuid → Option Order → St → St → Type 0
  Effect u none s t = Kept view Good s t
  Effect u (some o) s t = Put view Good u o s t

  abbrev pub Ends : Call → Uuid → St → Answer × Option Order → Type 0
  Ends c u s w = ((call r c u s).0 ≡ w.0) × Effect u w.1 s (call r c u s).1

  module _ (u : Uuid) (s : St) (good : Good s) where
    Ends-missing :
        (c : Call) → view s u ≡ none → Ends c u s (failed (sentinel order_not_found), none)
    Ends-missing get e = let (a, k) = laws.get_missing u s good e in (ap of_order a, k)
    Ends-missing start_payment e = let (a, k) = laws.start_missing u s good e in (ap of_change a, k)
    Ends-missing (finish_payment t m) e =
        let (a, k) = laws.finish_missing u t m s good e in (ap of_change a, k)
    Ends-missing reset_payment e = let (a, k) = laws.reset_missing u s good e in (ap of_unit a, k)
    Ends-missing cancel e = let (a, k) = laws.cancel_missing u s good e in (ap of_change a, k)

    module _ (o : Order) (e : view s u ≡ some o) where
      Ends-hit : (c : Call) → o.status ≡ wants c → Ends c u s (hit c o)
      Ends-hit get q = let (a, k) = laws.get_found u s o good e in (ap of_order a, k)
      Ends-hit start_payment q =
          let (o', a, _, put) = laws.start_pending u s o good e q in (ap of_change a, put)
      Ends-hit (finish_payment t m) q =
          let (o', a, put) = laws.finish_processing u t m s o good e q in (ap of_change a, put)
      Ends-hit reset_payment q =
          let (a, put) = laws.reset_processing u s o good e q in (ap of_unit a, put)
      Ends-hit cancel q =
          let (o', a, put) = laws.cancel_pending u s o good e q in (ap of_change a, put)

      Ends-miss : (c : Call) → o.status ≢ wants c → Ends c u s (miss c o)
      Ends-miss get n = let (a, k) = laws.get_found u s o good e in (ap of_order a, k)
      Ends-miss start_payment n =
          let (a, k) = laws.start_other u s o good e n in (ap of_change a, k)
      Ends-miss (finish_payment t m) n =
          let (a, k) = laws.finish_other u t m s o good e n in (ap of_change a, k)
      Ends-miss reset_payment n = let (a, k) = laws.reset_other u s o good e n in (ap of_unit a, k)
      Ends-miss cancel n = let (a, k) = laws.cancel_other u s o good e n in (ap of_change a, k)

    -- Every call answers and writes as the machine does.
    pub call-step : (c : Call) → Ends c u s (step c (view s u))
    call-step c = elim (Option-cases (view s u)) [
      | inl e ↦ subst (λ x. Ends c u s (step c x)) (sym e) (Ends-missing c e)
      | inr (o, e) ↦
          subst (λ x. Ends c u s (step c x)) (sym e)
            (elim (Bool-cases (o.status == wants c)) [
              | inl q ↦
                  subst (λ b. Ends c u s (if b then hit c o else miss c o)) (sym q)
                    (Ends-hit o e c ((eq_iff o.status (wants c)).0 q))
              | inr n ↦
                  subst (λ b. Ends c u s (if b then hit c o else miss c o)) (sym n)
                    (Ends-miss o e c (differs n))
            ])
    ]
      where
        differs : {x y : OrderStatus} → (x == y) ≡ false → x ≢ y
        differs {x} {y} n q = ground (arith, eq_iff x y)
