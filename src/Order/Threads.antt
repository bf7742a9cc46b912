-- ===== src/Order/Threads.antt =====
-- order/internal/service/order: requests that run at the same time. A request for payment gives the
-- control away while the payment client runs, so `Pay` is three steps; each call of the storage is
-- one step, as the mutex of the in-memory storage and the single UPDATE of the SQL one make it.
pub mod Effects
pub mod Locks
pub mod Ledger
pub mod Payments
pub mod Runs
pub mod Guarantees
use microservices_course.Common.{ℕ, ◌≡◌, List, ◌∷◌, none, ◌==◌, nat_eq, if◌then◌else◌}
use microservices_course.Go.{Uuid, UuidPackage, Result, ok, err}
use microservices_course.Order.Errors.{OrderError, Error}
use microservices_course.Order.Model.{Order, PaymentMethod, status_pending_payment}
use microservices_course.Order.Repository.{RepositoryLaws}
use microservices_course.Order.Service.Deps.{Service}
use microservices_course.Order.Service.Pay.{begin_payment, roll_back, complete, cancel, get}

-- Where a thread stands in `Pay`.
pub data Phase : Type 0 where
  idle : Phase
  charging : Uuid → Order → PaymentMethod → Phase  -- the payment client runs
  declined : Uuid → Error → Phase  -- it failed; ResetPayment comes next
  charged : Uuid → Uuid → PaymentMethod → Phase  -- it took the money; FinishPayment comes next
  answered : Result OrderError Uuid → Phase

-- The storage, the threads, and three lists that the world outside keeps: the payments that
-- PaymentService has stored, those of them that the payment client has reported as successful
-- (`charges`) and those for which it has returned an error (`lost`). Each is an order's UUID as the
-- payment client was called with it, and the transaction.
pub record World (St : Type 0) : Type 0 where
  pub storage : St
  pub phase : ℕ → Phase
  pub payments : List (Uuid × Uuid)
  pub charges : List (Uuid × Uuid)
  pub lost : List (Uuid × Uuid)

abbrev pub at : (ℕ → Phase) → ℕ → Phase → ℕ → Phase
at f t p v = if t == v then p else f v

module _ {St : Type 0} (uuids : UuidPackage) (service : Service St)
    (laws : RepositoryLaws service.order_repo) where
  open laws use {view, Accepts}

  -- One step of one request. What becomes of a call of the payment client is for the environment to
  -- choose: the payment is stored and reported (`accept`), stored but answered with an error, as
  -- where the reply is lost on the way (`lose`), or not stored (`decline`).
  pub data Step (w : World St) : World St → Type 0 where
    begin :
        (t : ℕ) (u : Uuid) (m : PaymentMethod) (o : Order) (s : St)
        → w.phase t ≡ idle
        → begin_payment uuids service u m w.storage ≡ (ok o, s)
        → Step w (record w { storage = s; phase = at w.phase t (charging u o m) })
    refuse :
        (t : ℕ) (u : Uuid) (m : PaymentMethod) (e : Error) (s : St)
        → w.phase t ≡ idle
        → begin_payment uuids service u m w.storage ≡ (err e, s)
        → Step w (record w { storage = s; phase = at w.phase t (answered (err e)) })
    accept :
        (t : ℕ) (u tx : Uuid) (m : PaymentMethod) (o : Order)
        → w.phase t ≡ charging u o m
        → Step w (record w {
          phase = at w.phase t (charged u tx m);
          payments = (o.order_uuid, tx) ∷ w.payments;
          charges = (o.order_uuid, tx) ∷ w.charges;
        })
    lose :
        (t : ℕ) (u tx : Uuid) (m : PaymentMethod) (o : Order) (e : Error)
        → w.phase t ≡ charging u o m
        → Step w (record w {
          phase = at w.phase t (declined u e);
          payments = (o.order_uuid, tx) ∷ w.payments;
          lost = (o.order_uuid, tx) ∷ w.lost;
        })
    decline :
        (t : ℕ) (u : Uuid) (m : PaymentMethod) (o : Order) (e : Error)
        → w.phase t ≡ charging u o m
        → Step w (record w { phase = at w.phase t (declined u e) })
    reset :
        (t : ℕ) (u : Uuid) (e : Error) (r : Result OrderError Uuid) (s : St)
        → w.phase t ≡ declined u e
        → roll_back uuids service u e w.storage ≡ (r, s)
        → Step w (record w { storage = s; phase = at w.phase t (answered r) })
    finish :
        (t : ℕ) (u tx : Uuid) (m : PaymentMethod) (r : Result OrderError Uuid) (s : St)
        → w.phase t ≡ charged u tx m
        → complete uuids service u tx m w.storage ≡ (r, s)
        → Step w (record w { storage = s; phase = at w.phase t (answered r) })
    leave :
        (t : ℕ) (r : Result OrderError Uuid)
        → w.phase t ≡ answered r
        → Step w (record w { phase = at w.phase t idle })
    cancel_order : (u : Uuid) → Step w (record w { storage = (cancel uuids service u w.storage).1 })
    get_order : (u : Uuid) → Step w (record w { storage = (get uuids service u w.storage).1 })
    create_order :
        (o : Order)
        → view w.storage o.order_uuid ≡ none
        → Accepts o
        → o.status ≡ status_pending_payment
        → Step w (record w { storage = (service.order_repo.create o w.storage).1 })

  -- Any number of steps, of any threads in any order.
  pub data Reach (w : World St) : World St → Type 0 where
    here : Reach w w
    next : {x y : World St} → Reach w x → Step x y → Reach w y
