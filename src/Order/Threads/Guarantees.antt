-- ===== src/Order/Threads/Guarantees.antt =====
-- order/internal/service/order: what concurrent requests can rely on, from a start in which no thread
-- runs, no order is in processing and nothing was charged.
use mathlib.Core.Option.{some-injective}
use microservices_course.Common.{
  ℕ, ◌+◌, ◌≤◌, ◌≡◌, refl, sym, ap, inl, inr, ◌⊎◌, some, none, [], subst, arith,
}
use microservices_course.Go.{Uuid, UuidPackage, ok, foreign}
use microservices_course.Order.Errors.{Error}
use microservices_course.Order.Model.{Order, PaymentMethod, status_pending_payment, status_paid}
use microservices_course.Order.Repository.{RepositoryLaws}
use microservices_course.Order.Repository.Views.{Put_here}
use microservices_course.Order.Service.Deps.{Service}
use microservices_course.Order.Service.Pay.{complete, roll_back}
use microservices_course.Order.Threads.{
  Phase, idle, charging, declined, charged, answered, World, Reach, here, next, decline, reset,
  finish,
}
use microservices_course.Order.Threads.Effects.{complete_effect, roll_back_effect}
use microservices_course.Order.Threads.Locks.{Processing, held, at_same}
use microservices_course.Order.Threads.Ledger.{Charged, ChargedOnce, InFlight, Settled}
use microservices_course.Order.Threads.Payments.{
  count, count-ChargedOnce, IsBalanced, Reach-IsBalanced,
}
use microservices_course.Order.Threads.Runs.{Safe, Reach-Safe}

module _ {St : Type 0} (uuids : UuidPackage) (service : Service St)
    (laws : RepositoryLaws service.order_repo) where
  open laws use {view, Good}

  pub record IsStart (w : World St) : Type 0 where
    pub good : Good w.storage
    pub resting : (t : ℕ) → w.phase t ≡ idle
    pub unlocked : (u : Uuid) → Processing view Good w.storage u → ⊥
    pub unpaid : w.payments ≡ []
    pub uncharged : w.charges ≡ []
    pub none_lost : w.lost ≡ []

  no_charges : {w : World St} → IsStart w → (u tx : Uuid) → Charged u tx w.charges → ⊥
  no_charges {w} start u tx c = none_of_nil (subst (Charged u tx) start.uncharged c)
    where
      none_of_nil : Charged u tx [] → ⊥
      none_of_nil c = elim c [ ]

  start-Safe : (w : World St) → IsStart w → Safe uuids service laws w
  start-Safe w start = record {
    locks = record {
      good = start.good;
      busy = λ t u e. cc (ap held (start.resting t), e);
      single = λ t v u e _. cc (ap held (start.resting t), e);
      owned = λ u h. absurd (start.unlocked u h);
    };
    ledger = record {
      key = λ t u o m e. cc (start.resting t, e);
      accounted = λ u tx c. absurd (no_charges start u tx c);
      once = subst ChargedOnce (sym start.uncharged) tt;
    };
  }

  module _ (w0 w : World St) (start : IsStart w0) (run : Reach uuids service laws w0 w) where
    safe : Safe uuids service laws w
    safe = Reach-Safe uuids service laws (start-Safe w0 start) run

    balanced : IsBalanced w
    balanced =
        Reach-IsBalanced uuids service laws
          (λ u. rw (start.unpaid, start.uncharged, start.none_lost) refl) run

    -- From a start in which no thread runs, no order is in processing and nothing was charged,
    -- over a storage that keeps its contract: however the steps of the requests interleave,
    -- PaymentService has stored at most one payment of each order more than it has stored payments
    -- of it for which the payment client returned an error. So where no reply is lost, no order is
    -- charged twice.
    pub Reach-payments : (u : Uuid) → count u w.payments ≤ 1 + count u w.lost
    Reach-payments u =
        let once = count-ChargedOnce u w.charges safe.ledger.once in
        let all = balanced u in omega arith

    -- From a start in which no thread runs, no order is in processing and nothing was charged,
    -- over a storage that keeps its contract: however the steps of the requests interleave, every
    -- successful charge is either about to be written by its thread or stands in a paid order with
    -- its transaction.
    pub Reach-charges :
        (u tx : Uuid)
        → Charged u tx w.charges
        → InFlight view w.phase u tx ⊎ Settled view w.storage u tx
    Reach-charges = safe.ledger.accounted

    -- From a start in which no thread runs, no order is in processing and nothing was charged,
    -- over a storage that keeps its contract: after any steps, two threads that are between
    -- StartPayment and the end of the payment of one order are the same, and the order is in
    -- processing.
    pub Reach-exclusive :
        (t v : ℕ) (u : Uuid)
        → held (w.phase t) ≡ some u
        → held (w.phase v) ≡ some u
        → (t ≡ v) × Processing view Good w.storage u
    Reach-exclusive t v u e q = (safe.locks.single t v u e q, safe.locks.busy t u e)

    -- From a start in which no thread runs, no order is in processing and nothing was charged,
    -- over a storage that keeps its contract: after any steps, an order in processing is held by a
    -- thread, so no order is left locked.
    pub Reach-owned :
        (u : Uuid) → Processing view Good w.storage u → (t : ℕ) × (held (w.phase t) ≡ some u)
    Reach-owned u h = safe.locks.owned u h

    -- From a start in which no thread runs, no order is in processing and nothing was charged,
    -- over a storage that keeps its contract: after any steps, where the payment client has taken
    -- the money for a thread, the rest of its payment succeeds: it answers with the transaction,
    -- and the order is paid by it.
    pub Reach-complete :
        (t : ℕ) (u tx : Uuid) (m : PaymentMethod)
        → w.phase t ≡ charged u tx m
        → let run = complete uuids service u tx m w.storage in
          (run.0 ≡ ok tx) × Settled view run.1 u tx
    Reach-complete t u tx m e =
        let h = safe.locks.busy t u (ap held e) in
        let (answer, put) =
          complete_effect uuids service laws u w.storage safe.locks.good h.order h.found
            h.status_lem tx m in
        (answer, record { order = _; found = Put_here put; paid = refl; transaction = refl })

    -- The order `u` is open for payment again, or paid.
    pub record Released (y : World St) (u : Uuid) : Type 0 where
      pub order : Order
      pub found : view y.storage u ≡ some order
      pub status_lem : (order.status ≡ status_pending_payment) ⊎ (order.status ≡ status_paid)

    abbrev pub CanRelease : ℕ → Uuid → Type 0
    CanRelease t u =
        (y : World St) × Reach uuids service laws w y × (held (y.phase t) ≡ none) × Released y u

    -- The steps left to a thread that holds an order.
    ends_declined :
        {x : World St} (t : ℕ) (u : Uuid) (e : Error)
        → Reach uuids service laws w x
        → x.phase t ≡ declined u e
        → CanRelease t u
    ends_declined {x} t u e r q =
        let back = roll_back uuids service u e x.storage in
        let locks = (Reach-Safe uuids service laws safe r).locks in
        let h = locks.busy t u (ap held q) in
        let (_, put) =
          roll_back_effect uuids service laws u x.storage locks.good h.order h.found h.status_lem
            e in
        (
          _,
          next r (reset t u e back.0 back.1 q refl),
          ap held (at_same x.phase t (answered back.0)),
          record { order = _; found = Put_here put; status_lem = inl refl },
        )

    ends_charged :
        (t : ℕ) (u tx : Uuid) (m : PaymentMethod) → w.phase t ≡ charged u tx m → CanRelease t u
    ends_charged t u tx m e =
        let done = complete uuids service u tx m w.storage in
        let settled = (Reach-complete t u tx m e).1 in
        (
          _,
          next here (finish t u tx m done.0 done.1 e refl),
          ap held (at_same w.phase t (answered done.0)),
          record { order = settled.order; found = settled.found; status_lem = inr settled.paid },
        )

    ends : (t : ℕ) (p : Phase) (u : Uuid) → w.phase t ≡ p → held p ≡ some u → CanRelease t u
    ends t idle u e h = cc h
    ends t (answered r) u e h = cc h
    ends t (declined v x) u e h =
        subst (CanRelease t) (some-injective v u h) (ends_declined t v x here e)
    ends t (charged v tx m) u e h =
        subst (CanRelease t) (some-injective v u h) (ends_charged t v tx m e)
    ends t (charging v o m) u e h = subst (CanRelease t) (some-injective v u h) (
        ends_declined t v (foreign "") (next here (decline t v m o (foreign "") e))
          (at_same w.phase t (declined v (foreign ""))))

    -- From a start in which no thread runs, no order is in processing and nothing was charged,
    -- over a storage that keeps its contract: after any steps, a thread that holds an order can
    -- come to the end of its payment and give the order up, and the order is then pending again or
    -- paid.
    pub Reach-releases : (t : ℕ) (u : Uuid) → held (w.phase t) ≡ some u → CanRelease t u
    Reach-releases t u h = ends t (w.phase t) u refl h
