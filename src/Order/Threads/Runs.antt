-- ===== src/Order/Threads/Runs.antt =====
-- order/internal/service/order: what holds after any steps of any requests.
use microservices_course.Common.{ℕ, ◌≡◌, refl, sym, ap, ◌∙◌, inl, inr, some, none, subst}
use microservices_course.Go.{Uuid, UuidPackage, Result, err}
use microservices_course.Order.Errors.{OrderError, Error}
use microservices_course.Order.Model.{Order, PaymentMethod, status_pending_payment, status_paid}
use microservices_course.Order.Model.Statuses.{
  pending_not_processing, paid_not_processing, cancelled_not_processing, pending_not_paid,
}
use microservices_course.Order.Repository.{RepositoryLaws, Kept, Put}
use microservices_course.Order.Repository.Views.{Put_here}
use microservices_course.Order.Service.Deps.{Service}
use microservices_course.Order.Service.Pay.{roll_back, complete, cancel, get}
use microservices_course.Order.Threads.{
  Phase, idle, charging, declined, charged, answered, at, World, Step, begin, refuse, accept, lose,
  decline, reset, finish, leave, cancel_order, get_order, create_order, Reach, here, next,
}
use microservices_course.Order.Threads.Effects.{
  BeginEffect, begin_effect, Begun, cancel_effect, get_effect, complete_effect, roll_back_effect,
}
use microservices_course.Order.Threads.Locks.{
  Locks, HasStatus-unique, Processing, held, moves, Locks-of_Kept, Locks-of_taking, Locks-of_giving,
  Locks-of_outside,
}
use microservices_course.Order.Threads.Ledger.{
  Ledger, Ledger-of_still, Ledger-of_moved, Ledger-of_charge, KeepsPaid-of_Kept, KeepsPaid-of_Put,
}

module _ {St : Type 0} (uuids : UuidPackage) (service : Service St)
    (laws : RepositoryLaws service.order_repo) where
  open laws use {view, Good}

  -- The locks and the ledger of a world.
  pub record Safe (w : World St) : Type 0 where
    pub locks : Locks view Good w.storage w.phase
    pub ledger : Ledger view w.storage w.phase w.charges

  -- An order under `u` that was pending is not in processing and not paid.
  not-Processing :
      (s : St) (u : Uuid) (o : Order)
      → view s u ≡ some o
      → o.status ≡ status_pending_payment
      → Processing view Good s u
      → ⊥
  not-Processing s u o e p h =
      pending_not_processing
        (HasStatus-unique view Good {u = u} (record { order = o; found = e; status_lem = p }) h)

  not_paid :
      (s : St) (u : Uuid) {o : Order} {x : _}
      → view s u ≡ some o
      → o.status ≡ x
      → (x ≡ status_paid → ⊥)
      → (y : Order) → view s u ≡ some y
      → y.status ≡ status_paid
      → ⊥
  not_paid s u {o} e p n y q paid = n (
      HasStatus-unique view Good {u = u} (record { order = o; found = e; status_lem = p })
        (record { order = y; found = q; status_lem = paid }))

  module _ (w : World St) (safe : Safe w) where
    open safe use {locks, ledger}

    -- A thread moves between phases in which it holds the same, and the storage stays.
    quiet-Locks :
        {s : St} (t : ℕ) (p : Phase)
        → Kept view Good w.storage s
        → held p ≡ held (w.phase t)
        → Locks view Good s (at w.phase t p)
    quiet-Locks t p kept same = Locks-of_Kept view Good locks kept (λ v.
        elim (moves w.phase t p v) [
          | inl (e, m) ↦ ap held m ∙ same ∙ ap (λ x. held (w.phase x)) e
          | inr (_, m) ↦ ap held m
        ])

    quiet :
        {s : St} (t : ℕ) (p : Phase)
        → Kept view Good w.storage s
        → held p ≡ held (w.phase t)
        → ((u : Uuid) (o : Order) (m : PaymentMethod) → p ≡ charging u o m → ⊥)
        → ((u tx : Uuid) (m : PaymentMethod) → w.phase t ≡ charged u tx m → ⊥)
        → Safe (record w { storage = s; phase = at w.phase t p })
    quiet t p kept same no_charging no_charged = record {
      locks = quiet-Locks t p kept same;
      ledger =
          Ledger-of_moved view ledger (KeepsPaid-of_Kept view kept) t p
            (λ u o m e. absurd (no_charging u o m e)) (λ u tx m e. absurd (no_charged u tx m e));
    }

    stays : Kept view Good w.storage w.storage
    stays = record { good = locks.good; shows = λ v. refl }

    begins :
        (t : ℕ) (u : Uuid) (m : PaymentMethod) (o : Order) (s : St)
        → w.phase t ≡ idle
        → Begun uuids service laws u w.storage locks.good o s
        → Safe (record w { storage = s; phase = at w.phase t (charging u o m) })
    begins t u m o s free b = record {
      locks =
          Locks-of_taking view Good locks b.put t (charging u o m) (ap held free) refl
            (not-Processing w.storage u b.was b.found b.pending) refl;
      ledger =
          Ledger-of_moved view ledger
            (KeepsPaid-of_Put view b.put (not_paid w.storage u b.found b.pending pending_not_paid))
            t (charging u o m) (λ v x n e. cc (b.key, e)) (λ v tx n e. cc (free, e));
    }

    -- The order that a thread holds.
    holding : (t : ℕ) (u : Uuid) → held (w.phase t) ≡ some u → Processing view Good w.storage u
    holding t u e = locks.busy t u e

    resets :
        (t : ℕ) (u : Uuid) (e : Error) (r : Result OrderError Uuid) (s : St)
        → w.phase t ≡ declined u e
        → roll_back uuids service u e w.storage ≡ (r, s)
        → Safe (record w { storage = s; phase = at w.phase t (answered r) })
    resets t u e r s at_t run =
        let h = holding t u (ap held at_t) in
        let put =
          subst
            (λ x. Put view Good u (record h.order { status = status_pending_payment }) w.storage x)
            (ap (λ x. x.1) run)
            (roll_back_effect uuids service laws u w.storage locks.good h.order h.found h.status_lem
              e).1 in
        record {
          locks =
              Locks-of_giving view Good locks put t (answered r) (ap held at_t) refl
                pending_not_processing;
          ledger =
              Ledger-of_moved view ledger
                (KeepsPaid-of_Put view put
                  (not_paid w.storage u h.found h.status_lem (λ q. paid_not_processing (sym q))))
                t (answered r) (λ v x n q. cc q) (λ v tx n q. cc (at_t, q));
        }

    finishes :
        (t : ℕ) (u tx : Uuid) (m : PaymentMethod) (r : Result OrderError Uuid) (s : St)
        → w.phase t ≡ charged u tx m
        → complete uuids service u tx m w.storage ≡ (r, s)
        → Safe (record w { storage = s; phase = at w.phase t (answered r) })
    finishes t u tx m r s at_t run =
        let h = holding t u (ap held at_t) in
        let paid = record h.order {
          status = status_paid;
          transaction_uuid = some tx;
          payment_method = some m;
        } in
        let put =
          subst (λ x. Put view Good u paid w.storage x) (ap (λ x. x.1) run)
            (complete_effect uuids service laws u w.storage locks.good h.order h.found h.status_lem
              tx m).1 in
        record {
          locks =
              Locks-of_giving view Good locks put t (answered r) (ap held at_t) refl
                paid_not_processing;
          ledger =
              Ledger-of_moved view ledger
                (KeepsPaid-of_Put view put
                  (not_paid w.storage u h.found h.status_lem (λ q. paid_not_processing (sym q))))
                t (answered r) (λ v x n q. cc q)
                (λ v x n q. record {
                  order = paid;
                  found = subst (λ y. view s y ≡ some paid) (cc (at_t, q)) (Put_here put);
                  paid = refl;
                  transaction = cc (at_t, q);
                });
        }

    cancels : (u : Uuid) → Safe (record w { storage = (cancel uuids service u w.storage).1 })
    cancels u = elim (cancel_effect uuids service laws u w.storage locks.good) [
      | inl kept ↦ record {
        locks = Locks-of_Kept view Good locks kept (λ v. refl);
        ledger = Ledger-of_still view ledger (KeepsPaid-of_Kept view kept);
      }
      | inr d ↦ record {
        locks =
            Locks-of_outside view Good locks d.put
              (not-Processing w.storage u d.was d.found d.pending) cancelled_not_processing;
        ledger =
            Ledger-of_still view ledger (
              KeepsPaid-of_Put view d.put
                (not_paid w.storage u d.found d.pending pending_not_paid));
      }
    ]

    gets : (u : Uuid) → Safe (record w { storage = (get uuids service u w.storage).1 })
    gets u =
        let kept = get_effect uuids service laws u w.storage locks.good in
        record {
          locks = Locks-of_Kept view Good locks kept (λ v. refl);
          ledger = Ledger-of_still view ledger (KeepsPaid-of_Kept view kept);
        }

    creates :
        (o : Order)
        → view w.storage o.order_uuid ≡ none
        → laws.Accepts o
        → o.status ≡ status_pending_payment
        → Safe (record w { storage = (service.order_repo.create o w.storage).1 })
    creates o fresh takes pending =
        let (_, (shown, mirrors, put)) = laws.create_lem o w.storage locks.good takes fresh in
        record {
          locks =
              Locks-of_outside view Good locks put (λ h. cc (fresh, h.found))
                (λ q.
                  pending_not_processing (sym pending ∙ sym (ap (λ x. x.status) mirrors.same) ∙ q));
          ledger = Ledger-of_still view ledger (KeepsPaid-of_Put view put (λ y q _. cc (fresh, q)));
        }

  -- Every step keeps the locks and the ledger.
  pub Step-Safe : {w x : World St} → Safe w → Step uuids service laws w x → Safe x
  Step-Safe {w} safe (begin t u m o s free run) = begins w safe t u m o s free (
      subst (BeginEffect uuids service laws u w.storage safe.locks.good) run
        (begin_effect uuids service laws u w.storage safe.locks.good m))
  Step-Safe {w} safe (refuse t u m e s free run) =
      quiet w safe t (answered (err e))
        (subst (BeginEffect uuids service laws u w.storage safe.locks.good) run
          (begin_effect uuids service laws u w.storage safe.locks.good m))
        (sym (ap held free)) (λ v o n q. cc q) (λ v tx n q. cc (free, q))
  Step-Safe {w} safe (accept t u tx m o busy) = record {
    locks = quiet-Locks w safe t (charged u tx m) (stays w safe) (sym (ap held busy));
    ledger = Ledger-of_charge view Good safe.locks safe.ledger t u tx m o busy;
  }
  Step-Safe {w} safe (decline t u m o e busy) =
      quiet w safe t (declined u e) (stays w safe) (sym (ap held busy)) (λ v x n q. cc q)
        (λ v tx n q. cc (busy, q))
  Step-Safe {w} safe (lose t u tx m o e busy) =
      let still =
        quiet w safe t (declined u e) (stays w safe) (sym (ap held busy)) (λ v x n q. cc q)
          (λ v tx n q. cc (busy, q)) in
      record { locks = still.locks; ledger = still.ledger }
  Step-Safe {w} safe (reset t u e r s at_t run) = resets w safe t u e r s at_t run
  Step-Safe {w} safe (finish t u tx m r s at_t run) = finishes w safe t u tx m r s at_t run
  Step-Safe {w} safe (leave t r at_t) =
      quiet w safe t idle (stays w safe) (sym (ap held at_t)) (λ v x n q. cc q)
        (λ v tx n q. cc (at_t, q))
  Step-Safe {w} safe (cancel_order u) = cancels w safe u
  Step-Safe {w} safe (get_order u) = gets w safe u
  Step-Safe {w} safe (create_order o fresh takes pending) = creates w safe o fresh takes pending

  -- So do any number of steps.
  pub Reach-Safe : {w x : World St} → Safe w → Reach uuids service laws w x → Safe x
  Reach-Safe safe here = safe
  Reach-Safe safe (next r st) = Step-Safe (Reach-Safe safe r) st
