-- ===== src/Order/Threads/Locks.antt =====
-- order/internal/service/order: the status PAYMENT_PROCESSING is a lock on the order. A thread that
-- is between StartPayment and the end of its payment holds it.
use mathlib.Core.Option.{some-injective}
use microservices_course.Common.{
  nat-cases, ne_of_nat_eq, ℕ, ◌≡◌, ◌≢◌, refl, sym, ap, ◌∙◌, inl, inr, ◌⊎◌, false, Option, some,
  none, ◌==◌, nat_eq, string_eq, nat_beq_iff, subst,
}
use microservices_course.Go.{Uuid}
use microservices_course.Order.Model.{Order, OrderStatus, status_payment_processing}
use microservices_course.Order.Repository.{Kept, Put}
use microservices_course.Order.Repository.Views.{Put_here, Put_elsewhere}
use microservices_course.Order.Threads.{Phase, idle, charging, declined, charged, answered, at}

-- The order that a thread holds.
abbrev pub held : Phase → Option Uuid
held idle = none
held (charging u o m) = some u
held (declined u e) = some u
held (charged u tx m) = some u
held (answered r) = none

pub at_same : (f : ℕ → Phase) (t : ℕ) (p : Phase) → at f t p t ≡ p
at_same f t p = rw ((nat_beq_iff t t).1 refl)

pub at_other : (f : ℕ → Phase) (t v : ℕ) (p : Phase) → (t == v) ≡ false → at f t p v ≡ f v
at_other f t v p n = rw n

-- A thread either is the one that moves or stands where it stood.
pub moves :
    (f : ℕ → Phase) (t : ℕ) (p : Phase) (v : ℕ)
    → ((t ≡ v) × (at f t p v ≡ p)) ⊎ ((t ≢ v) × (at f t p v ≡ f v))
moves f t p v = elim (nat-cases t v) [
  | inl e ↦ inl (e, rw (← e) (at_same f t p))
  | inr n ↦ inr (ne_of_nat_eq t v n, at_other f t v p n)
]

module _ {St : Type 0} (view : St → Uuid → Option Order) (Good : St → Type 0) where
  -- The order under `u` has the status `x`.
  pub record HasStatus (s : St) (u : Uuid) (x : OrderStatus) : Type 0 where
    pub order : Order
    pub found : view s u ≡ some order
    pub status_lem : order.status ≡ x

  abbrev pub Processing : St → Uuid → Type 0
  Processing s u = HasStatus s u status_payment_processing

  -- Who holds an order finds it in processing; nobody else holds it; and an order in processing is
  -- held by somebody.
  pub record Locks (s : St) (phase : ℕ → Phase) : Type 0 where
    pub good : Good s
    pub busy : (t : ℕ) (u : Uuid) → held (phase t) ≡ some u → Processing s u
    pub single : (t v : ℕ) (u : Uuid) → held (phase t) ≡ some u → held (phase v) ≡ some u → t ≡ v
    pub owned : (u : Uuid) → Processing s u → (t : ℕ) × (held (phase t) ≡ some u)

  HasStatus-moves :
      {s s' : St} {u : Uuid} {x : OrderStatus}
      → view s' u ≡ view s u
      → HasStatus s u x
      → HasStatus s' u x
  HasStatus-moves e h = record { order = h.order; found = e ∙ h.found; status_lem = h.status_lem }

  -- An order has one status.
  pub HasStatus-unique :
      {s : St} {u : Uuid} {x y : OrderStatus} → HasStatus s u x → HasStatus s u y → x ≡ y
  HasStatus-unique {x = x} h k =
      sym h.status_lem
      ∙ ap (λ o. o.status) (some-injective _ _ (sym h.found ∙ k.found))
      ∙ k.status_lem

  module _ {s s' : St} {phase : ℕ → Phase} (locks : Locks s phase) where
    -- A step that keeps the storage and what every thread holds.
    pub Locks-of_Kept :
        {phase' : ℕ → Phase}
        → Kept view Good s s'
        → ((v : ℕ) → held (phase' v) ≡ held (phase v))
        → Locks s' phase'
    Locks-of_Kept k same = record {
      good = k.good;
      busy = λ v w e. HasStatus-moves (k.shows w) (locks.busy v w (sym (same v) ∙ e));
      single = λ v x w e q. locks.single v x w (sym (same v) ∙ e) (sym (same x) ∙ q);
      owned = λ w h.
          let (v, e) = locks.owned w (HasStatus-moves (sym (k.shows w)) h) in (v, same v ∙ e);
    }

    module _ {u : Uuid} {o : Order} (put : Put view Good u o s s') where
      put_status : HasStatus s' u o.status
      put_status = record { order = o; found = Put_here put; status_lem = refl }

      -- A status under another UUID, before and after.
      HasStatus-later :
          {w : Uuid} {x : OrderStatus} → (u == w) ≡ false → HasStatus s w x → HasStatus s' w x
      HasStatus-later n h = HasStatus-moves (Put_elsewhere put _ n) h

      HasStatus-before :
          {w : Uuid} {x : OrderStatus} → (u == w) ≡ false → HasStatus s' w x → HasStatus s w x
      HasStatus-before n h = HasStatus-moves (sym (Put_elsewhere put _ n)) h

      -- A write by nobody, to an order that is not in processing and is not put there.
      pub Locks-of_outside :
          (Processing s u → ⊥) → o.status ≢ status_payment_processing → Locks s' phase
      Locks-of_outside was is = record {
        good = put.good;
        busy = λ v w e. elim (nat-cases u w) [
          | inl q ↦ absurd (was (subst (λ x. Processing s x) (sym q) (locks.busy v w e)))
          | inr n ↦ HasStatus-later n (locks.busy v w e)
        ];
        single = locks.single;
        owned = λ w h. elim (nat-cases u w) [
          | inl q ↦
              absurd (is (HasStatus-unique put_status (subst (λ x. Processing s' x) (sym q) h)))
          | inr n ↦ locks.owned w (HasStatus-before n h)
        ];
      }

      module _ (t : ℕ) (p : Phase) where
        -- A thread that holds nothing takes an order that was not in processing.
        module _ (free : held (phase t) ≡ none) (takes : held p ≡ some u) (was : Processing s u → ⊥)
            (is : o.status ≡ status_payment_processing) where
          no_other : (v : ℕ) → held (phase v) ≡ some u → ⊥
          no_other v e = was (locks.busy v u e)

          -- A thread of the new world holds what it held, or is the one that takes `u`.
          holds :
              (v : ℕ) (w : Uuid)
              → held (at phase t p v) ≡ some w
              → ((t ≡ v) × (u ≡ w)) ⊎ (held (phase v) ≡ some w)
          holds v w e = elim (moves phase t p v) [
            | inl (q, m) ↦ inl (q, some-injective u w (sym takes ∙ sym (ap held m) ∙ e))
            | inr (n, m) ↦ inr (sym (ap held m) ∙ e)
          ]

          taken_single :
              (v x : ℕ) (w : Uuid)
              → held (at phase t p v) ≡ some w
              → held (at phase t p x) ≡ some w
              → v ≡ x
          taken_single v x w e q = elim (holds v w e) [
            | inl (tv, uw) ↦ elim (holds x w q) [
              | inl (tx, _) ↦ sym tv ∙ tx
              | inr hx ↦ absurd (no_other x (hx ∙ ap some (sym uw)))
            ]
            | inr hv ↦ elim (holds x w q) [
              | inl (_, uw) ↦ absurd (no_other v (hv ∙ ap some (sym uw)))
              | inr hx ↦ locks.single v x w hv hx
            ]
          ]

          pub Locks-of_taking : Locks s' (at phase t p)
          Locks-of_taking = record {
            good = put.good;
            busy = λ v w e. elim (holds v w e) [
              | inl (_, uw) ↦
                  subst (λ x. Processing s' x) uw
                    (record { order = o; found = Put_here put; status_lem = is })
              | inr h ↦ elim (nat-cases u w) [
                | inl uw ↦ absurd (no_other v (h ∙ ap some (sym uw)))
                | inr n ↦ HasStatus-later n (locks.busy v w h)
              ]
            ];
            single = taken_single;
            owned = λ w h. elim (nat-cases u w) [
              | inl uw ↦ (t, ap held (at_same phase t p) ∙ takes ∙ ap some uw)
              | inr n ↦
                  let (v, e) = locks.owned w (HasStatus-before n h) in
                  (
                    v,
                    elim (moves phase t p v) [
                      | inl (tv, _) ↦ cc (ap (λ y. held (phase y)) tv, free, e)
                      | inr (_, m) ↦ ap held m ∙ e
                    ],
                  )
            ];
          }

        -- A thread gives its order up, out of processing.
        module _ (holder : held (phase t) ≡ some u) (drops : held p ≡ none)
            (is : o.status ≢ status_payment_processing) where
          still :
              (v : ℕ) (w : Uuid)
              → held (at phase t p v) ≡ some w
              → (t ≢ v) × (held (phase v) ≡ some w)
          still v w e = elim (moves phase t p v) [
            | inl (_, m) ↦ cc (ap held m, drops, e)
            | inr (n, m) ↦ (n, sym (ap held m) ∙ e)
          ]

          pub Locks-of_giving : Locks s' (at phase t p)
          Locks-of_giving = record {
            good = put.good;
            busy = λ v w e.
                let (n, h) = still v w e in
                elim (nat-cases u w) [
                  | inl uw ↦ absurd (n (locks.single t v w (holder ∙ ap some uw) h))
                  | inr ne ↦ HasStatus-later ne (locks.busy v w h)
                ];
            single = λ v x w e q. locks.single v x w (still v w e).1 (still x w q).1;
            owned = λ w h. elim (nat-cases u w) [
              | inl uw ↦
                  absurd
                    (is (HasStatus-unique put_status (subst (λ x. Processing s' x) (sym uw) h)))
              | inr ne ↦
                  let (v, e) = locks.owned w (HasStatus-before ne h) in
                  (
                    v,
                    elim (moves phase t p v) [
                      | inl (tv, _) ↦ absurd (
                          ne_of_nat_eq u w ne
                            (some-injective u w (sym holder ∙ ap (λ y. held (phase y)) tv ∙ e)))
                      | inr (_, m) ↦ ap held m ∙ e
                    ],
                  )
            ];
          }
