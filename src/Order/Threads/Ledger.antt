-- ===== src/Order/Threads/Ledger.antt =====
-- order/internal/service/order: the charges that the payment client has made, against the orders. A
-- reported charge is not forgotten, and no order has two of them.
use microservices_course.Common.{
  ℕ, ◌≡◌, ◌≢◌, sym, ap, ◌∙◌, inl, inr, ◌⊎◌, Option, some, List, [], ◌∷◌, nat_eq, string_eq, subst,
  nat-cases,
}
use microservices_course.Go.{Uuid}
use microservices_course.Order.Model.{Order, status_paid}
use microservices_course.Order.Model.Statuses.{paid_not_processing}
use microservices_course.Order.Repository.{Kept, Put}
use microservices_course.Order.Repository.Views.{Put_elsewhere}
use microservices_course.Order.Threads.{Phase, charging, charged, at, PaymentMethod}
use microservices_course.Order.Threads.Locks.{Locks, HasStatus-unique, held, moves, at_same}

-- The charge of the transaction `tx` for the order `u` is in the list.
pub data Charged (u tx : Uuid) : List (Uuid × Uuid) → Type 0 where
  now : {c : Uuid × Uuid} {cs : List (Uuid × Uuid)} → c ≡ (u, tx) → Charged u tx (c ∷ cs)
  before : {c : Uuid × Uuid} {cs : List (Uuid × Uuid)} → Charged u tx cs → Charged u tx (c ∷ cs)

-- No order has more than one charge in the list.
abbrev pub ChargedOnce : List (Uuid × Uuid) → Type 0
ChargedOnce [] = Unit
ChargedOnce ((u, tx) ∷ cs) = ((tx' : Uuid) → Charged u tx' cs → ⊥) × ChargedOnce cs

module _ {St : Type 0} (view : St → Uuid → Option Order) where
  -- The order is paid by that transaction.
  pub record Settled (s : St) (u tx : Uuid) : Type 0 where
    pub order : Order
    pub found : view s u ≡ some order
    pub paid : order.status ≡ status_paid
    pub transaction : order.transaction_uuid ≡ some tx

  -- A thread is about to write the charge into the order.
  pub record InFlight (phase : ℕ → Phase) (u tx : Uuid) : Type 0 where
    pub thread : ℕ
    pub method : PaymentMethod
    pub phase_lem : phase thread ≡ charged u tx method

  pub record Ledger (s : St) (phase : ℕ → Phase) (charges : List (Uuid × Uuid)) : Type 0 where
    pub key :
        (t : ℕ) (u : Uuid) (o : Order) (m : PaymentMethod)
        → phase t ≡ charging u o m
        → o.order_uuid ≡ u
    pub accounted : (u tx : Uuid) → Charged u tx charges → InFlight phase u tx ⊎ Settled s u tx
    pub once : ChargedOnce charges

  -- What is paid stays paid.
  abbrev pub KeepsPaid : St → St → Type 0
  KeepsPaid s s' = (u tx : Uuid) → Settled s u tx → Settled s' u tx

  KeepsPaid_of_view :
      {s s' : St} {u tx : Uuid} → view s' u ≡ view s u → Settled s u tx → Settled s' u tx
  KeepsPaid_of_view e h = record {
    order = h.order;
    found = e ∙ h.found;
    paid = h.paid;
    transaction = h.transaction;
  }

  module _ {Good : St → Type 0} {s s' : St} where
    pub KeepsPaid-of_Kept : Kept view Good s s' → KeepsPaid s s'
    KeepsPaid-of_Kept k u tx h = KeepsPaid_of_view (k.shows u) h

    pub KeepsPaid-of_Put :
        {u : Uuid} {o : Order}
        → Put view Good u o s s'
        → ((x : Order) → view s u ≡ some x → x.status ≢ status_paid)
        → KeepsPaid s s'
    KeepsPaid-of_Put {u} put unpaid v tx h = elim (nat-cases u v) [
      | inl e ↦ absurd (unpaid h.order (ap (view s) e ∙ h.found) h.paid)
      | inr n ↦ KeepsPaid_of_view (Put_elsewhere put v n) h
    ]

  -- A step that charges nothing: its thread was not about to write a charge, or has written it.
  module _ {s s' : St} {phase : ℕ → Phase} {charges : List (Uuid × Uuid)}
      (ledger : Ledger s phase charges) (kept : KeepsPaid s s') where
    -- No thread moves.
    pub Ledger-of_still : Ledger s' phase charges
    Ledger-of_still = record {
      key = ledger.key;
      accounted =
          λ u tx c. elim (ledger.accounted u tx c) [ inl f ↦ inl f | inr h ↦ inr (kept u tx h) ];
      once = ledger.once;
    }

    module _ (t : ℕ) (p : Phase)
        (key : (u : Uuid) (o : Order) (m : PaymentMethod) → p ≡ charging u o m → o.order_uuid ≡ u)
        (written : (u tx : Uuid) (m : PaymentMethod)
          → phase t ≡ charged u tx m
          → Settled s' u tx) where
      moved_key :
          (v : ℕ) (u : Uuid) (o : Order) (m : PaymentMethod)
          → at phase t p v ≡ charging u o m
          → o.order_uuid ≡ u
      moved_key v u o m e = elim (moves phase t p v) [
        | inl (_, q) ↦ key u o m (sym q ∙ e)
        | inr (_, q) ↦ ledger.key v u o m (sym q ∙ e)
      ]

      moved_flight :
          (u tx : Uuid) → InFlight phase u tx → InFlight (at phase t p) u tx ⊎ Settled s' u tx
      moved_flight u tx f = elim (moves phase t p f.thread) [
        | inl (e, _) ↦ inr (written u tx f.method (ap phase e ∙ f.phase_lem))
        | inr (_, q) ↦
            inl (record { thread = f.thread; method = f.method; phase_lem = q ∙ f.phase_lem })
      ]

      pub Ledger-of_moved : Ledger s' (at phase t p) charges
      Ledger-of_moved = record {
        key = moved_key;
        accounted = λ u tx c. elim (ledger.accounted u tx c) [
          | inl f ↦ moved_flight u tx f
          | inr h ↦ inr (kept u tx h)
        ];
        once = ledger.once;
      }

  -- A successful charge: the order is held by this thread alone, so it was not charged before.
  module _ (Good : St → Type 0) {s : St} {phase : ℕ → Phase} {charges : List (Uuid × Uuid)}
      (locks : Locks view Good s phase) (ledger : Ledger s phase charges) (t : ℕ) (u tx : Uuid)
      (m : PaymentMethod) (o : Order) (busy : phase t ≡ charging u o m) where
    uncharged : (tx' : Uuid) → Charged u tx' charges → ⊥
    uncharged tx' c = elim (ledger.accounted u tx' c) [
      | inl f ↦
          let same = locks.single t f.thread u (ap held busy) (ap held f.phase_lem) in
          cc (ap phase same, busy, f.phase_lem)
      | inr h ↦
          let b = locks.busy t u (ap held busy) in
          paid_not_processing (
            sym (
              HasStatus-unique view Good {u = u} b
                (record { order = h.order; found = h.found; status_lem = h.paid })))
    ]

    charge_accounted :
        (v x : Uuid)
        → Charged v x ((o.order_uuid, tx) ∷ charges)
        → InFlight (at phase t (charged u tx m)) v x ⊎ Settled s v x
    charge_accounted v x (now e) =
        let same : u ≡ v = sym (ledger.key t u o m busy) ∙ ap (λ c. c.0) e in
        inl (record {
          thread = t;
          method = m;
          phase_lem =
              at_same phase t (charged u tx m)
              ∙ cc (same, ap {A = Uuid × Uuid} {B = Uuid} (λ c. c.1) e);
        })
    charge_accounted v x (before c) = elim (ledger.accounted v x c) [
      | inr h ↦ inr h
      | inl f ↦ elim (moves phase t (charged u tx m) f.thread) [
        | inl (e, _) ↦ cc (ap phase e, busy, f.phase_lem)
        | inr (_, q) ↦
            inl (record { thread = f.thread; method = f.method; phase_lem = q ∙ f.phase_lem })
      ]
    ]

    pub Ledger-of_charge : Ledger s (at phase t (charged u tx m)) ((o.order_uuid, tx) ∷ charges)
    Ledger-of_charge = record {
      key = λ v w x n e. elim (moves phase t (charged u tx m) v) [
        | inl (_, q) ↦ cc (q, e)
        | inr (_, q) ↦ ledger.key v w x n (sym q ∙ e)
      ];
      accounted = charge_accounted;
      once = (
        λ tx' c. uncharged tx' (subst (λ v. Charged v tx' charges) (ledger.key t u o m busy) c),
        ledger.once,
      );
    }
