-- ===== src/Order/Memory/Laws.antt =====
-- order/internal/repository/order/memory.go: the in-memory storage keeps the contract of
-- `Order.Repository`.
use mathlib.Core.List.Permᴰ
use microservices_course.Common.{
  ◌≡◌, ◌≢◌, refl, sym, ap, ◌∙◌, arith, true, false, Option, some, none, ◌==◌, string_eq, insert,
}
use microservices_course.Go.{Uuid, ok, err, sentinel}
use microservices_course.Order.Errors.{order_not_found}
use microservices_course.Order.Model.{
  Order, OrderStatus, PaymentMethod, status_pending_payment, status_payment_processing, status_paid,
  status_cancelled,
}
use microservices_course.Order.Converter.{
  order_to_record, stamp, to_model-stamp, to_model_keeps, to_model-to_record, IsConsistent,
}
use microservices_course.Order.Repository.{RepositoryLaws, Kept, Put, Mirrors}
use microservices_course.Order.Memory.{
  MemoryRepository, create, get, start_payment, finish_payment, reset_payment, cancel,
  memory_repository,
}
use microservices_course.Order.Memory.View.{
  view, IsKeyed, Put-insert, Kept-refl, shown, hidden, eq_of_status, ne_of_status,
}
use microservices_course.Order.Memory.Steps

module _ (m : MemoryRepository) (u : Uuid) (h : IsKeyed m) (o : Order)
    (there : view m u ≡ some o) where
  open shown m u h there use {row, found, shows, keyed, status_lem}

  has_status : (s : OrderStatus) → o.status ≡ s → (row.status == s) ≡ true
  has_status s e = eq_of_status row.status s (status_lem ∙ e)

  lacks_status : (s : OrderStatus) → o.status ≢ s → (row.status == s) ≡ false
  lacks_status s n = rw status_lem (ne_of_status o.status s n)

  -- Writing the record of `o` with another status and payment.
  Put_stamped :
      (s : OrderStatus) (t : Option Uuid) (p : Option PaymentMethod)
      → let r = record row { status = s; transaction_uuid = t; payment_method = p } in
        Put view IsKeyed u (stamp o s t p) m (insert u r m)
  Put_stamped s t p =
      Put-insert u _ (stamp o s t p) m h keyed
        (to_model-stamp row s t p ∙ ap (λ x. stamp x s t p) shows)

  -- Writing the record of `o` with another status.
  Put_status :
      (s : OrderStatus)
      → Put view IsKeyed u (record o { status = s }) m (insert u (record row { status = s }) m)
  Put_status s =
      Put-insert u _ (record o { status = s }) m h keyed
        (to_model-stamp row s row.transaction_uuid row.payment_method
          ∙ ground (arith, shows, to_model_keeps row))

  pub get_found : ((get u m).0 ≡ ok o) × Kept view IsKeyed m (get u m).1
  get_found = rw (Steps.get_of_some m u row found) (ap ok shows, Kept-refl m h)

  pub start_pending :
      o.status ≡ status_pending_payment
      → (o' : Order) × ((start_payment u m).0 ≡ ok (o', true))
        × (o'.order_uuid ≡ u)
        × Put view IsKeyed u
            (record o { status = status_payment_processing })
            m
            (start_payment u m).1
  start_pending e =
      let run = Steps.start_of_pending m u row found (has_status _ e) in
      rw run (
        _,
        refl,
        (to_model_keeps (record row { status = status_payment_processing })).0 ∙ keyed,
        Put_status _,
      )

  pub start_other :
      o.status ≢ status_pending_payment
      → ((start_payment u m).0 ≡ ok (o, false)) × Kept view IsKeyed m (start_payment u m).1
  start_other n =
      rw (Steps.start_of_other m u row found (lacks_status _ n))
        (ap (λ x. ok (x, false)) shows, Kept-refl m h)

  module _ (t : Uuid) (p : PaymentMethod) where
    pub finish_processing :
        o.status ≡ status_payment_processing
        → (o' : Order) × ((finish_payment u t p m).0 ≡ ok (o', true))
          × Put view IsKeyed u (stamp o status_paid (some t) (some p)) m (finish_payment u t p m).1
    finish_processing e =
        rw (Steps.finish_of_processing m u row found t p (has_status _ e))
          (_, refl, Put_stamped _ _ _)

    pub finish_other :
        o.status ≢ status_payment_processing
        → ((finish_payment u t p m).0 ≡ ok (o, false))
          × Kept view IsKeyed m (finish_payment u t p m).1
    finish_other n =
        rw (Steps.finish_of_other m u row found t p (lacks_status _ n))
          (ap (λ x. ok (x, false)) shows, Kept-refl m h)

  pub reset_processing :
      o.status ≡ status_payment_processing
      → ((reset_payment u m).0 ≡ ok tt)
        × Put view IsKeyed u (record o { status = status_pending_payment }) m (reset_payment u m).1
  reset_processing e =
      rw (Steps.reset_of_processing m u row found (has_status _ e)) (refl, Put_status _)

  pub reset_other :
      o.status ≢ status_payment_processing
      → ((reset_payment u m).0 ≡ ok tt) × Kept view IsKeyed m (reset_payment u m).1
  reset_other n = rw (Steps.reset_of_other m u row found (lacks_status _ n)) (refl, Kept-refl m h)

  pub cancel_pending :
      o.status ≡ status_pending_payment
      → (o' : Order) × ((cancel u m).0 ≡ ok (o', true))
        × Put view IsKeyed u (record o { status = status_cancelled }) m (cancel u m).1
  cancel_pending e =
      rw (Steps.cancel_of_pending m u row found (has_status _ e)) (_, refl, Put_status _)

  pub cancel_other :
      o.status ≢ status_pending_payment
      → ((cancel u m).0 ≡ ok (o, false)) × Kept view IsKeyed m (cancel u m).1
  cancel_other n =
      rw (Steps.cancel_of_other m u row found (lacks_status _ n))
        (ap (λ x. ok (x, false)) shows, Kept-refl m h)

pub create_lem :
    (o : Order) (m : MemoryRepository)
    → IsKeyed m
    → IsConsistent o
    → ((create o m).0 ≡ ok tt) × Put view IsKeyed o.order_uuid o m (create o m).1
unfolding create order_to_record
create_lem o m h c =
    (refl, Put-insert o.order_uuid (order_to_record o) o m h refl (to_model-to_record o ∙ c))

-- What the in-memory storage shows is the order itself.
pub Mirrors-refl : (o : Order) → Mirrors o o
Mirrors-refl o = record { rearranged = Permᴰ.refl o.items; same = refl }

pub view_key :
    (m : MemoryRepository) (u : Uuid) {o : Order} → IsKeyed m → view m u ≡ some o → o.order_uuid ≡ u
view_key m u h e =
    let s = shown m u h e in
    ap (λ x. x.order_uuid) (sym s.shows) ∙ (to_model_keeps s.row).0 ∙ s.keyed

module _ (m : MemoryRepository) (u : Uuid) (h : IsKeyed m) (e : view m u ≡ none) where
  pub get_missing : ((get u m).0 ≡ err (sentinel order_not_found)) × Kept view IsKeyed m (get u m).1
  get_missing = rw (Steps.get_of_none m u (hidden m u e)) (refl, Kept-refl m h)

  pub start_missing :
      ((start_payment u m).0 ≡ err (sentinel order_not_found))
      × Kept view IsKeyed m (start_payment u m).1
  start_missing = rw (Steps.start_of_none m u (hidden m u e)) (refl, Kept-refl m h)

  pub finish_missing :
      (t : Uuid) (p : PaymentMethod)
      → ((finish_payment u t p m).0 ≡ err (sentinel order_not_found))
        × Kept view IsKeyed m (finish_payment u t p m).1
  finish_missing t p = rw (Steps.finish_of_none m u (hidden m u e) t p) (refl, Kept-refl m h)

  pub reset_missing :
      ((reset_payment u m).0 ≡ err (sentinel order_not_found))
      × Kept view IsKeyed m (reset_payment u m).1
  reset_missing = rw (Steps.reset_of_none m u (hidden m u e)) (refl, Kept-refl m h)

  pub cancel_missing :
      ((cancel u m).0 ≡ err (sentinel order_not_found)) × Kept view IsKeyed m (cancel u m).1
  cancel_missing = rw (Steps.cancel_of_none m u (hidden m u e)) (refl, Kept-refl m h)

-- The contract of the storage, for the in-memory implementation.
abbrev pub memory_laws : RepositoryLaws memory_repository
memory_laws = record {
  view = view;
  Good = IsKeyed;
  Accepts = IsConsistent;
  view_key = view_key;
  create_lem =
      λ o m h c _. let (answer, put) = create_lem o m h c in (answer, (o, Mirrors-refl o, put));
  get_found = λ u m o h e. get_found m u h o e;
  get_missing = λ u m h e. get_missing m u h e;
  start_pending = λ u m o h e. start_pending m u h o e;
  start_other = λ u m o h e. start_other m u h o e;
  start_missing = λ u m h e. start_missing m u h e;
  finish_processing = λ u t p m o h e. finish_processing m u h o e t p;
  finish_other = λ u t p m o h e. finish_other m u h o e t p;
  finish_missing = λ u t p m h e. finish_missing m u h e t p;
  reset_processing = λ u m o h e. reset_processing m u h o e;
  reset_other = λ u m o h e. reset_other m u h o e;
  reset_missing = λ u m h e. reset_missing m u h e;
  cancel_pending = λ u m o h e. cancel_pending m u h o e;
  cancel_other = λ u m o h e. cancel_other m u h o e;
  cancel_missing = λ u m h e. cancel_missing m u h e;
}
