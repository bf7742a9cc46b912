-- ===== src/Order/Memory/Lifecycle.antt =====
-- order/internal/repository/order/memory.go: the life of one order in the in-memory storage.
use microservices_course.Common.{◌≡◌, refl, sym, false, some, string_eq, nat_eq}
use microservices_course.Go.{Uuid, ok}
use microservices_course.Order.Model.{
  Order, PaymentMethod, status_pending_payment, status_payment_processing, status_paid,
}
use microservices_course.Order.Model.Statuses.{pending_not_paid, paid_not_processing}
use microservices_course.Order.Converter.{IsConsistent}
use microservices_course.Order.Repository.Views.{Put_here}
use microservices_course.Order.Memory.{
  MemoryRepository, create, get, start_payment, finish_payment, cancel,
}
use microservices_course.Order.Memory.View.{view, IsKeyed}
use microservices_course.Order.Memory.Laws.{
  create_lem, get_found, start_pending, start_other, finish_processing, finish_other, cancel_other,
}

-- The storage after an order was stored, taken into payment and paid.
module _ (o : Order) (t : Uuid) (p : PaymentMethod) (m : MemoryRepository) where
  abbrev pub created : MemoryRepository
  created = (create o m).1

  abbrev pub started : MemoryRepository
  started = (start_payment o.order_uuid created).1

  abbrev pub finished : MemoryRepository
  finished = (finish_payment o.order_uuid t p started).1

  abbrev pub paid_order : Order
  paid_order = record o { status = status_paid; transaction_uuid = some t; payment_method = some p }

  module _ (keyed : IsKeyed m) (consistent : IsConsistent o)
      (pending : o.status ≡ status_pending_payment) where
    created_shows : IsKeyed created × (view created o.order_uuid ≡ some o)
    created_shows = let put = (create_lem o m keyed consistent).1 in (put.good, Put_here put)

    started_shows :
        IsKeyed started
        × (view started o.order_uuid ≡ some (record o { status = status_payment_processing }))
    started_shows =
        let (good, shows) = created_shows in
        let (_, _, _, put) = start_pending created o.order_uuid good o shows pending in
        (put.good, Put_here put)

    finished_shows : IsKeyed finished × (view finished o.order_uuid ≡ some paid_order)
    finished_shows =
        let (good, shows) = started_shows in
        let (_, _, put) = finish_processing started o.order_uuid good _ shows t p refl in
        (put.good, Put_here put)

    -- In the storage in memory with each record under its key: a pending order that its items
    -- determine, once stored, taken into payment and paid, is read back as it was stored, with the
    -- transaction and the method of its payment.
    pub get-finish_payment : (get o.order_uuid finished).0 ≡ ok paid_order
    get-finish_payment =
        let (good, shows) = finished_shows in
        (get_found finished o.order_uuid good paid_order shows).0

    -- In the storage in memory with each record under its key, for a pending order that its items
    -- determine, once stored, taken into payment and paid: another payment does not start or
    -- finish and a cancellation is refused, each with the paid order in hand and the flag that
    -- nothing was updated.
    pub finish_payment-final :
        (t' : Uuid) (p' : PaymentMethod)
        → ((start_payment o.order_uuid finished).0 ≡ ok (paid_order, false))
          × ((finish_payment o.order_uuid t' p' finished).0 ≡ ok (paid_order, false))
          × ((cancel o.order_uuid finished).0 ≡ ok (paid_order, false))
    finish_payment-final t' p' =
        let (good, shows) = finished_shows in
        (
          (start_other finished o.order_uuid good paid_order shows
              (λ e. pending_not_paid (sym e))).0,
          (finish_other finished o.order_uuid good paid_order shows t' p' paid_not_processing).0,
          (cancel_other finished o.order_uuid good paid_order shows
              (λ e. pending_not_paid (sym e))).0,
        )
