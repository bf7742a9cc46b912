-- ===== src/Tests/Requests.antt =====
-- Concurrent requests: an order is created and one thread has charged it; or its payment is stored and
-- the reply lost, and another thread charges it again.
use microservices_course.Common.{ℕ, ◌+◌, ◌≤◌, ◌≡◌, refl, [], ◌∷◌, some, ◌⊎◌, lookup, insert, arith}
use microservices_course.Common.Int64.{add}
use microservices_course.Go.{ok, err, foreign}
use microservices_course.Order.Errors.{Error}
use microservices_course.Order.Model.{Order, status_payment_processing}
use microservices_course.Order.Converter
use microservices_course.Order.Memory
use microservices_course.Order.Memory.{MemoryRepository}
use microservices_course.Order.Memory.View.{view, IsKeyed}
use microservices_course.Order.Memory.Laws.{memory_laws}
use microservices_course.Order.Service.Pay.{
  begin_payment, is_valid_payment_method, complete, roll_back,
}
use microservices_course.Order.Threads.{
  declined, answered, lose, reset, idle, charging, charged, at, World, create_order, begin, accept,
  Reach, here, next,
}
use microservices_course.Order.Threads.Locks.{Processing, held}
use microservices_course.Order.Threads.Ledger.{now, InFlight, Settled}
use microservices_course.Order.Threads.Payments.{count}
use microservices_course.Order.Threads.Guarantees.{
  IsStart, Reach-payments, CanRelease, Reach-charges, Reach-exclusive, Reach-owned, Reach-complete,
  Reach-releases,
}
use microservices_course.Tests.Fixtures.{
  uuids, service, pending_order, pending_order-IsConsistent, empty-IsKeyed, stocked,
}

abbrev quiet : World MemoryRepository
quiet = record { storage = []; phase = λ t. idle; payments = []; charges = []; lost = [] }

quiet-IsStart : IsStart uuids service memory_laws quiet
unfolding lookup
quiet-IsStart = record {
  good = empty-IsKeyed;
  resting = λ t. refl;
  unlocked = λ u h. ground arith;
  unpaid = refl;
  uncharged = refl;
  none_lost = refl;
}

abbrev created : World MemoryRepository
created = record quiet { storage = stocked }

abbrev processing : Order
processing = record pending_order { status = status_payment_processing }

abbrev begun : World MemoryRepository
begun = record {
  storage = (begin_payment uuids service 5 "CARD" stocked).1;
  phase = at (λ t. idle) 0 (charging 5 processing "CARD");
  payments = [];
  charges = [];
  lost = [];
}

abbrev taken : World MemoryRepository
taken = record begun {
  phase = at begun.phase 0 (charged 5 77 "CARD");
  payments = (5, 77) ∷ [];
  charges = (5, 77) ∷ [];
}

begins : begin_payment uuids service 5 "CARD" stocked ≡ (ok processing, begun.storage)
unfolding begin_payment is_valid_payment_method Memory.start_payment Memory.create lookup insert
    Converter.order_to_model Converter.order_to_record Converter.order_items_to_model
    Converter.order_items_to_record Converter.rebuild Converter.add_item add
begins = refl

run : Reach uuids service memory_laws quiet taken
unfolding lookup
run =
    next
      (next (next here (create_order pending_order refl pending_order-IsConsistent refl))
        (begin 0 5 "CARD" processing begun.storage refl begins))
      (accept 0 5 77 "CARD" processing refl)

-- The reply of a stored payment is lost, the order goes back to pending, and another thread pays it.
abbrev no_reply : Error
no_reply = foreign "no reply"

abbrev reopened : MemoryRepository
reopened = (roll_back uuids service 5 no_reply begun.storage).1

abbrev begun_again : MemoryRepository
begun_again = (begin_payment uuids service 5 "CARD" reopened).1

abbrev lost_once : World MemoryRepository
lost_once = record {
  storage = begun.storage;
  phase = at begun.phase 0 (declined 5 no_reply);
  payments = (5, 76) ∷ [];
  charges = [];
  lost = (5, 76) ∷ [];
}

abbrev given_up : World MemoryRepository
given_up = record lost_once {
  storage = reopened;
  phase = at lost_once.phase 0 (answered (err no_reply));
}

abbrev taken_again : World MemoryRepository
taken_again = record {
  storage = begun_again;
  phase = at (at given_up.phase 1 (charging 5 processing "CARD")) 1 (charged 5 77 "CARD");
  payments = (5, 77) ∷ (5, 76) ∷ [];
  charges = (5, 77) ∷ [];
  lost = (5, 76) ∷ [];
}

reopens : roll_back uuids service 5 no_reply begun.storage ≡ (err no_reply, reopened)
unfolding begin_payment roll_back is_valid_payment_method Memory.start_payment Memory.create
    Memory.reset_payment lookup insert Converter.order_to_model Converter.order_to_record
    Converter.order_items_to_model Converter.order_items_to_record Converter.rebuild
    Converter.add_item add
reopens = refl

begins_again : begin_payment uuids service 5 "CARD" reopened ≡ (ok processing, begun_again)
unfolding begin_payment roll_back is_valid_payment_method Memory.start_payment Memory.create
    Memory.reset_payment lookup insert Converter.order_to_model Converter.order_to_record
    Converter.order_items_to_model Converter.order_items_to_record Converter.rebuild
    Converter.add_item add
begins_again = refl

run_again : Reach uuids service memory_laws quiet taken_again
unfolding lookup
run_again =
    let created_run = next here (create_order pending_order refl pending_order-IsConsistent refl) in
    let begun_run = next created_run (begin 0 5 "CARD" processing begun.storage refl begins) in
    let lost_run = next begun_run (lose 0 5 76 "CARD" processing no_reply refl) in
    let reset_run = next lost_run (reset 0 5 no_reply (err no_reply) reopened refl reopens) in
    let again = next reset_run (begin 1 5 "CARD" processing begun_again refl begins_again) in
    next again (accept 1 5 77 "CARD" processing refl)

Reach-payments_example : count 5 taken_again.payments ≤ 1 + count 5 taken_again.lost
Reach-payments_example =
    Reach-payments uuids service memory_laws quiet taken_again quiet-IsStart run_again 5

Reach-charges_example : InFlight view taken.phase 5 77 ⊎ Settled view taken.storage 5 77
Reach-charges_example =
    Reach-charges uuids service memory_laws quiet taken quiet-IsStart run 5 77 (now refl)

Reach-exclusive_example : (◌≡◌ {A = ℕ} 0 0) × Processing view IsKeyed taken.storage 5
Reach-exclusive_example =
    Reach-exclusive uuids service memory_laws quiet taken quiet-IsStart run 0 0 5 refl refl

locked : Processing view IsKeyed taken.storage 5
unfolding begin_payment is_valid_payment_method Memory.start_payment Memory.create lookup insert
    Converter.order_to_record Converter.order_to_model Converter.order_items_to_model
    Converter.order_items_to_record Converter.rebuild Converter.add_item add
locked = record { order = processing; found = refl; status_lem = refl }

Reach-owned_example : (t : ℕ) × (held (taken.phase t) ≡ some 5)
Reach-owned_example = Reach-owned uuids service memory_laws quiet taken quiet-IsStart run 5 locked

Reach-complete_example :
    let run = complete uuids service 5 77 "CARD" taken.storage in
    (run.0 ≡ ok 77) × Settled view run.1 5 77
Reach-complete_example =
    Reach-complete uuids service memory_laws quiet taken quiet-IsStart run 0 5 77 "CARD" refl

Reach-releases_example : CanRelease uuids service memory_laws quiet taken quiet-IsStart run 0 5
Reach-releases_example =
    Reach-releases uuids service memory_laws quiet taken quiet-IsStart run 0 5 refl
