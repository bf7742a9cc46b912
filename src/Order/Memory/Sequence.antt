-- ===== src/Order/Memory/Sequence.antt =====
-- order/internal/repository/order/memory.go: the answers to any sequence of calls.
use microservices_course.Common.{◌≡◌, refl, List}
use microservices_course.Go.{Uuid}
use microservices_course.Order.Repository.Machine.{Call, calls}
use microservices_course.Order.Repository.Table.{replies, calls-replies}
use microservices_course.Order.Memory.{MemoryRepository, memory_repository}
use microservices_course.Order.Memory.View.{view, IsKeyed}
use microservices_course.Order.Memory.Laws.{memory_laws}

-- Where each record of the storage in memory stands under its order's UUID: every sequence of Get,
-- StartPayment, FinishPayment, ResetPayment and Cancel is answered as the orders that Get shows at
-- the start call for, each going on its own through its statuses, leaving aside the order that
-- comes with a change.
pub calls-replies_in_memory :
    (cs : List (Call × Uuid)) (m : MemoryRepository)
    → IsKeyed m
    → calls memory_repository cs m ≡ replies cs (view m)
calls-replies_in_memory cs m keyed = calls-replies memory_laws cs m (view m) keyed (λ v. refl)
