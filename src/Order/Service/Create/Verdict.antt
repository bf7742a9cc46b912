-- ===== src/Order/Service/Create/Verdict.antt =====
-- order/internal/service/order/create.go: what `Create` promises, as a relation between the request,
-- the inventory's reply and the fresh UUID on one side, and the answer and the stored order on the
-- other.
use microservices_course.Common.{◌≡◌, Option, some, none, List, All, ◌%◌, ◌^◌}
use microservices_course.Go.{Uuid, Time, Result, ok, err, sentinel}
use microservices_course.Order.Errors.{
  OrderError, Error, invalid_uuid, out_of_stock, part_not_found,
}
use microservices_course.Order.Model.{CreateOrderInput, CreateOrderResult, Order, OrderItem, Part}
use microservices_course.Order.Repository.{Kept, Put, Mirrors}
use microservices_course.Order.Service.Create.{requested_parts, new_order}
use microservices_course.Order.Service.Create.Items.{
  Priced, Lacks, SoldOut, InStock, offered, sum_prices,
}
use microservices_course.Order.Service.Create.Steps.{HasNil, IsWellFormed}

abbrev pub Answer : Type 0
Answer = Result OrderError CreateOrderResult × Option Order

module _ (now : Time) (input : CreateOrderInput) where
  pub data Verdict (reply : Result OrderError (List Part)) (fresh : Result OrderError Uuid)
      : Answer → Type 0 where
    has_nil : HasNil input → Verdict reply fresh (err (sentinel invalid_uuid), none)
    unanswered :
        {e : Error} → IsWellFormed input → reply ≡ err e → Verdict reply fresh (err e, none)
    sold_out :
        {parts : List Part}
        → IsWellFormed input
        → reply ≡ ok parts
        → SoldOut parts
        → Verdict reply fresh (err (sentinel out_of_stock), none)
    absent :
        {parts : List Part}
        → IsWellFormed input
        → reply ≡ ok parts
        → All InStock parts
        → Lacks (offered parts) (requested_parts input)
        → Verdict reply fresh (err (sentinel part_not_found), none)
    no_uuid :
        {parts : List Part} {items : List OrderItem} {e : Error}
        → IsWellFormed input
        → reply ≡ ok parts
        → All InStock parts
        → Priced (offered parts) (requested_parts input) items
        → fresh ≡ err e
        → Verdict reply fresh (err e, none)
    created :
        {parts : List Part} {items : List OrderItem} {u : Uuid}
        → IsWellFormed input
        → reply ≡ ok parts
        → All InStock parts
        → Priced (offered parts) (requested_parts input) items
        → fresh ≡ ok u
        → Verdict reply fresh (
          ok (record { order_uuid = u; total_price = sum_prices items % 2 ^ 64 }),
          some (new_order input u now items (sum_prices items % 2 ^ 64)),
        )

-- What the storage shows after: one order more, or what it showed.
abbrev pub Stored :
    {St : Type 0} (view : St → Uuid → Option Order) (Good : St → Type 0)
    → Option Order
    → St
    → St
    → Type 0
Stored view Good none s t = Kept view Good s t
Stored view Good (some o) s t =
    (shown : Order) × Mirrors o shown × Put view Good o.order_uuid shown s t

-- A run whose answer and storage a verdict allows.
pub record Ends {St : Type 0} (view : St → Uuid → Option Order) (Good : St → Type 0) (now : Time)
    (input : CreateOrderInput) (reply : Result OrderError (List Part))
    (fresh : Result OrderError Uuid) (s : St) (run : Result OrderError CreateOrderResult × St)
    : Type 0 where
  pub answer : Answer
  pub verdict : Verdict now input reply fresh answer
  pub returns : run.0 ≡ answer.0
  pub leaves : Stored view Good answer.1 s run.1
