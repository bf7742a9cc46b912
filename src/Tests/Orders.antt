-- ===== src/Tests/Orders.antt =====
-- One request to OrderService, over the in-memory storage.
use microservices_course.Common.{
  ◌≡◌, refl, ◌%◌, ◌^◌, Option, some, none, [], ◌∷◌, Map, false, lookup, insert, arith, ◌==◌, nat_eq,
  if◌then◌else◌,
}
use microservices_course.Common.Int64.{signed, pos, add, le_zero}
use microservices_course.Go.{Uuid, ok, err, sentinel}
use microservices_course.Openapi.Responses.{
  encode_create_order_response, encode_get_order_response, encode_pay_order_response,
  encode_cancel_order_response,
}
use microservices_course.Order.Errors.{
  out_of_stock, order_not_found, order_already_paid, payment_in_progress,
}
use microservices_course.Order.Model.{Order, Part, CreateOrderResult}
use microservices_course.Order.Converter.{IsConsistent, order_to_model, order_to_record}
use microservices_course.Order.Readback.{read_back, to_model-read_back}
use microservices_course.Order.Memory
use microservices_course.Order.Memory.{get, start_payment, finish_payment, cancel}
use microservices_course.Order.Memory.View.{view, IsKeyed}
use microservices_course.Order.Memory.Laws.{memory_laws}
use microservices_course.Order.Memory.Lifecycle.{
  finished, paid_order, get-finish_payment, finish_payment-final,
}
use microservices_course.Order.Service.Pay
use microservices_course.Order.Service.Spec.{pay_spec, cancel_spec, Meets}
use microservices_course.Order.Service.Refinement.{pay-Meets, cancel-Meets}
use microservices_course.Order.Service.Create.{
  create, requested_parts, new_order, price_items, index_parts,
}
use microservices_course.Order.Service.Create.Items.{
  Priced, none_left, next_part, price_items-exact, sum_prices,
}
use microservices_course.Order.Service.Create.Found.{Found, create-Found}
use microservices_course.Order.Service.Create.Steps.{asked}
use microservices_course.Order.Service.Create.Stored.{new_order-IsConsistent}
use microservices_course.Order.Service.Create.Verdict.{Ends}
use microservices_course.Order.Service.Create.Totality.{create-Ends}
use microservices_course.Order.Api.Handlers.{
  create_order_answer, get_order_answer, pay_order_answer, cancel_order_answer, pay_order,
  cancel_order,
}
use microservices_course.Order.Api.Convert.{payment_method_to_model, order_to_dto}
use microservices_course.Order.Api.Statuses.{
  Agrees, answers-Agree, cancel_status, cancel_order-status, pay_status, pay_order-status,
}
use microservices_course.Order.Crossing.{Arrives, payment_method-Arrives, order_to_dto-valid}
use microservices_course.Openapi.Validators.{method_valid, order_dto_failures}
use microservices_course.Tests.Fixtures.{
  uuids, service, input, items, hull, engine, pending_order, pending_order-IsConsistent,
  empty-IsKeyed, stocked, stocked-IsKeyed, service-LeavesOrders, service-AsksOnly, service-Commits,
}

pay-Meets_example :
    Meets view IsKeyed 5 stocked
      (Pay.pay uuids service 5 "SBP" stocked)
      (pay_spec "SBP" (view stocked 5) (ok 77))
pay-Meets_example =
    pay-Meets uuids service memory_laws 5 stocked stocked-IsKeyed service-LeavesOrders "SBP"

cancel-Meets_example :
    Meets view IsKeyed 5 stocked (Pay.cancel uuids service 5 stocked) (cancel_spec (view stocked 5))
cancel-Meets_example = cancel-Meets uuids service memory_laws 5 stocked stocked-IsKeyed

-- The two requested parts, at their prices.
abbrev offers : Uuid → Option Part
offers u = if u == hull.uuid then some hull else if u == engine.uuid then some engine else none

input-Priced : Priced offers (requested_parts input) items
unfolding requested_parts
input-Priced = next_part {p = hull} refl (next_part {p = engine} refl none_left)

create-Ends_example :
    Ends view IsKeyed 9 input
      (asked uuids service (ok 5) 9 input []).0
      (ok 5)
      []
      (create uuids service (ok 5) 9 input [])
unfolding lookup
create-Ends_example =
    create-Ends uuids service memory_laws service-AsksOnly service-Commits (ok 5) 9 input
      (λ f u is h. new_order-IsConsistent u 9 input f is h) [] empty-IsKeyed (λ u e. refl)

-- The answer to the request.
abbrev answer : CreateOrderResult
answer = record { order_uuid = 5; total_price = 30 }

create_answers : (create uuids service (ok 5) 9 input []).0 ≡ ok answer
unfolding create index_parts le_zero price_items lookup insert Memory.create add
create_answers = refl

create-Found_example :
    Found uuids service memory_laws input answer (create uuids service (ok 5) 9 input []).1
unfolding lookup
create-Found_example =
    create-Found uuids service memory_laws service-AsksOnly service-Commits (ok 5) 9 input
      (λ f u is h. new_order-IsConsistent u 9 input f is h) [] empty-IsKeyed (λ u e. refl) answer
      create_answers

new_order-IsConsistent_example :
    IsConsistent (new_order input 5 9 items (sum_prices items % 2 ^ 64))
new_order-IsConsistent_example = new_order-IsConsistent 5 9 input offers items input-Priced

-- What the service finds under each UUID.
abbrev stock : Map Part
stock = (1, hull) ∷ (2, engine) ∷ []

stock-Priced : Priced (λ u. lookup u stock) (requested_parts input) items
unfolding requested_parts lookup
stock-Priced = next_part {p = hull} refl (next_part {p = engine} refl none_left)

price_items-exact_example :
    (price_items stock (requested_parts input) [] 0 ≡ ok (items, 30)) × (signed 30 ≡ pos 30)
price_items-exact_example =
    price_items-exact stock (requested_parts input) items stock-Priced (omega arith)

to_model-read_back_example :
    order_to_model (order_to_record pending_order) ≡ read_back pending_order items
to_model-read_back_example = to_model-read_back pending_order

abbrev paid : Order
paid = paid_order pending_order 77 "CARD" []

get-finish_payment_example :
    (get 5 (finished pending_order 77 "CARD" [])).0 ≡ ok (paid_order pending_order 77 "CARD" [])
get-finish_payment_example =
    get-finish_payment pending_order 77 "CARD" [] empty-IsKeyed pending_order-IsConsistent refl

finish_payment-final_example :
    ((start_payment 5 (finished pending_order 77 "CARD" [])).0 ≡ ok (paid, false))
    × ((finish_payment 5 78 "SBP" (finished pending_order 77 "CARD" [])).0 ≡ ok (paid, false))
    × ((cancel 5 (finished pending_order 77 "CARD" [])).0 ≡ ok (paid, false))
finish_payment-final_example =
    finish_payment-final pending_order 77 "CARD" [] empty-IsKeyed pending_order-IsConsistent refl 78
      "SBP"

answers-Agree_example :
    Agrees (encode_create_order_response (create_order_answer (err (sentinel out_of_stock))))
    × Agrees (encode_get_order_response (get_order_answer (err (sentinel order_not_found))))
    × Agrees (encode_pay_order_response (pay_order_answer (err (sentinel payment_in_progress))))
    × Agrees
        (encode_cancel_order_response (cancel_order_answer (err (sentinel order_already_paid))))
answers-Agree_example =
    answers-Agree (err (sentinel out_of_stock)) (err (sentinel order_not_found))
      (err (sentinel payment_in_progress)) (err (sentinel order_already_paid))

cancel_order-status_example :
    (encode_cancel_order_response (cancel_order uuids service 5 stocked).0).status
    ≡ cancel_status (view stocked 5)
cancel_order-status_example =
    cancel_order-status uuids service memory_laws 5 stocked stocked-IsKeyed

pay_order-status_example :
    (encode_pay_order_response
      (pay_order uuids service (record { payment_method = "CARD" }) 5 stocked).0).status
    ≡ pay_status
        (payment_method_to_model "CARD")
        (view stocked 5)
        (encode_pay_order_response (pay_order_answer (ok 77))).status
pay_order-status_example =
    pay_order-status uuids service memory_laws 5 stocked stocked-IsKeyed service-LeavesOrders
      (record { payment_method = "CARD" })

payment_method-Arrives_example : Arrives "SBP"
unfolding method_valid
payment_method-Arrives_example = payment_method-Arrives "SBP" refl

order_to_dto-valid_example : order_dto_failures (order_to_dto pending_order) ≡ []
order_to_dto-valid_example = order_to_dto-valid pending_order (λ m e. ground arith)
