-- ===== src/Order/Converter/RoundTrip.antt =====
-- Storing an order and reading it back.
use microservices_course.Common.{◌≡◌, refl, ap, List, [], ◌∷◌, Option, arith}
use microservices_course.Go.{Uuid, Time}
use microservices_course.Order.Model.{Order, OrderItem, OrderStatus, PaymentMethod}
use microservices_course.Order.Records.{OrderRecord}
use microservices_course.Order.Converter.Loop.{
  order_items_to_model, order_items_to_record, order_to_model, order_to_record, from_items, rebuild,
  add_item, reset_parts,
}

pub items_round_trip : (is : List OrderItem) → order_items_to_model (order_items_to_record is) ≡ is
unfolding order_items_to_model order_items_to_record
items_round_trip [] = refl
items_round_trip (i ∷ is) = ap (λ js. i ∷ js) (items_round_trip is)

-- The part columns and the total of the order are those that its items determine.
abbrev pub IsConsistent : Order → Type 0
IsConsistent o = from_items o o.items ≡ o

-- Storing an order and reading it back gives the order with its part columns and its total
-- computed from its items, where it has any.
pub to_model-to_record : (o : Order) → order_to_model (order_to_record o) ≡ from_items o o.items
unfolding order_to_model order_to_record
to_model-to_record o = rw items_round_trip

-- The columns that no item determines.
abbrev pub stamp : Order → OrderStatus → Option Uuid → Option PaymentMethod → Order
stamp o s t m = record o { status = s; transaction_uuid = t; payment_method = m }

add_item-stamp :
    (o : Order) (i : OrderItem) (s : OrderStatus) (t : Option Uuid) (m : Option PaymentMethod)
    → add_item (stamp o s t m) i ≡ stamp (add_item o i) s t m
unfolding add_item
add_item-stamp o i s t m = ground arith

rebuild-stamp :
    (o : Order) (is : List OrderItem) (s : OrderStatus) (t : Option Uuid) (m : Option PaymentMethod)
    → rebuild (stamp o s t m) is ≡ stamp (rebuild o is) s t m
unfolding rebuild
rebuild-stamp o [] s t m = refl
rebuild-stamp o (i ∷ is) s t m =
    rw (add_item-stamp o i s t m) (rebuild-stamp (add_item o i) is s t m)

pub from_items-stamp :
    (o : Order) (is : List OrderItem) (s : OrderStatus) (t : Option Uuid) (m : Option PaymentMethod)
    → from_items (stamp o s t m) is ≡ stamp (from_items o is) s t m
from_items-stamp o [] s t m = refl
from_items-stamp o (i ∷ is) s t m = rebuild-stamp (reset_parts o) (i ∷ is) s t m

-- The columns that the loop neither reads nor writes.
abbrev pub dated : Order → List OrderItem → Time → Order
dated o is t = record o { items = is; created_at = t }

add_item-dated :
    (o : Order) (i : OrderItem) (is : List OrderItem) (t : Time)
    → add_item (dated o is t) i ≡ dated (add_item o i) is t
unfolding add_item
add_item-dated o i is t = ground arith

rebuild-dated :
    (o : Order) (js is : List OrderItem) (t : Time)
    → rebuild (dated o is t) js ≡ dated (rebuild o js) is t
unfolding rebuild
rebuild-dated o [] is t = refl
rebuild-dated o (j ∷ js) is t = rw (add_item-dated o j is t) (rebuild-dated (add_item o j) js is t)

pub from_items-dated :
    (o : Order) (js is : List OrderItem) (t : Time)
    → from_items (dated o is t) js ≡ dated (from_items o js) is t
from_items-dated o [] is t = refl
from_items-dated o (j ∷ js) is t = rebuild-dated (reset_parts o) (j ∷ js) is t

-- Changing the status and the payment of a record changes only those of the order.
pub to_model-stamp :
    (r : OrderRecord) (s : OrderStatus) (t : Option Uuid) (m : Option PaymentMethod)
    → order_to_model (record r { status = s; transaction_uuid = t; payment_method = m })
      ≡ stamp (order_to_model r) s t m
unfolding order_to_model
to_model-stamp r s t m = from_items-stamp _ (order_items_to_model r.items) s t m

add_item_keeps :
    (o : Order) (i : OrderItem)
    → ((add_item o i).order_uuid ≡ o.order_uuid)
      × ((add_item o i).status ≡ o.status)
      × ((add_item o i).transaction_uuid ≡ o.transaction_uuid)
      × ((add_item o i).payment_method ≡ o.payment_method)
unfolding add_item
add_item_keeps o i = ground arith

rebuild_keeps :
    (o : Order) (is : List OrderItem)
    → ((rebuild o is).order_uuid ≡ o.order_uuid)
      × ((rebuild o is).status ≡ o.status)
      × ((rebuild o is).transaction_uuid ≡ o.transaction_uuid)
      × ((rebuild o is).payment_method ≡ o.payment_method)
unfolding rebuild
rebuild_keeps o [] = (refl, refl, refl, refl)
rebuild_keeps o (i ∷ is) = ground (arith, rebuild_keeps (add_item o i) is, add_item_keeps o i)

from_items_keeps :
    (o : Order) (is : List OrderItem)
    → ((from_items o is).order_uuid ≡ o.order_uuid)
      × ((from_items o is).status ≡ o.status)
      × ((from_items o is).transaction_uuid ≡ o.transaction_uuid)
      × ((from_items o is).payment_method ≡ o.payment_method)
from_items_keeps o [] = (refl, refl, refl, refl)
from_items_keeps o (i ∷ is) = rebuild_keeps (reset_parts o) (i ∷ is)

-- Reading a record back keeps what no item determines.
pub to_model_keeps :
    (r : OrderRecord)
    → ((order_to_model r).order_uuid ≡ r.order_uuid)
      × ((order_to_model r).status ≡ r.status)
      × ((order_to_model r).transaction_uuid ≡ r.transaction_uuid)
      × ((order_to_model r).payment_method ≡ r.payment_method)
unfolding order_to_model
to_model_keeps r = from_items_keeps _ (order_items_to_model r.items)
