-- ===== src/Order/Converter/Loop.antt =====
-- order/internal/repository/converter/order.go: the conversions. Where an order has items,
-- `OrderToModel` computes the part columns and the total from them.
use microservices_course.Common.{some, none, List, [], ◌∷◌, ◌==◌, string_eq, if◌then◌else◌}
use microservices_course.Common.Int64.{add}
use microservices_course.Go.{nil_uuid}
use microservices_course.Order.Model.{
  Order, OrderItem, part_hull, part_engine, part_shield, part_weapon,
}
use microservices_course.Order.Records.{OrderRecord, ItemRecord}

abbrev pub item_to_model : ItemRecord → OrderItem
item_to_model i = record { part_uuid = i.part_uuid; part_type = i.part_type; price = i.price }

abbrev pub item_to_record : OrderItem → ItemRecord
item_to_record i = record { part_uuid = i.part_uuid; part_type = i.part_type; price = i.price }

-- OrderItemsToModel: the loop appends one item for each record.
unfoldable pub order_items_to_model : List ItemRecord → List OrderItem
order_items_to_model [] = []
order_items_to_model (i ∷ is) = item_to_model i ∷ order_items_to_model is

-- OrderItemsToRecord
unfoldable pub order_items_to_record : List OrderItem → List ItemRecord
order_items_to_record [] = []
order_items_to_record (i ∷ is) = item_to_record i ∷ order_items_to_record is

-- The `switch` of one round of the loop of `OrderToModel`.
abbrev pub set_part : Order → OrderItem → Order
set_part o i =
    if i.part_type == part_hull
    then record o { hull_uuid = i.part_uuid }
    else if i.part_type == part_engine
    then record o { engine_uuid = i.part_uuid }
    else if i.part_type == part_shield
    then record o { shield_uuid = some i.part_uuid }
    else if i.part_type == part_weapon
    then record o { weapon_uuid = some i.part_uuid }
    else o

unfoldable pub add_item : Order → OrderItem → Order
add_item o i = set_part (record o { total_price = add o.total_price i.price }) i

-- The loop of `OrderToModel`.
unfoldable pub rebuild : Order → List OrderItem → Order
rebuild o [] = o
rebuild o (i ∷ is) = rebuild (add_item o i) is

-- The columns that the items determine, before the loop.
abbrev pub reset_parts : Order → Order
reset_parts o = record o {
  hull_uuid = nil_uuid;
  engine_uuid = nil_uuid;
  shield_uuid = none;
  weapon_uuid = none;
  total_price = 0;
}

abbrev pub from_items : Order → List OrderItem → Order
from_items o [] = o
from_items o (i ∷ is) = rebuild (reset_parts o) (i ∷ is)

-- OrderToModel
unfoldable pub order_to_model : OrderRecord → Order
order_to_model r =
    let items = order_items_to_model r.items in
    from_items
      (record {
        order_uuid = r.order_uuid;
        hull_uuid = r.hull_uuid;
        engine_uuid = r.engine_uuid;
        shield_uuid = r.shield_uuid;
        weapon_uuid = r.weapon_uuid;
        total_price = r.total_price;
        transaction_uuid = r.transaction_uuid;
        payment_method = r.payment_method;
        status = r.status;
        created_at = r.created_at;
        items = items;
      })
      items

-- OrderToRecord
unfoldable pub order_to_record : Order → OrderRecord
order_to_record o = record {
  order_uuid = o.order_uuid;
  hull_uuid = o.hull_uuid;
  engine_uuid = o.engine_uuid;
  shield_uuid = o.shield_uuid;
  weapon_uuid = o.weapon_uuid;
  total_price = o.total_price;
  transaction_uuid = o.transaction_uuid;
  payment_method = o.payment_method;
  status = o.status;
  created_at = o.created_at;
  items = order_items_to_record o.items;
}
