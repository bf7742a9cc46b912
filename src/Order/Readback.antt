-- ===== src/Order/Readback.antt =====
-- order/internal/repository/converter/order.go: the order that `OrderToModel` reads out of what
-- `OrderToRecord` wrote.
use microservices_course.Common.{
  ◌≡◌, refl, sym, subst, text-cases, inl, inr, false, ap, ◌∙◌, arith, Option, some, none, List, [],
  ◌∷◌, ◌%◌, ◌^◌, ◌==◌, string_eq, if◌then◌else◌,
}
use microservices_course.Common.Int64.{Int64, add}
use microservices_course.Go.{Uuid, nil_uuid}
use microservices_course.Order.Model.{
  Order, OrderItem, PartType, part_hull, part_engine, part_shield, part_weapon,
}
use microservices_course.Order.Converter.{
  order_to_model, order_to_record, to_model-to_record, add_item, rebuild, reset_parts, from_items,
}
use microservices_course.Order.Service.Create.Items.{total_from, sum_prices, total_from-sum}

-- An item of that type, if it is one, unless a later one was found.
abbrev unless_later : Option Uuid → PartType → OrderItem → Option Uuid
unless_later (some u) part_type i = some u
unless_later none part_type i = if i.part_type == part_type then some i.part_uuid else none

-- The part of the last item of that type.
abbrev pub last_part : PartType → List OrderItem → Option Uuid
last_part part_type [] = none
last_part part_type (i ∷ is) = unless_later (last_part part_type is) part_type i

abbrev pub or_uuid : Option Uuid → Uuid → Uuid
or_uuid none d = d
or_uuid (some u) d = u

abbrev or_option : Option Uuid → Option Uuid → Option Uuid
or_option none d = d
or_option (some u) d = some u

or_option-none : (a : Option Uuid) → or_option a none ≡ a
or_option-none none = refl
or_option-none (some u) = refl

-- An order with items has each part of the last item of its type and the sum of the prices, in 64
-- bits; one without items has what its columns say.
abbrev pub read_back : Order → List OrderItem → Order
read_back o [] = o
read_back o (i ∷ is) =
    let items = i ∷ is in
    record o {
      hull_uuid = or_uuid (last_part part_hull items) nil_uuid;
      engine_uuid = or_uuid (last_part part_engine items) nil_uuid;
      shield_uuid = last_part part_shield items;
      weapon_uuid = last_part part_weapon items;
      total_price = sum_prices items % 2 ^ 64;
    }

abbrev patch : Order → Option Uuid → Option Uuid → Option Uuid → Option Uuid → Int64 → Order
patch o hull engine shield weapon total = record o {
  hull_uuid = or_uuid hull o.hull_uuid;
  engine_uuid = or_uuid engine o.engine_uuid;
  shield_uuid = or_option shield o.shield_uuid;
  weapon_uuid = or_option weapon o.weapon_uuid;
  total_price = total;
}

data Slot : PartType → Type 0 where
  hull : Slot part_hull
  engine : Slot part_engine
  shield : Slot part_shield
  weapon : Slot part_weapon
  unknown :
      {p : PartType}
      → (p == part_hull) ≡ false
      → (p == part_engine) ≡ false
      → (p == part_shield) ≡ false
      → (p == part_weapon) ≡ false
      → Slot p

slot_of : (p : PartType) → Slot p
slot_of p = elim (text-cases p part_hull) [
  | inl e ↦ subst Slot (sym e) hull
  | inr n1 ↦ elim (text-cases p part_engine) [
    | inl e ↦ subst Slot (sym e) engine
    | inr n2 ↦ elim (text-cases p part_shield) [
      | inl e ↦ subst Slot (sym e) shield
      | inr n3 ↦ elim (text-cases p part_weapon) [
        | inl e ↦ subst Slot (sym e) weapon
        | inr n4 ↦ unknown n1 n2 n3 n4
      ]
    ]
  ]
]

patch_slot :
    {p : PartType} (slot : Slot p) (o : Order) (u : Uuid) (n : Int64) (a b c d : Option Uuid)
    (t : Int64)
    → let i : OrderItem = record { part_uuid = u; part_type = p; price = n } in
      patch (add_item o i) a b c d t
      ≡ patch o
          (unless_later a part_hull i)
          (unless_later b part_engine i)
          (unless_later c part_shield i)
          (unless_later d part_weapon i)
          t
unfolding add_item
patch_slot hull o u n a b c d t = ground arith
patch_slot engine o u n a b c d t = ground arith
patch_slot shield o u n a b c d t = ground arith
patch_slot weapon o u n a b c d t = ground arith
patch_slot (unknown x y z w) o u n a b c d t = ground arith

add_item-total :
    (o : Order) (i : OrderItem) → (add_item o i).total_price ≡ add o.total_price i.price
unfolding add_item
add_item-total o i = ground arith

-- The columns that the items write over those of `o`, with the total `t`.
abbrev patched : Order → List OrderItem → Int64 → Order
patched o is t =
    patch o (last_part part_hull is) (last_part part_engine is) (last_part part_shield is)
      (last_part part_weapon is) t

rebuild-patched :
    (o : Order) (is : List OrderItem) → rebuild o is ≡ patched o is (total_from o.total_price is)
unfolding rebuild
rebuild-patched o [] = refl
rebuild-patched o (i ∷ is) =
    rebuild-patched (add_item o i) is
    ∙ patch_slot (slot_of i.part_type) o i.part_uuid i.price (last_part part_hull is)
        (last_part part_engine is) (last_part part_shield is) (last_part part_weapon is)
        (total_from (add_item o i).total_price is)
    ∙ ap (λ t. patched o (i ∷ is) (total_from t is)) (add_item-total o i)

-- Storing an order and reading it back gives an order without items as it is, and an order with
-- items with each of its parts that of the last item of its type, or none or nil where there is no
-- such item, with the sum of the items' prices in 64 bits as its total, and otherwise as it is.
pub to_model-read_back : (o : Order) → order_to_model (order_to_record o) ≡ read_back o o.items
to_model-read_back o = to_model-to_record o ∙ go o.items
  where
    go : (is : List OrderItem) → from_items o is ≡ read_back o is
    go [] = refl
    go (i ∷ is) =
        rebuild-patched (reset_parts o) (i ∷ is)
        ∙ rw
            (
              or_option-none (last_part part_shield (i ∷ is)),
              or_option-none (last_part part_weapon (i ∷ is)),
              total_from-sum (i ∷ is),
            )
            refl
