-- ===== src/Order/Service/Create/Stored.antt =====
-- order/internal/service/order/create.go with order/internal/repository/converter/order.go: the order
-- that `Create` builds is the one that the storage reads back from its items.
use microservices_course.Common.{◌≡◌, refl, sym, subst, Option, some, none, List, [], ◌∷◌, ◌%◌, ◌^◌}
use microservices_course.Go.{Uuid, Time}
use microservices_course.Order.Model.{CreateOrderInput, OrderItem, Part}
use microservices_course.Order.Converter.{IsConsistent, rebuild, add_item}
use microservices_course.Order.Service.Create.{RequestedPart, requested_parts, new_order, new_item}
use microservices_course.Order.Service.Create.Items.{
  Priced, next_part, total_from, sum_prices, total_from-sum,
}

Priced-nil : (f : Uuid → Option Part) (is : List OrderItem) → Priced f [] is → is ≡ []
Priced-nil f [] h = refl
Priced-nil f (i ∷ is) h = elim h [ ]

pub Priced-cons :
    (f : Uuid → Option Part) (r : RequestedPart) (rs : List RequestedPart) (is : List OrderItem)
    → Priced f (r ∷ rs) is
    → (p : Part) × (js : List OrderItem) × (is ≡ new_item r p ∷ js) × Priced f rs js
Priced-cons f r rs is (next_part {p = p} {is = js} e h) = (p, js, refl, h)

abbrev request : Uuid → Uuid → Option Uuid → Option Uuid → CreateOrderInput
request hull engine shield weapon = record {
  hull_uuid = hull;
  engine_uuid = engine;
  shield_uuid = shield;
  weapon_uuid = weapon;
}

-- With its total written as the code adds it up, the order is read back as it is.
module _ (u : Uuid) (now : Time) (f : Uuid → Option Part) (hull engine : Uuid) where
  module _ (shield weapon : Option Uuid) where
    abbrev Reads : List OrderItem → Type 0
    Reads is =
        IsConsistent (new_order (request hull engine shield weapon) u now is (total_from 0 is))

  -- The items of a request, first to last.
  module _ {a b : RequestedPart} {is : List OrderItem} where
    two : Priced f (a ∷ b ∷ []) is → (p q : Part) × (is ≡ new_item a p ∷ new_item b q ∷ [])
    two h =
        let (p, is1, e1, h1) = Priced-cons f a (b ∷ []) is h in
        let (q, is2, e2, h2) = Priced-cons f b [] is1 h1 in (p, q, cc (Priced-nil f is2 h2))

    three :
        {c : RequestedPart}
        → Priced f (a ∷ b ∷ c ∷ []) is
        → (p q v : Part) × (is ≡ new_item a p ∷ new_item b q ∷ new_item c v ∷ [])
    three {c} h =
        let (p, is1, e1, h1) = Priced-cons f a (b ∷ c ∷ []) is h in
        let (q, is2, e2, h2) = Priced-cons f b (c ∷ []) is1 h1 in
        let (v, is3, e3, h3) = Priced-cons f c [] is2 h2 in (p, q, v, cc (Priced-nil f is3 h3))

    four :
        {c d : RequestedPart}
        → Priced f (a ∷ b ∷ c ∷ d ∷ []) is
        → (p q v w : Part) × (is ≡ new_item a p ∷ new_item b q ∷ new_item c v ∷ new_item d w ∷ [])
    four {c} {d} h =
        let (p, is1, e1, h1) = Priced-cons f a (b ∷ c ∷ d ∷ []) is h in
        let (q, is2, e2, h2) = Priced-cons f b (c ∷ d ∷ []) is1 h1 in
        let (v, is3, e3, h3) = Priced-cons f c (d ∷ []) is2 h2 in
        let (w, is4, e4, h4) = Priced-cons f d [] is3 h3 in (p, q, v, w, cc (Priced-nil f is4 h4))

  built :
      (shield weapon : Option Uuid) (is : List OrderItem)
      → Priced f (requested_parts (request hull engine shield weapon)) is
      → Reads shield weapon is
  unfolding requested_parts rebuild add_item
  built none none is h = subst (Reads none none) (sym (two h).2) refl
  built (some a) none is h = subst (Reads (some a) none) (sym (three h).3) refl
  built none (some b) is h = subst (Reads none (some b)) (sym (three h).3) refl
  built (some a) (some b) is h = subst (Reads (some a) (some b)) (sym (four h).4) refl

-- Where the items are those of the requested parts, in order, the order that Create builds from
-- them is read back from its items as it was built.
pub new_order-IsConsistent :
    (u : Uuid) (now : Time) (input : CreateOrderInput) (f : Uuid → Option Part)
    (is : List OrderItem)
    → Priced f (requested_parts input) is
    → IsConsistent (new_order input u now is (sum_prices is % 2 ^ 64))
new_order-IsConsistent u now input f is h =
    subst (λ t. IsConsistent (new_order input u now is t)) (total_from-sum is)
      (built u now f input.hull_uuid input.engine_uuid input.shield_uuid input.weapon_uuid is h)
