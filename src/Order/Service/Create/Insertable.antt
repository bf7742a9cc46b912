-- ===== src/Order/Service/Create/Insertable.antt =====
-- order/internal/service/order/create.go with order/internal/repository/order/repository.go: the order
-- that `Create` builds is one that the storage in PostgreSQL takes.
use microservices_course.Common.{
  ◌≡◌, refl, subst, false, Option, some, none, List, [], ◌∷◌, ◌==◌, nat_eq, string_eq, All, ◌%◌,
  ◌^◌,
}
use microservices_course.Go.{Uuid, Time}
use microservices_course.Order.Model.{CreateOrderInput, OrderItem, Part}
use microservices_course.Order.Converter.{Apart, AllApart}
use microservices_course.Order.Postgres.Insert.{PartsApart}
use microservices_course.Order.Postgres.Reread.{IsInsertable}
use microservices_course.Order.Service.Create.{RequestedPart, requested_parts, new_order, new_item}
use microservices_course.Order.Service.Create.Items.{Priced, none_left, next_part, sum_prices}
use microservices_course.Order.Service.Create.Stored.{Priced-cons, new_order-IsConsistent}

-- No part is requested twice.
abbrev pub RequestedApart : List RequestedPart → Type 0
RequestedApart [] = Unit
RequestedApart (r ∷ rs) = All (λ q. (r.uuid == q.uuid) ≡ false) rs × RequestedApart rs

-- No slot is filled twice.
abbrev SlotsApart : List RequestedPart → Type 0
SlotsApart [] = Unit
SlotsApart (r ∷ rs) = All (λ q. (r.part_type == q.part_type) ≡ false) rs × SlotsApart rs

requested_parts-SlotsApart :
    (hull engine : Uuid) (shield weapon : Option Uuid)
    → SlotsApart (
        requested_parts (record {
          hull_uuid = hull;
          engine_uuid = engine;
          shield_uuid = shield;
          weapon_uuid = weapon;
        }))
unfolding requested_parts
requested_parts-SlotsApart hull engine none none = ((refl, tt), (tt, tt))
requested_parts-SlotsApart hull engine (some a) none = ((refl, (refl, tt)), ((refl, tt), (tt, tt)))
requested_parts-SlotsApart hull engine none (some b) = ((refl, (refl, tt)), ((refl, tt), (tt, tt)))
requested_parts-SlotsApart hull engine (some a) (some b) =
    ((refl, (refl, (refl, tt))), ((refl, (refl, tt)), ((refl, tt), (tt, tt))))

-- The first of the requested parts.
requested_parts-cons :
    (hull engine : Uuid) (shield weapon : Option Uuid)
    → (r : RequestedPart) × (rs : List RequestedPart) × (requested_parts (record {
      hull_uuid = hull;
      engine_uuid = engine;
      shield_uuid = shield;
      weapon_uuid = weapon;
    })
        ≡ r ∷ rs)
unfolding requested_parts
requested_parts-cons hull engine none none = (_, _, refl)
requested_parts-cons hull engine (some a) none = (_, _, refl)
requested_parts-cons hull engine none (some b) = (_, _, refl)
requested_parts-cons hull engine (some a) (some b) = (_, _, refl)

module _ (f : Uuid → Option Part) where
  All-Priced :
      (P : RequestedPart → Type 0) (Q : OrderItem → Type 0)
      → ((r : RequestedPart) (p : Part) → P r → Q (new_item r p))
      → {rs : List RequestedPart} {is : List OrderItem} → Priced f rs is
      → All P rs
      → All Q is
  All-Priced P Q g none_left h = tt
  All-Priced P Q g (next_part {r = r} {p = p} e k) (x, h) = (g r p x, All-Priced P Q g k h)

  PartsApart-Priced :
      {rs : List RequestedPart} {is : List OrderItem}
      → Priced f rs is
      → RequestedApart rs
      → PartsApart is
  PartsApart-Priced none_left h = tt
  PartsApart-Priced (next_part {r = r} e k) (x, h) = (
    All-Priced (λ q. (r.uuid == q.uuid) ≡ false) (λ j. (r.uuid == j.part_uuid) ≡ false) (λ q p n. n)
        k x,
    PartsApart-Priced k h,
  )

  AllApart-Priced :
      {rs : List RequestedPart} {is : List OrderItem} → Priced f rs is → SlotsApart rs → AllApart is
  AllApart-Priced none_left h = tt
  AllApart-Priced (next_part {r = r} {p = p} e k) (x, h) = (
    All-Priced (λ q. (r.part_type == q.part_type) ≡ false) (Apart (new_item r p)) (λ q v n. n) k x,
    AllApart-Priced k h,
  )

  pub new_order-IsInsertable :
      (u : Uuid) (now : Time) (input : CreateOrderInput) (is : List OrderItem)
      → Priced f (requested_parts input) is
      → RequestedApart (requested_parts input)
      → IsInsertable (new_order input u now is (sum_prices is % 2 ^ 64))
  new_order-IsInsertable u now input is h apart =
      let (r, rs, e) =
        requested_parts-cons input.hull_uuid input.engine_uuid input.shield_uuid
          input.weapon_uuid in
      let (p, js, listed, _) = Priced-cons f r rs is (subst (λ l. Priced f l is) e h) in
      record {
        unpaid = refl;
        no_method = refl;
        first = new_item r p;
        rest = js;
        listed = listed;
        consistent = new_order-IsConsistent u now input f is h;
        slots = AllApart-Priced h (
            requested_parts-SlotsApart input.hull_uuid input.engine_uuid input.shield_uuid
              input.weapon_uuid);
        parts = PartsApart-Priced h apart;
      }
