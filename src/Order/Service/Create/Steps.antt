-- ===== src/Order/Service/Create/Steps.antt =====
-- order/internal/service/order/create.go: what `Create` returns and leaves, check by check.
use microservices_course.Common.{
  ◌≡◌, refl, ap, false, ◌||◌, Option, some, none, List, [], Map, ◌==◌, nat_eq, ◌⊎◌, inl, inr, arith,
  Bool-cases, nat_beq_iff,
}
use microservices_course.Common.Int64.{Int64}
use microservices_course.Go.{Uuid, UuidPackage, Time, nil_uuid, Result, ok, err, sentinel}
use microservices_course.Order.Errors.{OrderError, Error, invalid_uuid}
use microservices_course.Order.Model.{CreateOrderInput, OrderItem, Part}
use microservices_course.Order.Service.Deps.{Service}
use microservices_course.Order.Service.Create.{
  create, requested_parts, part_uuids, index_parts, price_items, new_order, is_pointer_to_nil,
}

-- A part of the request is given by the nil UUID.
abbrev pub HasNil : CreateOrderInput → Type 0
HasNil input =
    (input.hull_uuid ≡ nil_uuid)
    ⊎ ((input.engine_uuid ≡ nil_uuid)
        ⊎ ((input.shield_uuid ≡ some nil_uuid) ⊎ (input.weapon_uuid ≡ some nil_uuid)))

pub record IsWellFormed (input : CreateOrderInput) : Type 0 where
  pub base : (input.hull_uuid == nil_uuid || input.engine_uuid == nil_uuid) ≡ false
  pub shield : is_pointer_to_nil input.shield_uuid ≡ false
  pub weapon : is_pointer_to_nil input.weapon_uuid ≡ false

uuid-cases : (u : Uuid) → (u ≡ nil_uuid) ⊎ ((u == nil_uuid) ≡ false)
uuid-cases u = elim (Bool-cases (u == nil_uuid)) [
  | inl e ↦ inl ((nat_beq_iff u nil_uuid).0 e)
  | inr e ↦ inr e
]

pointer-cases : (p : Option Uuid) → (p ≡ some nil_uuid) ⊎ (is_pointer_to_nil p ≡ false)
pointer-cases none = inr refl
pointer-cases (some u) = elim (uuid-cases u) [ inl e ↦ inl (ap some e) | inr e ↦ inr e ]

pub HasNil-or-IsWellFormed : (input : CreateOrderInput) → HasNil input ⊎ IsWellFormed input
HasNil-or-IsWellFormed input = elim (uuid-cases input.hull_uuid) [
  | inl e ↦ inl (inl e)
  | inr hull ↦ elim (uuid-cases input.engine_uuid) [
    | inl e ↦ inl (inr (inl e))
    | inr engine ↦ elim (pointer-cases input.shield_uuid) [
      | inl e ↦ inl (inr (inr (inl e)))
      | inr shield ↦ elim (pointer-cases input.weapon_uuid) [
        | inl e ↦ inl (inr (inr (inr e)))
        | inr weapon ↦ inr (record { base = rw (hull, engine); shield = shield; weapon = weapon })
      ]
    ]
  ]
]

module _ {St : Type 0} (uuids : UuidPackage) (service : Service St) (fresh : Result OrderError Uuid)
    (now : Time) (input : CreateOrderInput) (s : St) where
  open service use {tx_manager, order_repo, inventory_client}

  -- The call of the inventory.
  abbrev pub asked : Result OrderError (List Part) × St
  asked = inventory_client (part_uuids uuids (requested_parts input)) s

  pub create_of_nil :
      HasNil input → create uuids service fresh now input s ≡ (err (sentinel invalid_uuid), s)
  unfolding create
  create_of_nil h = ground arith

  module _ (valid : IsWellFormed input) where
    pub create_of_unanswered :
        (e : Error) → asked.0 ≡ err e → create uuids service fresh now input s ≡ (err e, asked.1)
    unfolding create
    create_of_unanswered e q = ground arith

    module _ (parts : List Part) (reply : asked.0 ≡ ok parts) where
      pub create_of_unindexed :
          (e : Error)
          → index_parts [] parts ≡ err e
          → create uuids service fresh now input s ≡ (err e, asked.1)
      unfolding create
      create_of_unindexed e q = ground arith

      module _ (by_uuid : Map Part) (indexed : index_parts [] parts ≡ ok by_uuid) where
        pub create_of_unpriced :
            (e : Error)
            → price_items by_uuid (requested_parts input) [] 0 ≡ err e
            → create uuids service fresh now input s ≡ (err e, asked.1)
        unfolding create
        create_of_unpriced e q = ground arith

        module _ (items : List OrderItem) (total : Int64)
            (priced : price_items by_uuid (requested_parts input) [] 0 ≡ ok (items, total)) where
          pub create_of_no_uuid :
              (e : Error)
              → fresh ≡ err e
              → create uuids service fresh now input s ≡ (err e, asked.1)
          unfolding create
          create_of_no_uuid e q = ground arith

          -- The last step: the transaction that stores the order.
          abbrev pub stored : Uuid → Result OrderError (Unit {0}) × St
          stored u = tx_manager Unit (order_repo.create (new_order input u now items total)) asked.1

          pub create_of_stored :
              (u : Uuid)
              → fresh ≡ ok u
              → (stored u).0 ≡ ok tt
              → create uuids service fresh now input s
                ≡ (ok (record { order_uuid = u; total_price = total }), (stored u).1)
          unfolding create
          create_of_stored u q done = ground arith

          pub create_of_unstored :
              (u : Uuid) (e : Error)
              → fresh ≡ ok u
              → (stored u).0 ≡ err e
              → create uuids service fresh now input s ≡ (err e, (stored u).1)
          unfolding create
          create_of_unstored u e q failed = ground arith
