-- ===== src/System/Quote.antt =====
-- order/internal/client/grpc/inventory/v1 over inventory/internal: a request for prices, from the
-- order service to the table of parts and back. The gRPC call in between carries the messages
-- unchanged.
use microservices_course.Common.{
  ◌≡◌, refl, ap, ◌∙◌, sym, false, arith, String, Option, none, some, List, [], ◌∷◌, ◌++◌, map, All,
  ◌==◌, nat_eq, string_eq, inl, inr, text-cases,
}
use mathlib.Core.List.{append_assoc, append-nil}
use microservices_course.Go.{
  Result, Uuid, UuidPackage, nil_uuid, Time, Status, ok, err, sentinel, lift, is,
}
use microservices_course.Inventory.Errors.{InventoryError}
use microservices_course.Inventory.Model
use microservices_course.Inventory.Model.{PartRecord, part_to_model}
use microservices_course.Inventory.Repository
use microservices_course.Inventory.Repository.{PartsDb}
use microservices_course.Inventory.Repository.Lookup.{AnswersFrom, pick, pick_with, list-pick}
use microservices_course.Inventory.Service
use microservices_course.Inventory.Service.{Service, parse_uuid, parse_uuids}
use microservices_course.Inventory.Api
use microservices_course.Order.Errors.{OrderError, part_not_found}
use microservices_course.Order.Model.{Part}
use microservices_course.Order.Clients.Inventory.{list_parts, read_parts, parts_to_model}

abbrev pub IsReal : Uuid → Type 0
IsReal u = (u == nil_uuid) ≡ false

-- What the order service keeps of a part.
abbrev pub offer : Model.Part → Part
offer p = record { uuid = p.uuid; price = p.price; stock_quantity = p.stock_quantity }

-- What a request for some parts should answer.
abbrev add_offer : Option PartRecord → Result OrderError (List Part) → Result OrderError (List Part)
add_offer none rest = err (sentinel part_not_found)
add_offer (some r) (ok ps) = ok (offer (part_to_model r) ∷ ps)
add_offer (some r) (err e) = err e

abbrev pub quote_spec : (Uuid → Option PartRecord) → List Uuid → Result OrderError (List Part)
quote_spec table [] = ok []
quote_spec table (u ∷ us) = add_offer (table u) (quote_spec table us)

some_ne_none : (u : Uuid) → some u ≡ none → ⊥
some_ne_none u e = ground arith

module _ (uuids : UuidPackage) where
  abbrev continue :
      List String → List Uuid → Result InventoryError Uuid → Result InventoryError (List Uuid)
  continue raws parsed (err e) = err e
  continue raws parsed (ok u) = parse_uuids uuids raws (parsed ++ u ∷ [])

  parse_uuid-to_string : (u : Uuid) → IsReal u → parse_uuid uuids (uuids.to_string u) ≡ ok u
  unfolding parse_uuid
  parse_uuid-to_string u real = elim (text-cases (uuids.to_string u) "") [
    | inl e ↦
        absurd
          (some_ne_none u (sym (uuids.parse-to_string u) ∙ ap uuids.parse e ∙ uuids.parse-empty))
    | inr n ↦ rw n (rw (uuids.parse-to_string u) (rw real refl))
  ]

  parse_uuids-map :
      (us acc : List Uuid)
      → All IsReal us
      → parse_uuids uuids (map uuids.to_string us) acc ≡ ok (acc ++ us)
  unfolding parse_uuids
  parse_uuids-map [] acc h = ap ok (sym (append-nil acc))
  parse_uuids-map (u ∷ us) acc h =
      ap (continue (map uuids.to_string us) acc) (parse_uuid-to_string u h.0)
      ∙ parse_uuids-map us (acc ++ u ∷ []) h.1
      ∙ ap ok (append_assoc acc (u ∷ []) us)

  module _ (timestamp : Time → Time) (rpc_text : Status → String) where
    module _ (db : PartsDb) (sort_by_name : List Model.Part → List Model.Part) where
      -- InventoryService over the repository, with a transaction manager that runs the closure and
      -- commits.
      abbrev pub catalogue : Service (Unit {0})
      catalogue = record {
        tx_manager = λ A a. a;
        get_part = λ u. lift (Repository.get db u);
        list_parts = λ us part_type. lift (Repository.list db sort_by_name us part_type);
      }

      -- The inventory client of the order service, over InventoryService.
      abbrev pub quote : List String → Result OrderError (List Part)
      quote raws = (list_parts uuids rpc_text (Api.list_parts uuids timestamp catalogue) raws tt).0

      -- What the client makes of the service's result.
      abbrev read : Result InventoryError (List Model.Part) → Result OrderError (List Part)
      read r = read_parts uuids rpc_text (Api.list_parts_reply uuids timestamp r)

      quote-read :
          (u : Uuid) (us : List Uuid)
          → All IsReal (u ∷ us)
          → quote (map uuids.to_string (u ∷ us))
            ≡ read (Repository.list db sort_by_name (u ∷ us) Model.type_unspecified)
      unfolding list_parts Api.list_parts Api.part_type_to_model Service.list
      quote-read u us real = rw (parse_uuids-map (u ∷ us) [] real) refl

      read-pick_with :
          (o : Option PartRecord) (rest : Result InventoryError (List Model.Part))
          → read (pick_with o rest) ≡ add_offer o (read rest)
      unfolding read_parts parts_to_model part_to_model is Api.list_parts_reply
          Api.part_error_to_status Api.parts_to_proto Api.part_to_proto
      read-pick_with none rest = refl
      read-pick_with (some r) (ok ps) = rw (uuids.parse-to_string r.uuid) refl
      read-pick_with (some r) (err e) = refl

      read-pick :
          (table : Uuid → Option PartRecord) (us : List Uuid)
          → read (pick table us) ≡ quote_spec table us
      unfolding read_parts parts_to_model Api.list_parts_reply Api.parts_to_proto
      read-pick table [] = refl
      read-pick table (u ∷ us) =
          read-pick_with (table u) (pick table us) ∙ ap (add_offer (table u)) (read-pick table us)

      -- Asked for the parts under some UUIDs, at least one and none of them nil, from a database
      -- that answers from a table, the client gets their prices and stock from the table, in the
      -- order of the request, or "part not found" if one is missing.
      pub quote-eq :
          (table : Uuid → Option PartRecord) (u : Uuid) (us : List Uuid)
          → All IsReal (u ∷ us)
          → AnswersFrom db table (u ∷ us)
          → quote (map uuids.to_string (u ∷ us)) ≡ quote_spec table (u ∷ us)
      quote-eq table u us real answers =
          quote-read u us real
          ∙ ap read (list-pick db sort_by_name Model.type_unspecified table u us answers)
          ∙ read-pick table (u ∷ us)
