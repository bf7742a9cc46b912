-- ===== src/Inventory/Service.antt =====
-- inventory/internal/service/part/service.go: the business logic of the catalogue.
use microservices_course.Common.{
  String, ◌==◌, nat_eq, string_eq, some, none, List, [], ◌∷◌, ◌++◌, if◌then◌else◌,
}
use microservices_course.Go.{
  Action, Result, Uuid, UuidPackage, nil_uuid, TxManager, ok, err, sentinel, lift, ◌>>=◌,
}
use microservices_course.Inventory.Errors.{InventoryError, invalid_uuid}
use microservices_course.Inventory.Model.{Part, PartType}

-- Repository, TxManager and the service that holds them.
pub record Service (St : Type 0) : Type 1 where
  pub tx_manager : TxManager St InventoryError
  pub get_part : Uuid → Action St InventoryError Part
  pub list_parts : List Uuid → PartType → Action St InventoryError (List Part)

-- parseUUID
unfoldable pub parse_uuid : UuidPackage → String → Result InventoryError Uuid
parse_uuid uuids raw = if raw == "" then err (sentinel invalid_uuid) else elim (uuids.parse raw) [
  | none ↦ err (sentinel invalid_uuid)
  | some parsed ↦ if parsed == nil_uuid then err (sentinel invalid_uuid) else ok parsed
]

-- The loop of `List`.
unfoldable pub parse_uuids :
    UuidPackage → List String → List Uuid → Result InventoryError (List Uuid)
parse_uuids uuids [] parsed = ok parsed
parse_uuids uuids (raw ∷ raws) parsed = elim (parse_uuid uuids raw) [
  | err e ↦ err e
  | ok u ↦ parse_uuids uuids raws (parsed ++ u ∷ [])
]

module _ {St : Type 0} (uuids : UuidPackage) (service : Service St) where
  -- Get
  unfoldable pub get : String → Action St InventoryError Part
  get raw = do
    part_uuid ← lift (parse_uuid uuids raw)
    service.tx_manager Part (service.get_part part_uuid)

  -- List
  unfoldable pub list : List String → PartType → Action St InventoryError (List Part)
  list raws part_type = do
    part_uuids ← lift (parse_uuids uuids raws [])
    service.tx_manager (List Part) (service.list_parts part_uuids part_type)
