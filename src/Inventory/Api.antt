-- ===== src/Inventory/Api.antt =====
-- inventory/internal/api/inventory/v1 and inventory/internal/converter/part.go: the gRPC handlers.
use microservices_course.Common.{◌==◌, nat_eq, string_eq, List, [], ◌∷◌, if◌then◌else◌}
use microservices_course.Go.{
  UuidPackage, Time, Result, ok, err, is, error_text, Status, Reply, response, failed,
  invalid_argument, not_found, internal,
}
use microservices_course.Proto.Catalog
use microservices_course.Proto.Catalog.{
  GetPartRequest, GetPartResponse, ListPartsRequest, ListPartsResponse,
}
use microservices_course.Inventory.Errors.{
  InventoryError, Error, inventory_sentinel, invalid_uuid, part_not_found,
}
use microservices_course.Inventory.Model.{
  Part, PartType, type_unspecified, type_hull, type_engine, type_shield, type_weapon,
}
use microservices_course.Inventory.Service.{Service, get, list}
use Prim.Native.String.{◌++◌}

-- PartTypeToProto
unfoldable pub part_type_to_proto : PartType → Catalog.PartType
part_type_to_proto part_type =
    if part_type == type_hull
    then Catalog.part_type_hull
    else if part_type == type_engine
    then Catalog.part_type_engine
    else if part_type == type_shield
    then Catalog.part_type_shield
    else if part_type == type_weapon
    then Catalog.part_type_weapon
    else Catalog.part_type_unspecified

-- PartTypeToModel
unfoldable pub part_type_to_model : Catalog.PartType → PartType
part_type_to_model part_type =
    if part_type == Catalog.part_type_hull
    then type_hull
    else if part_type == Catalog.part_type_engine
    then type_engine
    else if part_type == Catalog.part_type_shield
    then type_shield
    else if part_type == Catalog.part_type_weapon
    then type_weapon
    else type_unspecified

-- partErrorToStatus
unfoldable pub part_error_to_status : Error → Status
part_error_to_status e =
    if is e invalid_uuid
    then record { code = invalid_argument; text = error_text e }
    else if is e part_not_found
    then record { code = not_found; text = error_text e }
    else record { code = internal; text = "внутренняя ошибка: " ++ error_text e }

-- `timestamp` is timestamppb.New.
module _ (uuids : UuidPackage) (timestamp : Time → Time) where
  -- PartToProto
  unfoldable pub part_to_proto : Part → Catalog.Part
  unfolding part_type_to_proto
  part_to_proto part = record {
    uuid = uuids.to_string part.uuid;
    name = part.name;
    description = part.description;
    price = part.price;
    part_type = part_type_to_proto part.part_type;
    stock_quantity = part.stock_quantity;
    created_at = timestamp part.created_at;
  }

  -- PartsToProto
  unfoldable pub parts_to_proto : List Part → List Catalog.Part
  parts_to_proto [] = []
  parts_to_proto (part ∷ parts) = part_to_proto part ∷ parts_to_proto parts

  -- What each handler replies, by what the service returns.
  unfoldable pub get_part_reply : Result InventoryError Part → Reply GetPartResponse
  get_part_reply (err e) = failed (part_error_to_status e)
  get_part_reply (ok part) = response (record { part = part_to_proto part })

  unfoldable pub list_parts_reply : Result InventoryError (List Part) → Reply ListPartsResponse
  list_parts_reply (err e) = failed (part_error_to_status e)
  list_parts_reply (ok parts) = response (record { parts = parts_to_proto parts })

  module _ {St : Type 0} (service : Service St) where
    -- GetPart
    unfoldable pub get_part : GetPartRequest → St → Reply GetPartResponse × St
    get_part req s = let (r, t) = get uuids service req.uuid s in (get_part_reply r, t)

    -- ListParts
    unfoldable pub list_parts : ListPartsRequest → St → Reply ListPartsResponse × St
    list_parts req s =
        let (r, t) = list uuids service req.uuids (part_type_to_model req.part_type) s in
        (list_parts_reply r, t)
