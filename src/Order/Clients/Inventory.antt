-- ===== src/Order/Clients/Inventory.antt =====
-- order/internal/client/grpc/inventory/v1: the client of InventoryService. The gRPC call is a
-- parameter.
use microservices_course.Common.{String, none, some, List, [], ◌∷◌}
use microservices_course.Go.{
  Action, UuidPackage, Result, ok, err, sentinel, wrap, foreign, Status, invalid_argument,
  not_found, internal, other, Reply, response, failed,
}
use microservices_course.Proto.Catalog
use microservices_course.Proto.Catalog.{ListPartsRequest, ListPartsResponse, part_type_unspecified}
use microservices_course.Order.Errors.{OrderError, Error, part_not_found, invalid_uuid}
use microservices_course.Order.Model.{Part}

-- PartsToModel: a part whose UUID does not parse is skipped.
unfoldable pub parts_to_model : UuidPackage → List Catalog.Part → List Part
parts_to_model uuids [] = []
parts_to_model uuids (part ∷ parts) = elim (uuids.parse part.uuid) [
  | none ↦ parts_to_model uuids parts
  | some u ↦
      record { uuid = u; price = part.price; stock_quantity = part.stock_quantity }
      ∷ parts_to_model uuids parts
]

-- The `switch` on the code of a failed call; `rpc_text` is the text of the error that the gRPC package
-- makes of a status.
abbrev pub list_parts_error : (Status → String) → Status → Error
list_parts_error rpc_text status = elim status.code [
  | not_found ↦ sentinel part_not_found
  | invalid_argument ↦ sentinel invalid_uuid
  | internal ↦ wrap "получить список деталей" (foreign (rpc_text status))
  | other ↦ wrap "получить список деталей" (foreign (rpc_text status))
]

unfoldable pub read_parts :
    UuidPackage → (Status → String) → Reply ListPartsResponse → Result OrderError (List Part)
unfolding parts_to_model
read_parts uuids rpc_text (failed status) = err (list_parts_error rpc_text status)
read_parts uuids rpc_text (response resp) = ok (parts_to_model uuids resp.parts)

-- ListParts
unfoldable pub list_parts :
    {St : Type 0}
    → UuidPackage
    → (Status → String)
    → (ListPartsRequest → St → Reply ListPartsResponse × St)
    → List String
    → Action St OrderError (List Part)
unfolding read_parts
list_parts uuids rpc_text call raws s =
    let (reply, t) = call (record { part_type = part_type_unspecified; uuids = raws }) s in
    (read_parts uuids rpc_text reply, t)
