-- ===== src/Proto/Catalog.antt =====
-- shared/pkg/proto/inventory/v1/inventory.pb.go: the messages of InventoryService. An enum is open:
-- any number may arrive.
use microservices_course.Common.{ℕ, String, List}
use microservices_course.Common.Int64.{Int64}
use microservices_course.Go.{Time}

-- PartType: an int32 in Go, here a number from zero.
abbrev pub PartType : Type 0
PartType = ℕ

abbrev pub part_type_unspecified : PartType
part_type_unspecified = 0

abbrev pub part_type_hull : PartType
part_type_hull = 1

abbrev pub part_type_engine : PartType
part_type_engine = 2

abbrev pub part_type_shield : PartType
part_type_shield = 3

abbrev pub part_type_weapon : PartType
part_type_weapon = 4

-- Part; `created_at` is a protobuf timestamp.
pub record Part : Type 0 where
  pub uuid : String
  pub name : String
  pub description : String
  pub price : Int64
  pub part_type : PartType
  pub stock_quantity : Int64
  pub created_at : Time

pub record GetPartRequest : Type 0 where
  pub uuid : String

pub record GetPartResponse : Type 0 where
  pub part : Part

pub record ListPartsRequest : Type 0 where
  pub part_type : PartType
  pub uuids : List String

pub record ListPartsResponse : Type 0 where
  pub parts : List Part
