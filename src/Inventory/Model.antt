-- ===== src/Inventory/Model.antt =====
-- inventory/internal/model/part.go, inventory/internal/repository/record/part.go and
-- inventory/internal/repository/converter/part.go: a part, and the row that stores it.
use microservices_course.Common.{String}
use microservices_course.Common.Int64.{Int64}
use microservices_course.Go.{Uuid, Time}

abbrev pub PartType : Type 0
PartType = String

abbrev pub type_unspecified : PartType
type_unspecified = "UNSPECIFIED"

abbrev pub type_hull : PartType
type_hull = "HULL"

abbrev pub type_engine : PartType
type_engine = "ENGINE"

abbrev pub type_shield : PartType
type_shield = "SHIELD"

abbrev pub type_weapon : PartType
type_weapon = "WEAPON"

pub record Part : Type 0 where
  pub uuid : Uuid
  pub name : String
  pub description : String
  pub price : Int64
  pub part_type : PartType
  pub stock_quantity : Int64
  pub created_at : Time

pub record PartRecord : Type 0 where
  pub uuid : Uuid
  pub name : String
  pub description : String
  pub price : Int64
  pub part_type : String
  pub stock_quantity : Int64
  pub created_at : Time

-- PartToModel
unfoldable pub part_to_model : PartRecord → Part
part_to_model part = record {
  uuid = part.uuid;
  name = part.name;
  description = part.description;
  price = part.price;
  part_type = part.part_type;
  stock_quantity = part.stock_quantity;
  created_at = part.created_at;
}

-- PartToRecord
unfoldable pub part_to_record : Part → PartRecord
part_to_record part = record {
  uuid = part.uuid;
  name = part.name;
  description = part.description;
  price = part.price;
  part_type = part.part_type;
  stock_quantity = part.stock_quantity;
  created_at = part.created_at;
}
