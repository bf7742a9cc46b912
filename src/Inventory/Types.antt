-- ===== src/Inventory/Types.antt =====
-- inventory/internal/converter/part.go: the type of a part between the protobuf message and the model.
use microservices_course.Common.{
  ◌≡◌, refl, ◌∙◌, arith, ◌==◌, nat_eq, string_eq, leb, if◌then◌else◌, Bool, true, false,
}
use microservices_course.Proto.Catalog
use microservices_course.Inventory.Model.{
  type_unspecified, type_hull, type_engine, type_shield, type_weapon,
}
use microservices_course.Inventory.Api.{part_type_to_proto, part_type_to_model}

-- The number of a type, or that of "unspecified".
abbrev pub known : Catalog.PartType → Catalog.PartType
known n = if leb n 4 then n else 0

-- The answers of the two conversions, by the tests of the first.
part_type_to_proto_of_tests :
    (a b c d : Bool)
    → part_type_to_proto (
        if a
        then type_hull
        else if b
        then type_engine
        else if c
        then type_shield
        else if d
        then type_weapon
        else type_unspecified)
      ≡ (if a then 1 else if b then 2 else if c then 3 else if d then 4 else 0)
unfolding part_type_to_proto
part_type_to_proto_of_tests true b c d = refl
part_type_to_proto_of_tests false true c d = refl
part_type_to_proto_of_tests false false true d = refl
part_type_to_proto_of_tests false false false true = refl
part_type_to_proto_of_tests false false false false = refl

known_of_tests :
    (n : Catalog.PartType)
    → (if n == 1 then 1 else if n == 2 then 2 else if n == 3 then 3 else if n == 4 then 4 else 0)
      ≡ known n
known_of_tests n = ground arith

-- The number of a part type comes back as itself through both conversions, and any other number
-- comes back as that of the unspecified type.
pub part_type_to_proto-part_type_to_model :
    (n : Catalog.PartType) → part_type_to_proto (part_type_to_model n) ≡ known n
unfolding part_type_to_model
part_type_to_proto-part_type_to_model n = part_type_to_proto_of_tests _ _ _ _ ∙ known_of_tests n
