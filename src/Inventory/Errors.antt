-- ===== src/Inventory/Errors.antt =====
-- inventory/internal/errors/errors.go: the sentinels of InventoryService.
use microservices_course.Common.{ℕ, String, ◌==◌, nat_eq}
use microservices_course.Go.{Sentinel, Err}

pub data InventoryError : Type 0 where
  part_not_found invalid_uuid : InventoryError

abbrev tag : InventoryError → ℕ
tag part_not_found = 0
tag invalid_uuid = 1

abbrev message : InventoryError → String
message part_not_found = "деталь не найдена"
message invalid_uuid = "неверный формат UUID"

instance abbrev pub inventory_sentinel : Sentinel InventoryError
inventory_sentinel = record { same = λ a b. tag a == tag b; message = message }

abbrev pub Error : Type 0
Error = Err InventoryError
