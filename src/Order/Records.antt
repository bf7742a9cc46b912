-- ===== src/Order/Records.antt =====
-- order/internal/repository/record/order.go: an order as the in-memory storage holds it.
use microservices_course.Common.{String, Option, List}
use microservices_course.Common.Int64.{Int64}
use microservices_course.Go.{Uuid, Time}

pub record ItemRecord : Type 0 where
  pub part_uuid : Uuid
  pub part_type : String
  pub price : Int64

pub record OrderRecord : Type 0 where
  pub order_uuid : Uuid
  pub hull_uuid : Uuid
  pub engine_uuid : Uuid
  pub shield_uuid : Option Uuid
  pub weapon_uuid : Option Uuid
  pub total_price : Int64
  pub transaction_uuid : Option Uuid
  pub payment_method : Option String
  pub status : String
  pub created_at : Time
  pub items : List ItemRecord
