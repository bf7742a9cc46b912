-- ===== src/Order/Model.antt =====
-- order/internal/model/order.go: the domain model of OrderService. The enumerations are strings, as
-- in the source, and a pointer that may be nil is an option.
pub mod Statuses
use microservices_course.Common.{String, string_eq, Option, List}
use microservices_course.Common.Int64.{Int64}
use microservices_course.Go.{Uuid, Time}

abbrev pub PaymentMethod : Type 0
PaymentMethod = String

abbrev pub method_card : PaymentMethod
method_card = "CARD"

abbrev pub method_sbp : PaymentMethod
method_sbp = "SBP"

abbrev pub method_credit_card : PaymentMethod
method_credit_card = "CREDIT_CARD"

abbrev pub method_investor_money : PaymentMethod
method_investor_money = "INVESTOR_MONEY"

abbrev pub OrderStatus : Type 0
OrderStatus = String

abbrev pub status_pending_payment : OrderStatus
status_pending_payment = "PENDING_PAYMENT"

abbrev pub status_payment_processing : OrderStatus
status_payment_processing = "PAYMENT_PROCESSING"

abbrev pub status_paid : OrderStatus
status_paid = "PAID"

abbrev pub status_cancelled : OrderStatus
status_cancelled = "CANCELLED"

abbrev pub PartType : Type 0
PartType = String

abbrev pub part_hull : PartType
part_hull = "HULL"

abbrev pub part_engine : PartType
part_engine = "ENGINE"

abbrev pub part_shield : PartType
part_shield = "SHIELD"

abbrev pub part_weapon : PartType
part_weapon = "WEAPON"

pub record Part : Type 0 where
  pub uuid : Uuid
  pub price : Int64
  pub stock_quantity : Int64

pub record OrderItem : Type 0 where
  pub part_uuid : Uuid
  pub part_type : PartType
  pub price : Int64

pub record CreateOrderInput : Type 0 where
  pub hull_uuid : Uuid
  pub engine_uuid : Uuid
  pub shield_uuid : Option Uuid
  pub weapon_uuid : Option Uuid

pub record CreateOrderResult : Type 0 where
  pub order_uuid : Uuid
  pub total_price : Int64

pub record Order : Type 0 where
  pub order_uuid : Uuid
  pub hull_uuid : Uuid
  pub engine_uuid : Uuid
  pub shield_uuid : Option Uuid
  pub weapon_uuid : Option Uuid
  pub total_price : Int64
  pub transaction_uuid : Option Uuid
  pub payment_method : Option PaymentMethod
  pub status : OrderStatus
  pub created_at : Time
  pub items : List OrderItem
