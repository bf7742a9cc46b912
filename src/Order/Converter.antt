-- ===== src/Order/Converter.antt =====
-- order/internal/repository/converter/order.go: between an order and its record.
mod Loop
mod RoundTrip
mod Rearrange
pub use Loop.*
pub use RoundTrip.*
pub use Rearrange.*
unfoldable pub use Loop.{
  order_items_to_model, order_items_to_record, order_to_model, order_to_record, rebuild, add_item,
}
