-- ===== src/Order/Postgres/Statements.antt =====
-- order/internal/repository/order/repository.go: the statements that the code sends to PostgreSQL, and
-- what it reads of the replies. The database is a parameter.
use microservices_course.Common.{ℕ, String, Bool, Option, List}
use microservices_course.Common.Int64.{Int64}
use microservices_course.Go.{Uuid, Time}
use microservices_course.Order.Model.{OrderStatus}
use microservices_course.Order.Records.{ItemRecord}

-- A row of the first query of `Get`; the transaction is read as text, and a NULL is `none`.
pub record OrderRow : Type 0 where
  pub order_uuid : Uuid
  pub status : String
  pub transaction_uuid : Option String
  pub payment_method : Option String
  pub created_at : Time

-- QueryRow and Scan: no row, the row, or an error with its text.
pub data RowReply : Type 0 where
  no_rows : RowReply
  one_row : OrderRow → RowReply
  row_failed : String → RowReply

-- One round of `rows.Next` and `rows.Scan`.
pub data Scanned : Type 0 where
  scanned : ItemRecord → Scanned
  scan_failed : String → Scanned

-- Query: an error, or the rows and what `rows.Err` says after them.
pub data RowsReply : Type 0 where
  query_failed : String → RowsReply
  rows : List Scanned → Option String → RowsReply

-- Exec of an UPDATE: `RowsAffected`, or an error.
pub data UpdateReply : Type 0 where
  affected : ℕ → UpdateReply
  update_failed : String → UpdateReply

-- SELECT EXISTS
pub data ExistsReply : Type 0 where
  exists : Bool → ExistsReply
  exists_failed : String → ExistsReply

-- The statements, with their arguments in the order of `$1, $2, ...`. An INSERT returns the text of
-- its error, if any.
pub record OrdersDb (St : Type 0) : Type 0 where
  pub insert_order : Uuid → String → Time → St → Option String × St
  pub insert_item : Uuid → Uuid → String → Int64 → St → Option String × St
  pub select_order : Uuid → St → RowReply × St
  pub select_items : Uuid → St → RowsReply × St
  pub update_status : Uuid → OrderStatus → OrderStatus → St → UpdateReply × St
  pub update_paid : Uuid → OrderStatus → Uuid → String → OrderStatus → St → UpdateReply × St
  pub select_exists : Uuid → St → ExistsReply × St
