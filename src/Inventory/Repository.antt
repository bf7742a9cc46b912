-- ===== src/Inventory/Repository.antt =====
-- inventory/internal/repository/part: the catalogue in PostgreSQL. The database is a parameter: what
-- it returns for each query that the code sends.
pub mod Lookup
use microservices_course.Common.{
  String, not, Option, some, none, List, [], ◌∷◌, ◌++◌, Map, lookup, insert, ◌==◌, string_eq,
  if◌then◌else◌,
}
use microservices_course.Go.{Result, ok, err, sentinel, wrap, foreign, Uuid}
use microservices_course.Inventory.Errors.{InventoryError, part_not_found}
use microservices_course.Inventory.Model.{
  Part, PartRecord, PartType, part_to_model, type_unspecified,
}

-- QueryRow and Scan: no row, the row, or an error with its text.
pub data RowReply : Type 0 where
  no_rows : RowReply
  one_row : PartRecord → RowReply
  row_failed : String → RowReply

-- One round of `rows.Next` and `rows.Scan`.
pub data Scanned : Type 0 where
  scanned : PartRecord → Scanned
  scan_failed : String → Scanned

-- Query: an error, or the rows and what `rows.Err` says after them.
pub data RowsReply : Type 0 where
  query_failed : String → RowsReply
  rows : List Scanned → Option String → RowsReply

-- The queries of `List`, with their arguments.
pub data PartsQuery : Type 0 where
  all_parts : PartsQuery
  where_uuid_any : List Uuid → PartsQuery
  where_part_type : String → PartsQuery

pub record PartsDb : Type 0 where
  pub query_row : Uuid → RowReply
  pub query : PartsQuery → RowsReply

-- Get
unfoldable pub get : PartsDb → Uuid → Result InventoryError Part
unfolding part_to_model
get db uuid = elim (db.query_row uuid) [
  | no_rows ↦ err (sentinel part_not_found)
  | one_row part ↦ ok (part_to_model part)
  | row_failed text ↦ err (wrap "получить деталь" (foreign text))
]

-- The query that `List` builds.
unfoldable pub list_query : List Uuid → PartType → PartsQuery
list_query [] part_type =
    if not (part_type == type_unspecified) then where_part_type part_type else all_parts
list_query (u ∷ us) part_type = where_uuid_any (u ∷ us)

-- The loop over the rows.
unfoldable pub scan_rows :
    List Scanned → Option String → List Part → Result InventoryError (List Part)
scan_rows [] none parts = ok parts
scan_rows [] (some text) parts = err (wrap "прочитать список деталей" (foreign text))
scan_rows (scanned part ∷ rest) rows_err parts =
    scan_rows rest rows_err (parts ++ part_to_model part ∷ [])
scan_rows (scan_failed text ∷ rest) rows_err parts = err (wrap "прочитать деталь" (foreign text))

unfoldable pub read_rows : RowsReply → Result InventoryError (List Part)
read_rows (query_failed text) = err (wrap "получить список деталей" (foreign text))
read_rows (rows rs rows_err) = scan_rows rs rows_err []

-- The loop that fills `partsByUUID`.
unfoldable pub index_by_uuid : Map Part → List Part → Map Part
index_by_uuid m [] = m
index_by_uuid m (part ∷ parts) = index_by_uuid (insert part.uuid part m) parts

-- The loop that puts the parts in the order of the request.
unfoldable pub order_parts : Map Part → List Uuid → List Part → Result InventoryError (List Part)
order_parts m [] ordered = ok ordered
order_parts m (u ∷ us) ordered = elim (lookup u m) [
  | none ↦ err (sentinel part_not_found)
  | some part ↦ order_parts m us (ordered ++ part ∷ [])
]

-- What `List` does with the rows; `sort_by_name` is `sort.Slice` with the comparison of the names.
unfoldable pub arrange :
    (List Part → List Part)
    → List Uuid
    → Result InventoryError (List Part)
    → Result InventoryError (List Part)
arrange sort_by_name us (err e) = err e
arrange sort_by_name [] (ok parts) = ok (sort_by_name parts)
arrange sort_by_name (u ∷ us) (ok parts) = order_parts (index_by_uuid [] parts) (u ∷ us) []

-- List
unfoldable pub list :
    PartsDb → (List Part → List Part) → List Uuid → PartType → Result InventoryError (List Part)
unfolding list_query read_rows scan_rows arrange index_by_uuid order_parts part_to_model
list db sort_by_name uuids part_type =
    arrange sort_by_name uuids (read_rows (db.query (list_query uuids part_type)))
