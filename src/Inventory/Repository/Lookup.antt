-- ===== src/Inventory/Repository/Lookup.antt =====
-- inventory/internal/repository/part/list.go: a request by UUIDs answers with those parts in the order
-- of the request.
use mathlib.Core.List.{append-nil, append_assoc, Memᴰ}
use microservices_course.Common.{
  ◌≡◌, refl, sym, ap, ◌∙◌, Bool, true, false, Option, some, none, List, [], ◌∷◌, ◌++◌, Map, lookup,
  insert, lookup-insert, ◌==◌, nat_eq, if◌then◌else◌, Option-cases, inl, inr,
}
use microservices_course.Go.{Result, ok, err, sentinel, Uuid}
use microservices_course.Inventory.Errors.{InventoryError, part_not_found}
use microservices_course.Inventory.Model.{Part, PartRecord, PartType, part_to_model}
use microservices_course.Inventory.Repository.{
  PartsDb, Scanned, scanned, rows, where_uuid_any, list, scan_rows, index_by_uuid, order_parts,
  arrange, read_rows,
}

-- Rows that all scan.
abbrev pub good_rows : List PartRecord → List Scanned
good_rows [] = []
good_rows (r ∷ rs) = scanned r ∷ good_rows rs

abbrev pub to_models : List PartRecord → List Part
to_models [] = []
to_models (r ∷ rs) = part_to_model r ∷ to_models rs

abbrev pub or_else : {A : Type 0} → Option A → Option A → Option A
or_else none b = b
or_else (some a) b = some a

-- The last row with the UUID.
abbrev pub row_of : List PartRecord → Uuid → Option PartRecord
row_of [] u = none
row_of (r ∷ rs) u = or_else (row_of rs u) (if r.uuid == u then some r else none)

-- The database answers from a table, whose key is the UUID: asked for some UUIDs, it returns the
-- rows of the table with these, in any order.
pub record AnswersFrom (db : PartsDb) (table : Uuid → Option PartRecord) (us : List Uuid)
    : Type 0 where
  pub selected : List PartRecord
  pub reply : db.query (where_uuid_any us) ≡ rows (good_rows selected) none
  pub complete : (u : Uuid) → Memᴰ u us → row_of selected u ≡ table u

-- What the request should find in the table.
abbrev pub cons_part : Part → Result InventoryError (List Part) → Result InventoryError (List Part)
cons_part p (ok ps) = ok (p ∷ ps)
cons_part p (err e) = err e

abbrev pub pick_with :
    Option PartRecord → Result InventoryError (List Part) → Result InventoryError (List Part)
pick_with none rest = err (sentinel part_not_found)
pick_with (some r) rest = cons_part (part_to_model r) rest

abbrev pub pick : (Uuid → Option PartRecord) → List Uuid → Result InventoryError (List Part)
pick table [] = ok []
pick table (u ∷ us) = pick_with (table u) (pick table us)

-- Parts put in front of those that a loop finds.
abbrev prepend : List Part → Result InventoryError (List Part) → Result InventoryError (List Part)
prepend acc (ok ps) = ok (acc ++ ps)
prepend acc (err e) = err e

scan_good_rows :
    (rs : List PartRecord) (acc : List Part)
    → scan_rows (good_rows rs) none acc ≡ ok (acc ++ to_models rs)
unfolding scan_rows
scan_good_rows [] acc = ap ok (sym (append-nil acc))
scan_good_rows (r ∷ rs) acc =
    scan_good_rows rs (acc ++ part_to_model r ∷ [])
    ∙ ap ok (append_assoc acc (part_to_model r ∷ []) (to_models rs))

abbrev model_of : Option PartRecord → Option Part
model_of none = none
model_of (some r) = some (part_to_model r)

model_of-or_else :
    (a : Option PartRecord) (b : Bool) (r : PartRecord) (c : Option Part)
    → or_else (model_of a) (if b then some (part_to_model r) else c)
      ≡ or_else (model_of (or_else a (if b then some r else none))) c
model_of-or_else none true r c = refl
model_of-or_else none false r c = refl
model_of-or_else (some a) b r c = refl

or_else-none : (o : Option Part) → or_else o none ≡ o
or_else-none none = refl
or_else-none (some p) = refl

-- The map finds the last row with the UUID.
lookup-index :
    (rs : List PartRecord) (m : Map Part) (u : Uuid)
    → lookup u (index_by_uuid m (to_models rs)) ≡ or_else (model_of (row_of rs u)) (lookup u m)
unfolding index_by_uuid part_to_model
lookup-index [] m u = refl
lookup-index (r ∷ rs) m u =
    lookup-index rs (insert r.uuid (part_to_model r) m) u
    ∙ ap (or_else (model_of (row_of rs u))) (lookup-insert r.uuid u (part_to_model r) m)
    ∙ model_of-or_else (row_of rs u) (r.uuid == u) r (lookup u m)

prepend-cons :
    (acc : List Part) (p : Part) (rest : Result InventoryError (List Part))
    → prepend (acc ++ p ∷ []) rest ≡ prepend acc (cons_part p rest)
prepend-cons acc p (ok ps) = ap ok (append_assoc acc (p ∷ []) ps)
prepend-cons acc p (err e) = refl

order_parts-pick :
    (table : Uuid → Option PartRecord) (m : Map Part) (us : List Uuid) (acc : List Part)
    → ((u : Uuid) → Memᴰ u us → lookup u m ≡ model_of (table u))
    → order_parts m us acc ≡ prepend acc (pick table us)
unfolding order_parts
order_parts-pick table m [] acc h = ap ok (sym (append-nil acc))
order_parts-pick table m (u ∷ us) acc h = elim (Option-cases (table u)) [
  | inl e ↦ rw (h u (Memᴰ.head refl), order_parts) (rw e)
  | inr (r, e) ↦
      rw (h u (Memᴰ.head refl), order_parts)
        (rw e (
          order_parts-pick table m us (acc ++ part_to_model r ∷ []) (λ v i. h v (Memᴰ.tail i))
          ∙ prepend-cons acc (part_to_model r) (pick table us)))
]

prepend-nil : (r : Result InventoryError (List Part)) → prepend [] r ≡ r
prepend-nil (ok ps) = refl
prepend-nil (err e) = refl

-- From a database that answers from a table, a request for at least one UUID answers with the
-- parts of the table, in the order of the request, or with "part not found" if one is missing.
pub list-pick :
    (db : PartsDb) (sort_by_name : List Part → List Part) (part_type : PartType)
    (table : Uuid → Option PartRecord) (u : Uuid) (us : List Uuid)
    → AnswersFrom db table (u ∷ us)
    → list db sort_by_name (u ∷ us) part_type ≡ pick table (u ∷ us)
unfolding list lookup
list-pick db sort_by_name part_type table u us a =
    let m = index_by_uuid [] (to_models a.selected) in
    ap (λ q. arrange sort_by_name (u ∷ us) (read_rows q)) a.reply
    ∙ ap (arrange sort_by_name (u ∷ us)) (scan_good_rows a.selected [])
    ∙ order_parts-pick table m (u ∷ us) []
        (λ v i. lookup-index a.selected [] v ∙ or_else-none _ ∙ ap model_of (a.complete v i))
    ∙ prepend-nil _
