-- ===== src/Order/Postgres/Reread.antt =====
-- order/internal/repository/order/repository.go with order/internal/repository/converter/order.go: the
-- order that `Get` makes of the rows that `Create` has written.
use mathlib.Core.List.{Permᴰ}
use mathlib.Core.List.Permᴰ
use microservices_course.Common.{
  ◌≡◌, refl, sym, ap, subst, ◌∙◌, none, List, [], ◌∷◌, map, All-Permᴰ,
}
use microservices_course.Go.{UuidPackage, Time}
use microservices_course.Order.Model.{Order, OrderItem}
use microservices_course.Order.Records.{ItemRecord}
use microservices_course.Order.Converter.{
  order_to_model, order_items_to_model, order_items_to_record, items_round_trip, from_items,
  reset_parts, rebuild, IsConsistent, AllApart, from_items-Permᴰ, from_items-dated, dated, stamp,
  item_to_model,
}
use microservices_course.Order.Repository.{Mirrors}
use microservices_course.Order.Postgres.Steps.{order_of}
use microservices_course.Order.Postgres.Insert.{PartsApart}
use microservices_course.Order.Postgres.Tables.{StoredRow}

-- An order that the INSERTs of `Create` write whole.
pub record IsInsertable (o : Order) : Type 0 where
  pub unpaid : o.transaction_uuid ≡ none
  pub no_method : o.payment_method ≡ none
  pub first : OrderItem
  pub rest : List OrderItem
  pub listed : o.items ≡ first ∷ rest
  pub consistent : IsConsistent o
  pub slots : AllApart o.items
  pub parts : PartsApart o.items

abbrev pub fresh_row : Order → Time → StoredRow
fresh_row o at = record {
  status = o.status;
  transaction_uuid = none;
  payment_method = none;
  created_at = at;
}

order_items_to_model-map : (is : List ItemRecord) → order_items_to_model is ≡ map item_to_model is
unfolding order_items_to_model
order_items_to_model-map [] = refl
order_items_to_model-map (i ∷ is) = ap (λ js. item_to_model i ∷ js) (order_items_to_model-map is)

order_items_to_model-Permᴰ :
    (is : List OrderItem) (rs : List ItemRecord)
    → Permᴰ (order_items_to_record is) rs
    → Permᴰ is (order_items_to_model rs)
order_items_to_model-Permᴰ is rs p =
    subst (λ js. Permᴰ js (order_items_to_model rs)) (items_round_trip is)
      (subst (λ js. Permᴰ js (order_items_to_model rs))
        (sym (order_items_to_model-map (order_items_to_record is)))
        (subst (λ js. Permᴰ (map item_to_model (order_items_to_record is)) js)
          (sym (order_items_to_model-map rs)) (Permᴰ.map item_to_model p)))

-- What is read back, where the items come in the order `js`.
from_items_of_row :
    (uuids : UuidPackage) (o : Order) (at : Time) (rs : List ItemRecord) (j : OrderItem)
    (js : List OrderItem)
    → o.transaction_uuid ≡ none
    → o.payment_method ≡ none
    → order_items_to_model rs ≡ j ∷ js
    → order_of uuids o.order_uuid rs (fresh_row o at) ≡ from_items (dated o (j ∷ js) at) (j ∷ js)
unfolding order_to_model
from_items_of_row uuids o at rs j js tx method e = rw e (λ k.
    rebuild (reset_parts (dated (stamp o o.status (sym tx k) (sym method k)) (j ∷ js) at)) (j ∷ js))

nonempty :
    (i : OrderItem) (is js : List OrderItem)
    → Permᴰ (i ∷ is) js
    → (j : OrderItem) × (k : List OrderItem) × (js ≡ j ∷ k)
nonempty i is (j ∷ js) p = (j, js, refl)
nonempty i is [] p = absurd (All-Permᴰ (λ x. ⊥) (Permᴰ.symm p) tt).0

-- The rows of an insertable order are read back as the order, up to the order of its items and what
-- the database keeps of its time.
pub order_of-Mirrors :
    (uuids : UuidPackage) (o : Order) (at : Time) (rs : List ItemRecord)
    → IsInsertable o
    → Permᴰ (order_items_to_record o.items) rs
    → Mirrors o (order_of uuids o.order_uuid rs (fresh_row o at))
order_of-Mirrors uuids o at rs h p =
    let q : Permᴰ o.items (order_items_to_model rs) = order_items_to_model-Permᴰ o.items rs p in
    let (j, js, e) =
      nonempty h.first h.rest _ (subst (λ is. Permᴰ is (order_items_to_model rs)) h.listed q) in
    let arranged : Permᴰ o.items (j ∷ js) = subst (λ ks. Permᴰ o.items ks) e q in
    let whole : order_of uuids o.order_uuid rs (fresh_row o at) ≡ dated o (j ∷ js) at =
      from_items_of_row uuids o at rs j js h.unpaid h.no_method e
      ∙ from_items-dated o (j ∷ js) (j ∷ js) at
      ∙ ap (λ v. dated v (j ∷ js) at)
          (sym (from_items-Permᴰ o o.items (j ∷ js) arranged h.slots) ∙ h.consistent) in
    record {
      rearranged = subst (λ v. Permᴰ o.items v.items) (sym whole) arranged;
      same = whole ∙ (λ k. dated o (sym whole k).items (sym whole k).created_at);
    }
