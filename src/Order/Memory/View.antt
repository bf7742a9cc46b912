-- ===== src/Order/Memory/View.antt =====
-- order/internal/repository/order/memory.go: what a reader of the in-memory storage sees.
use mathlib.Core.Option
use microservices_course.Common.{
  ◌≡◌, ◌≢◌, refl, sym, ap, ◌∙◌, true, false, some, none, Option, ◌==◌, nat_eq, string_eq,
  if◌then◌else◌, inl, inr, Bool-cases, lookup, insert, lookup-insert, arith, eq_iff, String,
}
use microservices_course.Go.{Uuid}
use microservices_course.Order.Model.{Order}
use microservices_course.Order.Records.{OrderRecord}
use microservices_course.Order.Converter.{order_to_model, to_model_keeps}
use microservices_course.Order.Repository.{Kept, Put}
use microservices_course.Order.Memory.{MemoryRepository}

-- The order that a reader sees under a UUID.
abbrev pub view : MemoryRepository → Uuid → Option Order
view m u = Option.map order_to_model (lookup u m)

-- Each record stands under its own UUID.
abbrev pub IsKeyed : MemoryRepository → Type 0
IsKeyed m = (u : Uuid) (r : OrderRecord) → lookup u m ≡ some r → r.order_uuid ≡ u

insert-IsKeyed :
    (u : Uuid) (r : OrderRecord) (m : MemoryRepository)
    → IsKeyed m
    → r.order_uuid ≡ u
    → IsKeyed (insert u r m)
insert-IsKeyed u r m h e v q l = ground (arith, lookup-insert u v r m, h v q)

view-insert :
    (u v : Uuid) (r : OrderRecord) (m : MemoryRepository)
    → view (insert u r m) v ≡ (if u == v then some (order_to_model r) else view m v)
view-insert u v r m = ground (arith, lookup-insert u v r m)

-- Writing a record under its UUID.
pub Put-insert :
    (u : Uuid) (r : OrderRecord) (o : Order) (m : MemoryRepository)
    → IsKeyed m
    → r.order_uuid ≡ u
    → order_to_model r ≡ o
    → Put view IsKeyed u o m (insert u r m)
Put-insert u r o m h e q = record {
  good = insert-IsKeyed u r m h e;
  shows = λ v. rw (view-insert, q);
}

pub Kept-refl : (m : MemoryRepository) → IsKeyed m → Kept view IsKeyed m m
Kept-refl m h = record { good = h; shows = λ v. refl }

-- What a reader sees comes from a record with the same key and status.
pub record Shown (m : MemoryRepository) (u : Uuid) (o : Order) : Type 0 where
  pub row : OrderRecord
  pub found : lookup u m ≡ some row
  pub shows : order_to_model row ≡ o
  pub keyed : row.order_uuid ≡ u
  pub status_lem : row.status ≡ o.status

pub shown :
    (m : MemoryRepository) (u : Uuid) {o : Order} → IsKeyed m → view m u ≡ some o → Shown m u o
shown m u h e =
    let (r, found, shows) = (Option.map-eq-some_iff order_to_model (lookup u m)).0 e in
    record {
      row = r;
      found = found;
      shows = shows;
      keyed = h u r found;
      status_lem = sym (to_model_keeps r).1 ∙ ap (λ x. x.status) shows;
    }

pub hidden : (m : MemoryRepository) (u : Uuid) → view m u ≡ none → lookup u m ≡ none
hidden m u e = (Option.map-eq-none_iff order_to_model (lookup u m)).0 e

pub eq_of_status : (s t : String) → s ≡ t → (s == t) ≡ true
eq_of_status s t e = (eq_iff s t).1 e

pub ne_of_status : (s t : String) → s ≢ t → (s == t) ≡ false
ne_of_status s t h = elim (Bool-cases (s == t)) [
  | inl e ↦ absurd (h ((eq_iff s t).0 e))
  | inr e ↦ e
]
