-- ===== src/Order/Service/Create/Items.antt =====
-- order/internal/service/order/create.go: what the two loops of `Create` compute.
use mathlib.Core.List.{append_assoc, append-nil}
use microservices_course.Common.{
  ℕ, ◌+◌, ◌%◌, ◌^◌, ◌<◌, ◌≡◌, refl, sym, ap, ◌∙◌, Bool, true, false, Option, some, none, List, [],
  ◌∷◌, ◌++◌, Map, lookup, insert, lookup-insert, ◌==◌, nat_eq, if◌then◌else◌, All, ◌⊎◌, arith,
  Option-cases, inl, inr, Bool-cases,
}
use microservices_course.Common.Int64.{Int64, pos, signed, add, le_zero}
use microservices_course.Go.{Uuid, ok, err, sentinel}
use microservices_course.Order.Errors.{out_of_stock, part_not_found}
use microservices_course.Order.Model.{OrderItem, Part}
use microservices_course.Order.Service.Create.{RequestedPart, index_parts, price_items, new_item}

-- The items are those of the requested parts, in order, at the prices of the catalogue.
pub data Priced (by_uuid : Uuid → Option Part) : List RequestedPart → List OrderItem → Type 0 where
  none_left : Priced by_uuid [] []
  next_part :
      {r : RequestedPart} {p : Part} {rs : List RequestedPart} {is : List OrderItem}
      → by_uuid r.uuid ≡ some p
      → Priced by_uuid rs is
      → Priced by_uuid (r ∷ rs) (new_item r p ∷ is)

-- The running total, as int64.
abbrev pub total_from : Int64 → List OrderItem → Int64
total_from t [] = t
total_from t (i ∷ is) = total_from (add t i.price) is

-- The sum of the prices, as a number.
abbrev pub sum_prices : List OrderItem → ℕ
sum_prices [] = 0
sum_prices (i ∷ is) = i.price + sum_prices is

-- The total is the sum of the prices modulo 2 ^ 64.
pub total_from-eq :
    (t : Int64) (is : List OrderItem) → t < 2 ^ 64 → total_from t is ≡ (t + sum_prices is) % 2 ^ 64
unfolding add
total_from-eq t [] h = omega arith
total_from-eq t (i ∷ is) h = total_from-eq (add t i.price) is (omega arith) ∙ omega arith

pub total_from-sum : (is : List OrderItem) → total_from 0 is ≡ sum_prices is % 2 ^ 64
total_from-sum is = total_from-eq 0 is (omega arith) ∙ omega arith

-- Where every requested part is in the catalogue, the loop gives the items and their total.
pub price_items_of_Priced :
    (m : Map Part) (rs : List RequestedPart) (acc is : List OrderItem) (t : Int64)
    → Priced (λ u. lookup u m) rs is
    → price_items m rs acc t ≡ ok (acc ++ is, total_from t is)
unfolding price_items
price_items_of_Priced m [] acc is t none_left = rw append-nil
price_items_of_Priced m (r ∷ rs) acc is t (next_part {p = p} {is = js} e h) =
    rw (e, price_items)
      (price_items_of_Priced m rs (acc ++ new_item r p ∷ []) js (add t p.price) h
        ∙ ap (λ l. ok (l, total_from (add t p.price) js)) (append_assoc acc (new_item r p ∷ []) js))

-- Where every requested part is in the catalogue and the prices add up to less than 2 ^ 63, the
-- loop gives the parts as items, in order, and the exact sum of their prices, as int64 reads it.
pub price_items-exact :
    (m : Map Part) (rs : List RequestedPart) (is : List OrderItem)
    → Priced (λ u. lookup u m) rs is
    → sum_prices is < 2 ^ 63
    → (price_items m rs [] 0 ≡ ok (is, sum_prices is))
      × (signed (sum_prices is) ≡ pos (sum_prices is))
price_items-exact m rs is h bound = (
  price_items_of_Priced m rs [] is 0 h
      ∙ ap (λ t. ok (is, t)) (total_from-sum is ∙ small_mod (sum_prices is) bound),
  signed_of_small (sum_prices is) bound,
)
  where
    small_mod : (n : ℕ) → n < 2 ^ 63 → n % 2 ^ 64 ≡ n
    small_mod n b = omega arith

    signed_of_small : (n : ℕ) → n < 2 ^ 63 → signed n ≡ pos n
    signed_of_small n b = ground arith

-- A requested part that the catalogue lacks.
pub data Lacks (by_uuid : Uuid → Option Part) : List RequestedPart → Type 0 where
  lacks_here :
      {r : RequestedPart} {rs : List RequestedPart} → by_uuid r.uuid ≡ none → Lacks by_uuid (r ∷ rs)
  lacks_later :
      {r : RequestedPart} {rs : List RequestedPart} → Lacks by_uuid rs → Lacks by_uuid (r ∷ rs)

pub Priced-or-Lacks :
    (f : Uuid → Option Part) (rs : List RequestedPart)
    → ((is : List OrderItem) × Priced f rs is) ⊎ Lacks f rs
Priced-or-Lacks f [] = inl ([], none_left)
Priced-or-Lacks f (r ∷ rs) = elim (Option-cases (f r.uuid)) [
  | inl e ↦ inr (lacks_here e)
  | inr (p, e) ↦ elim (Priced-or-Lacks f rs) [
    | inl (is, h) ↦ inl (new_item r p ∷ is, next_part e h)
    | inr l ↦ inr (lacks_later l)
  ]
]

pub price_items_of_Lacks :
    (m : Map Part) (rs : List RequestedPart) (acc : List OrderItem) (t : Int64)
    → Lacks (λ u. lookup u m) rs
    → price_items m rs acc t ≡ err (sentinel part_not_found)
unfolding price_items
price_items_of_Lacks m [] acc t l = elim l [ ]
price_items_of_Lacks m (r ∷ rs) acc t (lacks_here e) = rw (e, price_items)
price_items_of_Lacks m (r ∷ rs) acc t (lacks_later l) = elim (Option-cases (lookup r.uuid m)) [
  | inl e ↦ rw (e, price_items)
  | inr (p, e) ↦ rw (e, price_items) (price_items_of_Lacks m rs _ _ l)
]

-- The part that the reply offers under a UUID: the last one with it.
abbrev pub later_or : Option Part → Option Part → Option Part
later_or none p = p
later_or (some q) p = some q

abbrev pub offered : List Part → Uuid → Option Part
offered [] u = none
offered (p ∷ ps) u = later_or (offered ps u) (if p.uuid == u then some p else none)

abbrev pub InStock : Part → Type 0
InStock p = le_zero p.stock_quantity ≡ false

later_or_assoc : (a b c : Option Part) → later_or (later_or a b) c ≡ later_or a (later_or b c)
later_or_assoc none b c = refl
later_or_assoc (some a) b c = refl

later_or-if :
    (b : Bool) (p : Part) (c : Option Part)
    → later_or (if b then some p else none) c ≡ (if b then some p else c)
later_or-if true p c = refl
later_or-if false p c = refl

-- If every part of the reply is in stock, the loop ends and its map finds what the reply offers.
pub index_parts_of_stock :
    (m : Map Part) (ps : List Part)
    → All InStock ps
    → (m' : Map Part) × (index_parts m ps ≡ ok m')
      × ((u : Uuid) → lookup u m' ≡ later_or (offered ps u) (lookup u m))
unfolding index_parts
index_parts_of_stock m [] h = (m, refl, λ u. refl)
index_parts_of_stock m (p ∷ ps) (h, hs) =
    let (m', e, q) = index_parts_of_stock (insert p.uuid p m) ps hs in
    (
      m',
      rw h e,
      λ u.
          q u
          ∙ ap (later_or (offered ps u))
              (lookup-insert p.uuid u p m ∙ sym (later_or-if (p.uuid == u) p _))
          ∙ sym (later_or_assoc (offered ps u) _ _),
    )

-- A part that is out of stock.
pub data SoldOut : List Part → Type 0 where
  sold_out_here : {p : Part} {ps : List Part} → le_zero p.stock_quantity ≡ true → SoldOut (p ∷ ps)
  sold_out_later : {p : Part} {ps : List Part} → SoldOut ps → SoldOut (p ∷ ps)

pub InStock-or-SoldOut : (ps : List Part) → All InStock ps ⊎ SoldOut ps
InStock-or-SoldOut [] = inl tt
InStock-or-SoldOut (p ∷ ps) = elim (Bool-cases (le_zero p.stock_quantity)) [
  | inl sold ↦ inr (sold_out_here sold)
  | inr stock ↦ elim (InStock-or-SoldOut ps) [
    | inl h ↦ inl (stock, h)
    | inr l ↦ inr (sold_out_later l)
  ]
]

pub index_parts_of_SoldOut :
    (m : Map Part) (ps : List Part) → SoldOut ps → index_parts m ps ≡ err (sentinel out_of_stock)
unfolding index_parts
index_parts_of_SoldOut m [] l = elim l [ ]
index_parts_of_SoldOut m (p ∷ ps) (sold_out_here e) = rw e
index_parts_of_SoldOut m (p ∷ ps) (sold_out_later l) =
    elim (Bool-cases (le_zero p.stock_quantity)) [
      | inl e ↦ rw e
      | inr e ↦ rw e (index_parts_of_SoldOut (insert p.uuid p m) ps l)
    ]

-- The map that the code builds finds what the reply offers.
pub Priced-of_offered :
    (f g : Uuid → Option Part) {rs : List RequestedPart} {is : List OrderItem}
    → ((u : Uuid) → g u ≡ f u)
    → Priced f rs is
    → Priced g rs is
Priced-of_offered f g h none_left = none_left
Priced-of_offered f g h (next_part {r = r} e p) =
    next_part (h r.uuid ∙ e) (Priced-of_offered f g h p)

pub Lacks-of_offered :
    (f g : Uuid → Option Part) {rs : List RequestedPart}
    → ((u : Uuid) → g u ≡ f u)
    → Lacks f rs
    → Lacks g rs
Lacks-of_offered f g h (lacks_here {r = r} e) = lacks_here (h r.uuid ∙ e)
Lacks-of_offered f g h (lacks_later l) = lacks_later (Lacks-of_offered f g h l)

pub later_or-none : (p : Option Part) → later_or p none ≡ p
later_or-none none = refl
later_or-none (some p) = refl
