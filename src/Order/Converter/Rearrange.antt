-- ===== src/Order/Converter/Rearrange.antt =====
-- order/internal/repository/converter/order.go: `OrderToModel` gives the same columns in whatever order
-- the items of an order are listed, where they are for different slots.
use mathlib.Core.List.{Permᴰ}
use mathlib.Core.List.Permᴰ
use microservices_course.Common.{
  ℕ, ◌≡◌, refl, subst, Bool, true, false, Bool-cases, inl, inr, Option, some, String, if◌then◌else◌,
  sym, ap, ◌∙◌, arith, eq_iff, List, [], ◌∷◌, All, All-Permᴰ, ◌==◌, string_eq,
}
use microservices_course.Common.Int64.{add}
use microservices_course.Go.{Uuid}
use microservices_course.Order.Model.{
  Order, OrderItem, part_hull, part_engine, part_shield, part_weapon,
}
use microservices_course.Order.Converter.Loop.{from_items, rebuild, add_item, reset_parts}

-- Two items for different slots.
abbrev pub Apart : OrderItem → OrderItem → Type 0
Apart i j = (i.part_type == j.part_type) ≡ false

-- Each item is for a slot of its own.
abbrev pub AllApart : List OrderItem → Type 0
AllApart [] = Unit
AllApart (i ∷ is) = All (Apart i) is × AllApart is

Apart-sym : (i j : OrderItem) → Apart i j → Apart j i
Apart-sym i j h = ground (arith, eq_iff i.part_type j.part_type, eq_iff j.part_type i.part_type)

AllApart-Permᴰ : {is js : List OrderItem} → Permᴰ is js → AllApart is → AllApart js
AllApart-Permᴰ Permᴰ.nil h = h
AllApart-Permᴰ (Permᴰ.cons {a} {b} {l₂ = l} e p) (x, h) =
    (subst (λ i. All (Apart i) l) e (All-Permᴰ (Apart a) p x), AllApart-Permᴰ p h)
AllApart-Permᴰ (Permᴰ.swap {a} {b} {a'} {b'} {l} d e) ((x, y), (z, h)) =
    subst (λ v. All (Apart v) (b' ∷ l) × (All (Apart b') l × AllApart l)) e
      (subst (λ v. (Apart b v × All (Apart b) l) × (All (Apart v) l × AllApart l)) d
        ((Apart-sym a b x, z), (y, h)))
AllApart-Permᴰ (Permᴰ.trans p q) h = AllApart-Permᴰ q (AllApart-Permᴰ p h)

add_swap : (t a b : ℕ) → add (add t a) b ≡ add (add t b) a
unfolding add
add_swap t a b = omega arith

-- The slots of a type, tested one by one.
abbrev choose : {A : Type 0} → Bool → A → A → A
choose b x y = if b then x else y

abbrev with_parts : Order → ℕ → Uuid → Uuid → Option Uuid → Option Uuid → Order
with_parts o total hull engine shield weapon = record o {
  total_price = total;
  hull_uuid = hull;
  engine_uuid = engine;
  shield_uuid = shield;
  weapon_uuid = weapon;
}

-- One round of the loop, column by column.
abbrev add_columns : Order → OrderItem → Order
add_columns o i =
    with_parts o (add o.total_price i.price)
      (choose (i.part_type == part_hull) i.part_uuid o.hull_uuid)
      (choose (i.part_type == part_engine) i.part_uuid o.engine_uuid)
      (choose (i.part_type == part_shield) (some i.part_uuid) o.shield_uuid)
      (choose (i.part_type == part_weapon) (some i.part_uuid) o.weapon_uuid)

-- Only one of the tests holds.
one_of : (t c d : String) → (t == c) ≡ true → (c == d) ≡ false → (t == d) ≡ false
one_of t c d h n = ground (arith, eq_iff t c, eq_iff t d, eq_iff c d)

add_item-columns : (o : Order) (i : OrderItem) → add_item o i ≡ add_columns o i
unfolding add_item
add_item-columns o i = elim (Bool-cases (i.part_type == part_hull)) [
  | inl e ↦
      rw
        (
          e,
          one_of _ part_hull part_engine e refl,
          one_of _ part_hull part_shield e refl,
          one_of _ part_hull part_weapon e refl,
        )
        refl
  | inr n ↦ elim (Bool-cases (i.part_type == part_engine)) [
    | inl e ↦
        rw (n, e, one_of _ part_engine part_shield e refl, one_of _ part_engine part_weapon e refl)
          refl
    | inr m ↦ elim (Bool-cases (i.part_type == part_shield)) [
      | inl e ↦ rw (n, m, e, one_of _ part_shield part_weapon e refl) refl
      | inr k ↦ elim (Bool-cases (i.part_type == part_weapon)) [
        | inl e ↦ rw (n, m, k, e) refl
        | inr l ↦ rw (n, m, k, l) refl
      ]
    ]
  ]
]

choose_swap :
    {A : Type 0} (b c : Bool) (x y z : A)
    → (b ≡ true → c ≡ false)
    → choose c y (choose b x z) ≡ choose b x (choose c y z)
choose_swap true true x y z h = cc (h refl)
choose_swap true false x y z h = refl
choose_swap false c x y z h = refl

add_item_swap :
    (o : Order) (i j : OrderItem)
    → Apart i j
    → add_item (add_item o i) j ≡ add_item (add_item o j) i
add_item_swap o i j h =
    add_item-columns (add_item o i) j
    ∙ ap (λ v. add_columns v j) (add_item-columns o i)
    ∙ columns
    ∙ sym (add_item-columns (add_item o j) i ∙ ap (λ v. add_columns v i) (add_item-columns o j))
  where
    both : (c : String) → (i.part_type == c) ≡ true → (j.part_type == c) ≡ false
    both c e =
        ground
          (arith, eq_iff i.part_type c, eq_iff j.part_type c, eq_iff i.part_type j.part_type, h)

    columns : add_columns (add_columns o i) j ≡ add_columns (add_columns o j) i
    columns = λ k.
        with_parts o (add_swap o.total_price i.price j.price k)
          (choose_swap (i.part_type == part_hull) (j.part_type == part_hull) i.part_uuid j.part_uuid
            o.hull_uuid (both part_hull) k)
          (choose_swap (i.part_type == part_engine) (j.part_type == part_engine) i.part_uuid
            j.part_uuid o.engine_uuid (both part_engine) k)
          (choose_swap (i.part_type == part_shield) (j.part_type == part_shield) (some i.part_uuid)
            (some j.part_uuid) o.shield_uuid (both part_shield) k)
          (choose_swap (i.part_type == part_weapon) (j.part_type == part_weapon) (some i.part_uuid)
            (some j.part_uuid) o.weapon_uuid (both part_weapon) k)

-- The loop over a rearranged list.
rebuild-Permᴰ :
    (o : Order) {is js : List OrderItem} → Permᴰ is js → AllApart is → rebuild o is ≡ rebuild o js
unfolding rebuild
rebuild-Permᴰ o Permᴰ.nil h = refl
rebuild-Permᴰ o (Permᴰ.cons {a} {b} {l₁ = l} e p) (x, h) =
    ap (λ v. rebuild (add_item o v) l) e ∙ rebuild-Permᴰ (add_item o b) p h
rebuild-Permᴰ o (Permᴰ.swap {a} {b} {a'} {b'} {l} d e) ((x, y), (z, h)) =
    ap (λ v. rebuild v l)
      (add_item_swap o a b x
        ∙ ap (λ v. add_item (add_item o v) a) e
        ∙ ap (λ v. add_item (add_item o a') v) d)
rebuild-Permᴰ o (Permᴰ.trans p q) h = rebuild-Permᴰ o p h ∙ rebuild-Permᴰ o q (AllApart-Permᴰ p h)

-- The columns and the total that the items determine do not depend on the order of the items.
pub from_items-Permᴰ :
    (o : Order) (is js : List OrderItem)
    → Permᴰ is js
    → AllApart is
    → from_items o is ≡ from_items o js
from_items-Permᴰ o [] [] p h = refl
from_items-Permᴰ o [] (j ∷ js) p h = absurd (All-Permᴰ (λ i. ⊥) p tt).0
from_items-Permᴰ o (i ∷ is) [] p h = absurd (All-Permᴰ (λ i. ⊥) (Permᴰ.symm p) tt).0
from_items-Permᴰ o (i ∷ is) (j ∷ js) p h = rebuild-Permᴰ (reset_parts o) p h
