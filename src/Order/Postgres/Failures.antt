-- ===== src/Order/Postgres/Failures.antt =====
-- order/internal/repository/order/repository.go: a statement that fails.
use microservices_course.Common.{
  ◌≡◌, refl, ap, sym, subst, ◌∙◌, arith, Option, some, none, String, List, [], ◌∷◌, ◌++◌, Bool,
  true, false, Option-cases, inl, inr,
}
use microservices_course.Go.{Uuid, UuidPackage, Result, ok, err, wrap, foreign}
use microservices_course.Order.Errors.{OrderError}
use microservices_course.Order.Model.{OrderItem}
use microservices_course.Order.Postgres.{OrdersDb, create_items}

module _ {St : Type 0} (uuids : UuidPackage) (parse_failure : String → String)
    (db : OrdersDb St) where
  abbrev pub inserted : Uuid → OrderItem → St → Option String × St
  inserted u i s = db.insert_item u i.part_uuid i.part_type i.price s

  step :
      (u : Uuid) (i : OrderItem) (is : List OrderItem) (s : St)
      → create_items uuids parse_failure db u (i ∷ is) s ≡ (elim (inserted u i s).0 [
        | none ↦ create_items uuids parse_failure db u is (inserted u i s).1
        | some text ↦ (err (wrap "создать позицию заказа" (foreign text)), (inserted u i s).1)
      ])
  unfolding create_items
  step u i is s = ground arith

  is_ok : Result OrderError (Unit {0}) → Bool
  is_ok (ok _) = true
  is_ok (err _) = false

  step_of_inserted :
      (u : Uuid) (i : OrderItem) (is : List OrderItem) (s : St)
      → (inserted u i s).0 ≡ none
      → create_items uuids parse_failure db u (i ∷ is) s
        ≡ create_items uuids parse_failure db u is (inserted u i s).1
  step_of_inserted u i is s q = step u i is s ∙ rw q refl

  step_of_failed :
      (u : Uuid) (i : OrderItem) (is : List OrderItem) (s : St) (text : String)
      → (inserted u i s).0 ≡ some text
      → create_items uuids parse_failure db u (i ∷ is) s
        ≡ (err (wrap "создать позицию заказа" (foreign text)), (inserted u i s).1)
  step_of_failed u i is s text q = step u i is s ∙ rw q refl

  nothing : (u : Uuid) (s : St) → create_items uuids parse_failure db u [] s ≡ (ok tt, s)
  unfolding create_items
  nothing u s = refl

  -- Where the items before one are inserted and the INSERT of that one fails, the loop of Create
  -- answers with the wrapped error and sends no statement for the items after it.
  pub create_items-stops :
      (u : Uuid) (before : List OrderItem) (i : OrderItem) (after : List OrderItem) (s : St)
      (text : String)
      → (create_items uuids parse_failure db u before s).0 ≡ ok tt
      → (inserted u i (create_items uuids parse_failure db u before s).1).0 ≡ some text
      → create_items uuids parse_failure db u (before ++ i ∷ after) s ≡ (
        err (wrap "создать позицию заказа" (foreign text)),
        (inserted u i (create_items uuids parse_failure db u before s).1).1,
      )
  unfolding is_ok
  create_items-stops u [] i after s text e f =
      subst
        (λ r.
          (inserted u i r.1).0 ≡ some text
          → create_items uuids parse_failure db u (i ∷ after) s
            ≡ (err (wrap "создать позицию заказа" (foreign text)), (inserted u i r.1).1))
        (sym (nothing u s)) (step_of_failed u i after s text) f
  create_items-stops u (x ∷ before) i after s text e f = elim (Option-cases (inserted u x s).0) [
    | inl q ↦
        let m = step_of_inserted u x before s q in
        step_of_inserted u x (before ++ i ∷ after) s q
        ∙ create_items-stops u before i after (inserted u x s).1 text (ap (λ r. r.0) (sym m) ∙ e)
            (subst (λ r. (inserted u i r.1).0 ≡ some text) m f)
        ∙ ap (λ r. (err (wrap "создать позицию заказа" (foreign text)), (inserted u i r.1).1))
            (sym m)
    | inr (bad, q) ↦ absurd (
        false_not_true (ap (λ r. is_ok r.0) (sym (step_of_failed u x before s bad q)) ∙ ap is_ok e))
  ]
    where
      false_not_true : false ≡ true → ⊥
      false_not_true p = ground arith
