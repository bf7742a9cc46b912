-- ===== src/Order/Threads/Payments.antt =====
-- order/internal/service/order/pay.go: the payments that PaymentService stores, against what the
-- payment client reports of them.
use microservices_course.Common.{
  ℕ, ◌+◌, ◌≤◌, ◌≡◌, ap, arith, List, [], ◌∷◌, ◌==◌, nat_eq, if◌then◌else◌, inl, inr, nat-cases,
  refl, sym, subst,
}
use microservices_course.Go.{Uuid, UuidPackage}
use microservices_course.Order.Repository.{RepositoryLaws}
use microservices_course.Order.Service.Deps.{Service}
use microservices_course.Order.Threads.{
  World, Step, begin, refuse, accept, lose, decline, reset, finish, leave, cancel_order, get_order,
  create_order, Reach, here, next,
}
use microservices_course.Order.Threads.Ledger.{Charged, now, before, ChargedOnce}

-- How many of the payments are for the order `u`.
abbrev pub count : Uuid → List (Uuid × Uuid) → ℕ
count u [] = 0
count u ((v, tx) ∷ ps) = (if v == u then 1 else 0) + count u ps

count_of_none :
    (u : Uuid) (cs : List (Uuid × Uuid)) → ((tx : Uuid) → Charged u tx cs → ⊥) → count u cs ≡ 0
count_of_none u [] h = refl
count_of_none u ((v, tx) ∷ cs) h = elim (nat-cases v u) [
  | inl e ↦ absurd (h tx (now (ap (λ x. (x, tx)) e)))
  | inr n ↦ let rest = count_of_none u cs (λ x c. h x (before c)) in rw n (omega arith)
]

pub count-ChargedOnce : (u : Uuid) (cs : List (Uuid × Uuid)) → ChargedOnce cs → count u cs ≤ 1
count-ChargedOnce u [] once = omega arith
count-ChargedOnce u ((v, tx) ∷ cs) once = elim (nat-cases v u) [
  | inl e ↦
      let rest = count_of_none u cs (λ x c. once.0 x (subst (λ y. Charged y x cs) (sym e) c)) in
      ground arith
  | inr n ↦ let rest = count-ChargedOnce u cs once.1 in rw n (omega arith)
]

-- Every payment that is stored is reported or lost.
abbrev pub IsBalanced : {St : Type 0} → World St → Type 0
IsBalanced w = (u : Uuid) → count u w.payments ≡ count u w.charges + count u w.lost

module _ {St : Type 0} (uuids : UuidPackage) (service : Service St)
    (laws : RepositoryLaws service.order_repo) where
  Step-IsBalanced : {w x : World St} → IsBalanced w → Step uuids service laws w x → IsBalanced x
  Step-IsBalanced h (begin t u m o s free run) = h
  Step-IsBalanced h (refuse t u m e s free run) = h
  Step-IsBalanced h (accept t u tx m o busy) = λ v. grind (arith, h v)
  Step-IsBalanced h (lose t u tx m o e busy) = λ v. grind (arith, h v)
  Step-IsBalanced h (decline t u m o e busy) = h
  Step-IsBalanced h (reset t u e r s at_t run) = h
  Step-IsBalanced h (finish t u tx m r s at_t run) = h
  Step-IsBalanced h (leave t r at_t) = h
  Step-IsBalanced h (cancel_order u) = h
  Step-IsBalanced h (get_order u) = h
  Step-IsBalanced h (create_order o fresh takes pending) = h

  pub Reach-IsBalanced :
      {w x : World St} → IsBalanced w → Reach uuids service laws w x → IsBalanced x
  Reach-IsBalanced h here = h
  Reach-IsBalanced h (next r st) = Step-IsBalanced (Reach-IsBalanced h r) st
