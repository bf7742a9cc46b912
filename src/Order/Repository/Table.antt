-- ===== src/Order/Repository/Table.antt =====
-- order/internal/service/order/deps.go: the contract of the storage as a table of orders, each of
-- which goes through the machine of Order.Repository.Machine on its own.
use microservices_course.Common.{
  ◌≡◌, refl, ap, subst, ◌∙◌, Option, some, none, List, [], ◌∷◌, ◌==◌, nat_eq, if◌then◌else◌,
}
use microservices_course.Go.{Uuid}
use microservices_course.Order.Model.{Order}
use microservices_course.Order.Repository.{OrderRepository, RepositoryLaws}
use microservices_course.Order.Repository.Machine.{
  Answer, Call, call, calls, step, Effect, call-step,
}

-- The table after a write under `u`, if there is one.
abbrev pub written : Uuid → Option Order → (Uuid → Option Order) → Uuid → Option Order
written u none table v = table v
written u (some o) table v = if u == v then some o else table v

-- The answers of a table to a sequence of calls.
unfoldable pub replies : List (Call × Uuid) → (Uuid → Option Order) → List Answer
replies [] table = []
replies ((c, u) ∷ rest) table =
    let (answer, order) = step c (table u) in answer ∷ replies rest (written u order table)

module _ {St : Type 0} {r : OrderRepository St} (laws : RepositoryLaws r) where
  open laws use {view, Good}

  after :
      (u : Uuid) (w : Option Order) {s t : St} (table : Uuid → Option Order)
      → ((v : Uuid) → view s v ≡ table v)
      → Effect laws u w s t
      → Good t × ((v : Uuid) → view t v ≡ written u w table v)
  after u none table shows k = (k.good, λ v. k.shows v ∙ shows v)
  after u (some o) table shows k =
      (k.good, λ v. k.shows v ∙ ap (λ x. if u == v then some o else x) (shows v))

  -- A storage that keeps the contract answers every sequence of calls as the table that it shows.
  pub calls-replies :
      (cs : List (Call × Uuid)) (s : St) (table : Uuid → Option Order)
      → Good s
      → ((v : Uuid) → view s v ≡ table v)
      → calls r cs s ≡ replies cs table
  unfolding calls replies
  calls-replies [] s table good shows = refl
  calls-replies ((c, u) ∷ cs) s table good shows =
      let (answer, effect) =
        subst (λ w. ((call r c u s).0 ≡ w.0) × Effect laws u w.1 s (call r c u s).1)
          (ap (step c) (shows u)) (call-step laws u s good c) in
      let (good', shows') = after u (step c (table u)).1 table shows effect in
      rw answer (
        ap (λ xs. (step c (table u)).0 ∷ xs)
          (calls-replies cs _ (written u (step c (table u)).1 table) good' shows'))
