-- ===== src/Order/Service/Create/Totality.antt =====
-- order/internal/service/order/create.go: `Create` always ends with an answer that its verdict
-- allows, and leaves the storage as the verdict says.
use microservices_course.Common.{
  ◌≡◌, refl, sym, ap, subst, ◌∙◌, Option, none, List, [], lookup, All, inl, inr, ◌%◌, ◌^◌, String,
  Map,
}
use microservices_course.Go.{Action, Uuid, UuidPackage, Time, Result, Result-cases, ok, err}
use microservices_course.Order.Errors.{OrderError}
use microservices_course.Order.Model.{CreateOrderInput, OrderItem, Part}
use microservices_course.Order.Repository.{RepositoryLaws, Kept, Put}
use microservices_course.Order.Repository.Views.{Put_after}
use microservices_course.Order.Service.Deps.{Service}
use microservices_course.Order.Service.Create.{
  create, requested_parts, part_uuids, index_parts, price_items, new_order,
}
use microservices_course.Order.Service.Create.Items.{
  Priced, Lacks, InStock, offered, sum_prices, total_from-sum, price_items_of_Priced,
  price_items_of_Lacks, index_parts_of_stock, index_parts_of_SoldOut, Priced-or-Lacks,
  InStock-or-SoldOut, Priced-of_offered, Lacks-of_offered, later_or-none,
}
use microservices_course.Order.Service.Create.Steps
use microservices_course.Order.Service.Create.Steps.{
  HasNil, IsWellFormed, HasNil-or-IsWellFormed, asked,
}
use microservices_course.Order.Service.Create.Verdict.{
  Verdict, Ends, has_nil, unanswered, sold_out, absent, no_uuid, created,
}

module _ {St : Type 0} (service : Service St) (laws : RepositoryLaws service.order_repo) where
  open service use {inventory_client, tx_manager}
  open laws use {view, Good, Accepts}

  -- The inventory client leaves the orders as they are.
  abbrev pub AsksOnly : Type 0
  AsksOnly = (raws : List String) (s : St) → Good s → Kept view Good s (inventory_client raws s).1

  -- The transaction manager runs the closure and, where it succeeds, commits. What it does with the
  -- changes of a closure that fails is open.
  abbrev pub Commits : Type 0
  Commits =
      (a : Action St OrderError (Unit {0})) (s : St) → (a s).0 ≡ ok tt → tx_manager Unit a s ≡ a s

  -- The storage takes every order that `Create` builds from this request.
  abbrev pub Takes : Time → CreateOrderInput → Type 0
  Takes now input =
      (f : Uuid → Option Part) (u : Uuid) (is : List OrderItem)
      → Priced f (requested_parts input) is
      → Accepts (new_order input u now is (sum_prices is % 2 ^ 64))

module _ {St : Type 0} (uuids : UuidPackage) (service : Service St)
    (laws : RepositoryLaws service.order_repo) (asks : AsksOnly service laws)
    (commits : Commits service laws) (fresh : Result OrderError Uuid) (now : Time)
    (input : CreateOrderInput) (takes : Takes service laws now input) (s : St) (good : laws.Good s)
    (unused : (u : Uuid) → fresh ≡ ok u → laws.view s u ≡ none) where
  open service use {order_repo}
  open laws use {view, Good}

  abbrev ResultOf : Type 0
  ResultOf =
      Ends view Good now input (asked uuids service fresh now input s).0 fresh s
        (create uuids service fresh now input s)

  -- The state that the inventory client leaves.
  abbrev after : St
  after = (asked uuids service fresh now input s).1

  kept : Kept view Good s after
  kept = asks (part_uuids uuids (requested_parts input)) s good

  -- A run that stops before the order is stored.
  stops :
      {e : _}
      → Verdict now input (asked uuids service fresh now input s).0 fresh (err e, none)
      → create uuids service fresh now input s ≡ (err e, after)
      → ResultOf
  stops {e} v run = record {
    answer = (err e, none);
    verdict = v;
    returns = ap (λ x. x.0) run;
    leaves = subst (λ x. Kept view Good s x) (sym (ap (λ x. x.1) run)) kept;
  }

  module _ (valid : IsWellFormed input) (parts : List Part)
      (reply : (asked uuids service fresh now input s).0 ≡ ok parts)
      (stock : All InStock parts) where
    by_uuid :
        (m : Map Part) × (index_parts [] parts ≡ ok m) × ((u : Uuid) → lookup u m ≡ offered parts u)
    unfolding lookup
    by_uuid =
        let (m, e, q) = index_parts_of_stock [] parts stock in
        (m, e, λ u. q u ∙ later_or-none (offered parts u))

    ends_lacking : Lacks (offered parts) (requested_parts input) → ResultOf
    ends_lacking l =
        let (m, indexed, finds) = by_uuid in
        stops (absent valid reply stock l) (
          Steps.create_of_unpriced uuids service fresh now input s valid parts reply m indexed _ (
            price_items_of_Lacks m (requested_parts input) [] 0
              (Lacks-of_offered (offered parts) (λ u. lookup u m) finds l)))

    module _ (items : List OrderItem)
        (h : Priced (offered parts) (requested_parts input) items) where
      priced :
          price_items by_uuid.0 (requested_parts input) [] 0 ≡ ok (items, sum_prices items % 2 ^ 64)
      priced =
          price_items_of_Priced by_uuid.0 (requested_parts input) [] items 0
            (Priced-of_offered (offered parts) (λ u. lookup u by_uuid.0) by_uuid.2 h)
          ∙ ap (λ t. ok (items, t)) (total_from-sum items)

      ends_created : (u : Uuid) → fresh ≡ ok u → ResultOf
      ends_created u e =
          let o = new_order input u now items (sum_prices items % 2 ^ 64) in
          let (written, (shown, mirrors, put)) =
            laws.create_lem o after kept.good (takes (offered parts) u items h)
              (kept.shows u ∙ unused u e) in
          let commit = commits (order_repo.create o) after written in
          let run =
            Steps.create_of_stored uuids service fresh now input s valid parts reply by_uuid.0
              by_uuid.1 items _ priced u e (ap (λ x. x.0) commit ∙ written) in
          record {
            answer = _;
            verdict = created valid reply stock h e;
            returns = ap (λ x. x.0) run;
            leaves = (
              shown,
              mirrors,
              subst (λ x. Put view Good u shown s x)
                  (sym (ap (λ x. x.1) run ∙ ap (λ x. x.1) commit)) (Put_after put kept),
            );
          }

      ends_priced : ResultOf
      ends_priced = elim (Result-cases fresh) [
        | inl (u, e) ↦ ends_created u e
        | inr (x, e) ↦ stops (no_uuid valid reply stock h e) (
            Steps.create_of_no_uuid uuids service fresh now input s valid parts reply by_uuid.0
              by_uuid.1 items _ priced x e)
      ]

    ends_in_stock : ResultOf
    ends_in_stock = elim (Priced-or-Lacks (offered parts) (requested_parts input)) [
      | inl (items, h) ↦ ends_priced items h
      | inr l ↦ ends_lacking l
    ]

  ends_answered :
      IsWellFormed input
      → (parts : List Part) → (asked uuids service fresh now input s).0 ≡ ok parts
      → ResultOf
  ends_answered valid parts reply = elim (InStock-or-SoldOut parts) [
    | inl stock ↦ ends_in_stock valid parts reply stock
    | inr l ↦ stops (sold_out valid reply l) (
        Steps.create_of_unindexed uuids service fresh now input s valid parts reply _
          (index_parts_of_SoldOut [] parts l))
  ]

  ends_nil : HasNil input → ResultOf
  ends_nil h =
      let run = Steps.create_of_nil uuids service fresh now input s h in
      record {
        answer = _;
        verdict = has_nil h;
        returns = ap (λ x. x.0) run;
        leaves =
            subst (λ x. Kept view Good s x) (sym (ap (λ x. x.1) run))
              (record { good = good; shows = λ v. refl });
      }

  -- Over a storage that keeps its contract and takes the order, with an inventory client that
  -- leaves the orders alone, a transaction manager that commits and a random UUID that is unused:
  -- for every request, every reply of the inventory and every outcome of the random generator,
  -- Create ends with an answer that the verdict allows; on success the storage shows the new
  -- order, with the priced items in some order, the total modulo 2 ^ 64 and its time as the
  -- storage keeps it, and on an error it shows what it showed.
  pub create-Ends :
      Ends view Good now input
        (asked uuids service fresh now input s).0
        fresh
        s
        (create uuids service fresh now input s)
  create-Ends = elim (HasNil-or-IsWellFormed input) [
    | inl h ↦ ends_nil h
    | inr valid ↦ elim (Result-cases (asked uuids service fresh now input s).0) [
      | inl (parts, reply) ↦ ends_answered valid parts reply
      | inr (e, reply) ↦
          stops (unanswered valid reply)
            (Steps.create_of_unanswered uuids service fresh now input s valid e reply)
    ]
  ]
