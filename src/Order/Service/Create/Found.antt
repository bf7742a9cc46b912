-- ===== src/Order/Service/Create/Found.antt =====
-- order/internal/service/order/create.go with get.go: an order that `Create` has answered can be read.
use microservices_course.Common.{◌≡◌, sym, ap, ◌∙◌, arith, some, none, List, nat_eq, string_eq}
use microservices_course.Go.{Uuid, UuidPackage, Time, Result, ok, err}
use microservices_course.Order.Errors.{OrderError, Error}
use microservices_course.Order.Model.{
  CreateOrderInput, CreateOrderResult, Order, Part, status_pending_payment,
}
use microservices_course.Order.Repository.{RepositoryLaws}
use microservices_course.Order.Repository.Views.{Put_here}
use microservices_course.Order.Service.Deps.{Service}
use microservices_course.Order.Service.Pay.{get}
use microservices_course.Order.Service.Create.{create}
use microservices_course.Order.Service.Create.Verdict.{
  Answer, Verdict, Stored, has_nil, unanswered, sold_out, absent, no_uuid, created,
}
use microservices_course.Order.Service.Create.Totality.{AsksOnly, Commits, Takes, create-Ends}

err_not_ok : {A : Type 0} {e : Error} {a : A} → err e ≡ ok a → ⊥
err_not_ok {A} {e} {a} q = ground arith

module _ {St : Type 0} (uuids : UuidPackage) (service : Service St)
    (laws : RepositoryLaws service.order_repo) where
  open laws use {view, Good}

  -- `Get` finds the order of the answer: pending, with the requested parts and the answered total.
  pub record Found (input : CreateOrderInput) (r : CreateOrderResult) (t : St) : Type 0 where
    pub order : Order
    pub reads : (get uuids service r.order_uuid t).0 ≡ ok order
    pub total : order.total_price ≡ r.total_price
    pub pending : order.status ≡ status_pending_payment
    pub hull : order.hull_uuid ≡ input.hull_uuid
    pub engine : order.engine_uuid ≡ input.engine_uuid
    pub shield : order.shield_uuid ≡ input.shield_uuid
    pub weapon : order.weapon_uuid ≡ input.weapon_uuid

  abbrev uuid_of : Result OrderError CreateOrderResult → Uuid
  uuid_of (ok r) = r.order_uuid
  uuid_of (err e) = 0

  abbrev total_of : Result OrderError CreateOrderResult → Uuid
  total_of (ok r) = r.total_price
  total_of (err e) = 0

  seen_under : {u v : Uuid} {o : Order} (t : St) → u ≡ v → view t u ≡ some o → view t v ≡ some o
  seen_under t e q = ap (view t) (sym e) ∙ q

  Found_lem :
      {now : Time} {input : CreateOrderInput} {reply : Result OrderError (List Part)}
      {fresh : Result OrderError Uuid} {a : Answer} (s t : St) (r : CreateOrderResult)
      → Verdict now input reply fresh a
      → a.0 ≡ ok r
      → Stored view Good a.1 s t
      → Found input r t
  unfolding get
  Found_lem s t r (has_nil h) e put = absurd (err_not_ok e)
  Found_lem s t r (unanswered v h) e put = absurd (err_not_ok e)
  Found_lem s t r (sold_out v h l) e put = absurd (err_not_ok e)
  Found_lem s t r (absent v h l p) e put = absurd (err_not_ok e)
  Found_lem s t r (no_uuid v h l p q) e put = absurd (err_not_ok e)
  Found_lem s t r (created v h l p q) e (shown, mirrors, put) = record {
    order = shown;
    reads =
        (laws.get_found r.order_uuid t shown put.good
          (seen_under t (ap uuid_of e) (Put_here put))).0;
    total = ap (λ x. x.total_price) mirrors.same ∙ ap total_of e;
    pending = ap (λ x. x.status) mirrors.same;
    hull = ap (λ x. x.hull_uuid) mirrors.same;
    engine = ap (λ x. x.engine_uuid) mirrors.same;
    shield = ap (λ x. x.shield_uuid) mirrors.same;
    weapon = ap (λ x. x.weapon_uuid) mirrors.same;
  }

module _ {St : Type 0} (uuids : UuidPackage) (service : Service St)
    (laws : RepositoryLaws service.order_repo) (asks : AsksOnly service laws)
    (commits : Commits service laws) (fresh : Result OrderError Uuid) (now : Time)
    (input : CreateOrderInput) (takes : Takes service laws now input) (s : St) (good : laws.Good s)
    (unused : (u : Uuid) → fresh ≡ ok u → laws.view s u ≡ none) where
  -- Over a storage that keeps its contract and takes the order, with an inventory client that
  -- leaves the orders alone, a transaction manager that commits and a random UUID that is unused:
  -- where Create answers with an order, Get then finds it, pending, with the requested parts and
  -- the answered total.
  pub create-Found :
      (r : CreateOrderResult)
      → (create uuids service fresh now input s).0 ≡ ok r
      → Found uuids service laws input r (create uuids service fresh now input s).1
  create-Found r e =
      let done = create-Ends uuids service laws asks commits fresh now input takes s good unused in
      Found_lem uuids service laws s _ r done.verdict (sym done.returns ∙ e) done.leaves
