-- ===== src/Order/Repository/Views.antt =====
-- order/internal/service/order/deps.go: what the contract of the storage says of one order and of the
-- others.
use microservices_course.Common.{
  ◌≡◌, refl, sym, ap, ◌∙◌, inl, inr, Option, some, ◌==◌, nat_eq, Bool-cases, nat_beq_iff, false,
  if◌then◌else◌,
}
use microservices_course.Go.{Uuid}
use microservices_course.Order.Model.{Order}
use microservices_course.Order.Repository.{Kept, Put}

module _ {St : Type 0} {view : St → Uuid → Option Order} {Good : St → Type 0} where
  module _ {u : Uuid} {o : Order} {s t : St} (p : Put view Good u o s t) where
    -- What is put under a UUID is seen there, and nowhere else.
    pub Put_here : view t u ≡ some o
    Put_here = rw (p.shows u) (rw ((nat_beq_iff u u).1 refl))

    pub Put_elsewhere : (v : Uuid) → (u == v) ≡ false → view t v ≡ view s v
    Put_elsewhere v n = p.shows v ∙ ap (λ b. if b then some o else view s v) n

    pub Put-Kept : {w : St} → Kept view Good t w → Put view Good u o s w
    Put-Kept k = record { good = k.good; shows = λ v. k.shows v ∙ p.shows v }

    pub Put-Put : {o' : Order} {w : St} → Put view Good u o' t w → Put view Good u o' s w
    Put-Put {o' = o'} q = record {
      good = q.good;
      shows = λ v. elim (Bool-cases (u == v)) [
        | inl e ↦
            q.shows v
            ∙ ap (λ b. if b then some o' else view t v) e
            ∙ sym (ap (λ b. if b then some o' else view s v) e)
        | inr n ↦
            q.shows v
            ∙ ap (λ b. if b then some o' else view t v) n
            ∙ Put_elsewhere v n
            ∙ sym (ap (λ b. if b then some o' else view s v) n)
      ];
    }

    -- A write after a step that keeps the storage.
    pub Put_after : {r : St} → Kept view Good r s → Put view Good u o r t
    Put_after k = record {
      good = p.good;
      shows = λ v. p.shows v ∙ ap (λ x. if u == v then some o else x) (k.shows v);
    }
