-- ===== src/Payment/History.antt =====
-- payment/internal/service/payment/service.go: what a sequence of requests to pay leaves in the table,
-- by their answers.
use microservices_course.Common.{
  String, ◌≡◌, refl, sym, subst, arith, true, false, Option, some, none, List, [], ◌∷◌, inl, inr,
  ◌⊎◌, ◌==◌, nat_eq, string_eq, Bool-cases, text-cases,
}
use microservices_course.Go.{Uuid, UuidPackage, nil_uuid, Time, Result, Result-cases, ok, err}
use microservices_course.Payment.Errors.{PaymentError}
use microservices_course.Payment.Model.{
  Payment, PaymentMethod, method_card, method_sbp, method_credit_card, method_investor_money,
}
use microservices_course.Payment.Service.{is_valid_payment_method, pay_order}
use microservices_course.Payment.Charge.{over, row, pay_order_spec, pay_order-eq}

-- A request, with what the random generator and the clock give for it.
pub record Call : Type 0 where
  pub raw_order_uuid : String
  pub method : PaymentMethod
  pub fresh : Result PaymentError Uuid
  pub now : Time

-- The payment that a request is for, under the transaction that answers it.
pub record IsPaymentOf (uuids : UuidPackage) (c : Call) (transaction : String) (p : Payment)
    : Type 0 where
  pub answered : transaction ≡ uuids.to_string p.transaction_uuid
  pub drawn : c.fresh ≡ ok p.transaction_uuid
  pub parsed : uuids.parse c.raw_order_uuid ≡ some p.order_uuid
  pub real : (p.order_uuid == nil_uuid) ≡ false
  pub same_method : p.payment_method ≡ c.method
  pub known :
      (c.method ≡ method_card)
      ⊎ (c.method ≡ method_sbp)
      ⊎ (c.method ≡ method_credit_card)
      ⊎ (c.method ≡ method_investor_money)
  pub dated : p.created_at ≡ c.now

-- A request that is answered with a transaction has added its payment to the table; one that is
-- answered with an error has left the table as it was.
abbrev pub Recorded :
    UuidPackage → Call → Result PaymentError String → List Payment → List Payment → Type 0
Recorded uuids c (ok transaction) before after =
    (p : Payment) × IsPaymentOf uuids c transaction p × (after ≡ p ∷ before)
Recorded uuids c (err e) before after = after ≡ before

-- The table before and after some requests, one after another.
pub data History (uuids : UuidPackage) (before : List Payment)
    : List Call → List (Result PaymentError String) → List Payment → Type 0 where
  silent : History uuids before [] [] before
  then_one :
      {cs : List Call} {rs : List (Result PaymentError String)} {between after : List Payment}
      {c : Call} {r : Result PaymentError String}
      → History uuids before cs rs between
      → Recorded uuids c r between after
      → History uuids before (c ∷ cs) (r ∷ rs) after

known_of_valid :
    (m : PaymentMethod)
    → is_valid_payment_method m ≡ true
    → (m ≡ method_card) ⊎ (m ≡ method_sbp) ⊎ (m ≡ method_credit_card) ⊎ (m ≡ method_investor_money)
unfolding is_valid_payment_method
known_of_valid m h = elim (text-cases m method_card) [
  | inl e ↦ inl e
  | inr n1 ↦ elim (text-cases m method_sbp) [
    | inl e ↦ inr (inl e)
    | inr n2 ↦ elim (text-cases m method_credit_card) [
      | inl e ↦ inr (inr (inl e))
      | inr n3 ↦ elim (text-cases m method_investor_money) [
        | inl e ↦ inr (inr (inr e))
        | inr n4 ↦ ground arith
      ]
    ]
  ]
]

module _ {St : Type 0} (uuids : UuidPackage) (exec : Payment → St → Option String × St)
    (stored : St → List Payment) where
  -- An INSERT adds its row, or fails and adds nothing.
  abbrev pub Inserts : Type 0
  Inserts =
      (p : Payment) (s : St)
      → (((exec p s).0 ≡ none) × (stored (exec p s).1 ≡ p ∷ stored s))
        ⊎ ((text : String) × ((exec p s).0 ≡ some text) × (stored (exec p s).1 ≡ stored s))

  abbrev pub answer : Call → St → Result PaymentError String × St
  answer c s = pay_order uuids (over exec) c.fresh c.now c.raw_order_uuid c.method s

  -- The requests, the last of the list first.
  abbrev pub answers : List Call → St → List (Result PaymentError String) × St
  answers [] s = ([], s)
  answers (c ∷ cs) s =
      let earlier = answers cs s in let this = answer c earlier.1 in (this.0 ∷ earlier.0, this.1)

  module _ (inserts : Inserts) (c : Call) (s : St) where
    abbrev RecordedBy : Result PaymentError String × St → Type 0
    RecordedBy run = Recorded uuids c run.0 (stored s) (stored run.1)

    abbrev spec : Option Uuid → Result PaymentError String × St
    spec o = pay_order_spec exec uuids c.fresh c.now o c.method s

    spec_recorded_row :
        (u tx : Uuid)
        → uuids.parse c.raw_order_uuid ≡ some u
        → (u == nil_uuid) ≡ false
        → is_valid_payment_method c.method ≡ true
        → c.fresh ≡ ok tx
        → RecordedBy (spec (some u))
    spec_recorded_row u tx e real valid f =
        let p = row tx c.now u c.method in
        elim (inserts p s) [
          | inl (done, added) ↦
              rw (real, valid, f, done)
                (
                  p,
                  record {
                    answered = refl;
                    drawn = refl;
                    parsed = e;
                    real = real;
                    same_method = refl;
                    known = known_of_valid c.method valid;
                    dated = refl;
                  },
                  added,
                )
          | inr (text, failed, same) ↦ rw (real, valid, f, failed) same
        ]

    spec_recorded : (o : Option Uuid) → uuids.parse c.raw_order_uuid ≡ o → RecordedBy (spec o)
    spec_recorded none e = refl
    spec_recorded (some u) e = elim (Bool-cases (u == nil_uuid)) [
      | inl nil ↦ rw nil refl
      | inr real ↦ elim (Bool-cases (is_valid_payment_method c.method)) [
        | inr invalid ↦ rw (real, invalid) refl
        | inl valid ↦ elim (Result-cases c.fresh) [
          | inl (tx, f) ↦ spec_recorded_row u tx e real valid f
          | inr (x, f) ↦ rw (real, valid, f) refl
        ]
      ]
    ]

    answer-Recorded : RecordedBy (answer c s)
    answer-Recorded =
        subst RecordedBy (sym (pay_order-eq exec uuids c.fresh c.now c.raw_order_uuid c.method s))
          (spec_recorded (uuids.parse c.raw_order_uuid) refl)

  -- With a transaction manager that commits, and an INSERT that adds its row or fails: after any
  -- sequence of requests, the table holds what it held and one payment for each request that was
  -- answered with a transaction, in their order: of that transaction, of the order and by the
  -- method of the request, where the order's UUID is not nil and the method is one of the four; a
  -- request that was answered with an error has left nothing.
  pub answers-History :
      Inserts
      → (cs : List Call) (s : St)
      → History uuids (stored s) cs (answers cs s).0 (stored (answers cs s).1)
  answers-History inserts [] s = silent
  answers-History inserts (c ∷ cs) s =
      then_one (answers-History inserts cs s) (answer-Recorded inserts c (answers cs s).1)
