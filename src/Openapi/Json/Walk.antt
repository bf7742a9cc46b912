-- ===== src/Openapi/Json/Walk.antt =====
-- shared/pkg/openapi/order/v1/oas_json_gen.go: the steps of the walk over fields that were encoded, with
-- the fields that may be absent.
use microservices_course.Common.{
  ◌≡◌, refl, ap, ◌∙◌, String, Bool, true, false, List, [], ◌∷◌, ◌++◌, string_eq, if◌then◌else◌,
  arith, eq_iff,
}
use microservices_course.Go.{Uuid, nil_uuid}
use microservices_course.Openapi.Schemas.{OptNil, PaymentMethod, OrderStatus, opt_get}
use microservices_course.Openapi.Json.{Jx, Decoded, decoded, undecoded, walk, into}
use microservices_course.Openapi.Json.Fields.{
  encode_opt_uuid, decode_opt_uuid, encode_opt_method, decode_opt_method, decode_method,
  decode_status, optional, method_of_text, status_of_text,
}

-- A field as it is read back: whatever stood beside an unset or a null one is gone.
unfoldable pub normal : {A : Type 0} → A → OptNil A → OptNil A
normal zero_value o =
    if o.set
    then if o.null
      then record { value = zero_value; set = true; null = true }
      else record { value = o.value; set = true; null = false }
    else record { value = zero_value; set = false; null = false }

-- It holds the same value, or none.
pub opt_get-normal :
    {A : Type 0} (zero_value : A) (o : OptNil A) → opt_get (normal zero_value o) ≡ opt_get o
unfolding normal opt_get
opt_get-normal zero_value o = go o.set o.null
  where
    go :
        (set null : Bool)
        → let p = record o { set = set; null = null } in opt_get (normal zero_value p) ≡ opt_get p
    go true true = refl
    go true false = refl
    go false true = refl
    go false false = refl

pub method_of_text_lem : (t : String) → method_of_text t ≡ t
method_of_text_lem t =
    ground
      (arith, eq_iff t "CARD", eq_iff t "SBP", eq_iff t "CREDIT_CARD", eq_iff t "INVESTOR_MONEY")

pub status_of_text_lem : (t : String) → status_of_text t ≡ t
status_of_text_lem t =
    ground (arith, eq_iff t "PENDING_PAYMENT", eq_iff t "PAID", eq_iff t "CANCELLED")

module _ {V A : Type 0} (f : A → String → V → Decoded A) where
  -- A field that was encoded is read and stored.
  pub walk_field :
      {B : Type 0} (name : String) (v : V) (fs : List (String × V)) {a : A} {r : Decoded B} {x : B}
      (put : B → A)
      → f a name v ≡ into name r put
      → r ≡ decoded x
      → walk f a ((name, v) ∷ fs) ≡ walk f (put x) fs
  unfolding walk
  walk_field name v fs put e q =
      ap (λ d. elim d [ decoded b ↦ walk f b fs | undecoded x ↦ undecoded x ])
        (e ∙ ap (λ r. into name r put) q)

  pub walk_end : (a : A) → walk f a [] ≡ decoded a
  unfolding walk
  walk_end a = refl

module _ {V : Type 0} (j : Jx V) where
  pub decode_method-str : (m : PaymentMethod) → decode_method j (j.str m) ≡ decoded m
  unfolding decode_method
  decode_method-str m = rw (j.read_str-str m) (ap decoded (method_of_text_lem m))

  pub decode_status-str : (s : OrderStatus) → decode_status j (j.str s) ≡ decoded s
  unfolding decode_status
  decode_status-str s = rw (j.read_str-str s) (ap decoded (status_of_text_lem s))

  decode_null_uuid :
      decode_opt_uuid j j.null ≡ decoded (record { value = nil_uuid; set = true; null = true })
  unfolding decode_opt_uuid
  decode_null_uuid = rw j.is_null-null (rw j.read_null-null refl)

  decode_set_uuid :
      (u : Uuid)
      → decode_opt_uuid j (j.uuid u) ≡ decoded (record { value = u; set = true; null = false })
  unfolding decode_opt_uuid
  decode_set_uuid u = rw (j.is_null-uuid u) (rw (j.read_uuid-uuid u) refl)

  decode_null_method :
      decode_opt_method j j.null ≡ decoded (record { value = ""; set = true; null = true })
  unfolding decode_opt_method
  decode_null_method = rw j.is_null-null (rw j.read_null-null refl)

  decode_set_method :
      (m : PaymentMethod)
      → decode_opt_method j (j.str m) ≡ decoded (record { value = m; set = true; null = false })
  unfolding decode_opt_method
  decode_set_method m = rw (j.is_null-str m) (rw (decode_method-str m) refl)

  module _ {A : Type 0} (f : A → String → V → Decoded A) (name : String)
      (fs : List (String × V)) where
    -- A field that may be absent, from a state in which it is unset.
    pub walk_opt_uuid :
        (put : OptNil Uuid → A) (o : OptNil Uuid)
        → ((v : V)
            → f (put (record { value = nil_uuid; set = false; null = false })) name v
              ≡ into name (decode_opt_uuid j v) put)
        → walk f
            (put (record { value = nil_uuid; set = false; null = false }))
            (optional name o (encode_opt_uuid j o) ++ fs)
          ≡ walk f (put (normal nil_uuid o)) fs
    unfolding normal encode_opt_uuid
    walk_opt_uuid put o e = go o.value o.set o.null
      where
        go :
            (x : Uuid) (set null : Bool)
            → let p : OptNil Uuid = record { value = x; set = set; null = null } in
              walk f
                (put (record { value = nil_uuid; set = false; null = false }))
                (optional name p (encode_opt_uuid j p) ++ fs)
              ≡ walk f (put (normal nil_uuid p)) fs
        go x false null = refl
        go x true true = walk_field f name j.null fs put (e j.null) decode_null_uuid
        go x true false = walk_field f name (j.uuid x) fs put (e (j.uuid x)) (decode_set_uuid x)

    pub walk_opt_method :
        (put : OptNil PaymentMethod → A) (o : OptNil PaymentMethod)
        → ((v : V)
            → f (put (record { value = ""; set = false; null = false })) name v
              ≡ into name (decode_opt_method j v) put)
        → walk f
            (put (record { value = ""; set = false; null = false }))
            (optional name o (encode_opt_method j o) ++ fs)
          ≡ walk f (put (normal "" o)) fs
    unfolding normal encode_opt_method
    walk_opt_method put o e = go o.value o.set o.null
      where
        go :
            (x : PaymentMethod) (set null : Bool)
            → let p : OptNil PaymentMethod = record { value = x; set = set; null = null } in
              walk f
                (put (record { value = ""; set = false; null = false }))
                (optional name p (encode_opt_method j p) ++ fs)
              ≡ walk f (put (normal "" p)) fs
        go x false null = refl
        go x true true = walk_field f name j.null fs put (e j.null) decode_null_method
        go x true false = walk_field f name (j.str x) fs put (e (j.str x)) (decode_set_method x)
