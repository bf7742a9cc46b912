-- ===== src/Openapi/Server/Guards.antt =====
-- shared/pkg/openapi/order/v1/oas_handlers_gen.go: what the checks before the handlers keep out.
use microservices_course.Common.{
  ◌≡◌, refl, ap, sym, String, Bool, true, false, [], ◌∷◌, string_eq, arith, subst, if◌then◌else◌,
  Bool-cases, inl, inr,
}
use microservices_course.Go.{Uuid, UuidPackage}
use microservices_course.Openapi.Schemas.{PayOrderRequest}
use microservices_course.Openapi.Validators.{method_valid, pay_order_request_failures}
use microservices_course.Openapi.Json.{Jx}
use microservices_course.Openapi.Json.Requests.{decode_pay_order_request}
use microservices_course.Openapi.Responses.{encode_pay_order_response}
use microservices_course.Openapi.Router.{
  UrlPackage, Url, Dispatch, handle, not_allowed, not_found, create_order, get_order, cancel_order,
  pay_order, serve_http,
}
use microservices_course.Openapi.Parameters.{
  Param, param, refused as no_param, decode_pay_order_params,
}
use microservices_course.Openapi.Bodies.{
  BodyPackage, Request, Body, body, refused as no_body, read_pay_order_request, validated, accepted,
  decode_body, read_text,
}
use microservices_course.Openapi.Server.{
  Handler, Sent, response, error, missing, refused, internal, decode_params, decode_request,
  handle_cancel_order, handle_create_order, handle_get_order, handle_pay_order, dispatched, serve,
  send,
}

-- An answer that was made without calling a handler.
abbrev pub is_refusal : Sent → Bool
is_refusal (response r) = false
is_refusal (error (internal text)) = false
is_refusal (error (decode_params op e)) = true
is_refusal (error (decode_request op e)) = true
is_refusal missing = true
is_refusal (refused methods headers post) = true

-- A body that passes the checks.
abbrev Valid : Body PayOrderRequest → Type 0
Valid (body request) = method_valid request.payment_method ≡ true
Valid (no_body e) = Unit

accepted-Valid :
    (request : PayOrderRequest) → Valid (accepted request (pay_order_request_failures request))
unfolding pay_order_request_failures
accepted-Valid request = elim (Bool-cases (method_valid request.payment_method)) [
  | inl e ↦ subst ValidIf (sym e) e
  | inr e ↦ subst ValidIf (sym e) tt
]
  where
    ValidIf : Bool → Type 0
    ValidIf valid = Valid (accepted request (if valid then [] else "payment_method" ∷ []))

validated-Valid : (x : Body PayOrderRequest) → Valid (validated x)
unfolding pay_order_request_failures
validated-Valid (no_body e) = tt
validated-Valid (body request) = accepted-Valid request

-- What a payment with these parameters and this body gets.
abbrev paid_by : {St : Type 0} → Handler St → Param → Body PayOrderRequest → St → Sent × St
unfolding encode_pay_order_response
paid_by h q x s = elim q [
  | no_param e ↦ (error (decode_params pay_order e), s)
  | param order_uuid ↦ elim x [
    | no_body e ↦ (error (decode_request pay_order e), s)
    | body request ↦ send encode_pay_order_response (h.pay_order request order_uuid s)
  ]
]

read_pay_order_request-Valid :
    {V : Type 0} (j : Jx V) (b : BodyPackage V) (r : Request) → Valid (read_pay_order_request j b r)
unfolding read_pay_order_request
read_pay_order_request-Valid j b r =
    validated-Valid (decode_body j b (decode_pay_order_request j) (read_text j b r))

module _ {V St : Type 0} (j : Jx V) (b : BodyPackage V) (p : UrlPackage) (uuids : UuidPackage) where
  module _ (h : Handler St) where
    refused_cancel :
        (arg : String) (escaped : Bool) (r : Request) (s : St)
        → let out = handle_cancel_order j b p uuids h arg escaped r s in
          is_refusal out.0 ≡ true → out.1 ≡ s
    unfolding handle_cancel_order
    refused_cancel arg escaped r s e = ground arith

    refused_get :
        (arg : String) (escaped : Bool) (r : Request) (s : St)
        → let out = handle_get_order j b p uuids h arg escaped r s in
          is_refusal out.0 ≡ true → out.1 ≡ s
    unfolding handle_get_order
    refused_get arg escaped r s e = ground arith

    refused_pay :
        (arg : String) (escaped : Bool) (r : Request) (s : St)
        → let out = handle_pay_order j b p uuids h arg escaped r s in
          is_refusal out.0 ≡ true → out.1 ≡ s
    unfolding handle_pay_order
    refused_pay arg escaped r s e = ground arith

    refused_create :
        (r : Request) (s : St)
        → let out = handle_create_order j b p uuids h r s in is_refusal out.0 ≡ true → out.1 ≡ s
    unfolding handle_create_order
    refused_create r s e = ground arith

    refused_dispatched :
        (d : Dispatch) (r : Request) (s : St)
        → let out = dispatched j b p uuids h d r s in is_refusal out.0 ≡ true → out.1 ≡ s
    unfolding dispatched
    refused_dispatched not_found r s q = refl
    refused_dispatched (not_allowed methods headers post) r s q = refl
    refused_dispatched (handle create_order args escaped) r s q = refused_create r s q
    refused_dispatched (handle get_order (arg ∷ args) escaped) r s q = refused_get arg escaped r s q
    refused_dispatched (handle cancel_order (arg ∷ args) escaped) r s q =
        refused_cancel arg escaped r s q
    refused_dispatched (handle pay_order (arg ∷ args) escaped) r s q = refused_pay arg escaped r s q
    refused_dispatched (handle get_order [] escaped) r s q = refused_get "" escaped r s q
    refused_dispatched (handle cancel_order [] escaped) r s q = refused_cancel "" escaped r s q
    refused_dispatched (handle pay_order [] escaped) r s q = refused_pay "" escaped r s q

    -- For every request: where the server answers that there is no such path or method, or that it
    -- cannot decode the parameters or the body, nothing has changed.
    pub serve-refusal :
        (prefix method : String) (u : Url) (r : Request) (s : St)
        → is_refusal (serve j b p uuids h prefix method u r s).0 ≡ true
        → (serve j b p uuids h prefix method u r s).1 ≡ s
    unfolding serve
    serve-refusal prefix method u r s e = refused_dispatched (serve_http p prefix method u) r s e

  -- Two handlers that agree on the payments with one of the four methods serve every payment
  -- request alike, so no other method reaches a handler.
  pub handle_pay_order-valid :
      (h k : Handler St)
      → ((request : PayOrderRequest) (u : Uuid) (s : St)
          → method_valid request.payment_method ≡ true
          → h.pay_order request u s ≡ k.pay_order request u s)
      → (arg : String) (escaped : Bool) (r : Request) (s : St)
      → handle_pay_order j b p uuids h arg escaped r s
        ≡ handle_pay_order j b p uuids k arg escaped r s
  unfolding handle_pay_order
  handle_pay_order-valid h k alike arg escaped r s =
      go (decode_pay_order_params p uuids arg escaped) (read_pay_order_request j b r)
        (read_pay_order_request-Valid j b r)
    where
      go : (q : Param) (x : Body PayOrderRequest) → Valid x → paid_by h q x s ≡ paid_by k q x s
      go (no_param e) x v = refl
      go (param u) (no_body e) v = refl
      go (param u) (body request) v = ap (send encode_pay_order_response) (alike request u s v)
