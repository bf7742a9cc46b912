-- ===== src/Openapi/Server/Served.antt =====
-- shared/pkg/openapi/order/v1/oas_handlers_gen.go: a payment from the request to the handler.
use Prim.Native.String.{◌++◌ as text_append}
use microservices_course.Common.{
  ◌≡◌, refl, sym, ap, ◌∙◌, String, true, false, some, none, ◌==◌, string_eq, eq_iff, arith,
  Bool-cases, inl, inr,
}
use microservices_course.Go.{Uuid, UuidPackage}
use microservices_course.Openapi.Schemas.{PayOrderRequest}
use microservices_course.Openapi.Validators.{method_valid, pay_order_request_failures}
use microservices_course.Openapi.Responses.{encode_pay_order_response}
use microservices_course.Openapi.Json.{Jx}
use microservices_course.Openapi.Json.Requests.{encode_pay_order_request}
use microservices_course.Openapi.Json.RoundTrip.{decode-encode_pay_order_request}
use microservices_course.Openapi.Router.{UrlPackage, pay_order}
use microservices_course.Openapi.Router.Paths.{NoSlash, path_of, serve_http-path_of}
use microservices_course.Openapi.Parameters.{param, decode_pay_order_params}
use microservices_course.Openapi.Bodies.{BodyPackage, Request, body, read_pay_order_request}
use microservices_course.Openapi.Server.{Handler, handle_pay_order, dispatched, serve, send}

-- The request has this JSON, and nothing after it, as its body.
pub record Carries {V : Type 0} (b : BodyPackage V) (r : Request) (v : V) : Type 0 where
  pub text : String
  pub media_type : b.media_type r.content_type ≡ some "application/json"
  pub length : r.empty ≡ false
  pub read : r.body ≡ some text
  pub some_text : (text == "") ≡ false
  pub value : b.value text ≡ v
  pub at_end : b.at_end text ≡ true

module _ {V St : Type 0} (j : Jx V) (b : BodyPackage V) (p : UrlPackage) (uuids : UuidPackage)
    (h : Handler St) where
  read_carried :
      (r : Request) (request : PayOrderRequest)
      → Carries b r (encode_pay_order_request j request)
      → method_valid request.payment_method ≡ true
      → read_pay_order_request j b r ≡ body request
  unfolding read_pay_order_request pay_order_request_failures
  read_carried r request c valid = ground (
    arith,
    c.media_type,
    c.length,
    c.read,
    c.some_text,
    c.value,
    c.at_end,
    valid,
    decode-encode_pay_order_request j request,
  )

  to_string_not_empty : (u : Uuid) → (uuids.to_string u == "") ≡ false
  to_string_not_empty u = elim (Bool-cases (uuids.to_string u == "")) [
    | inl e ↦ absurd (
        none_not_some (
          sym uuids.parse-empty
          ∙ ap uuids.parse (sym ((eq_iff (uuids.to_string u) "").0 e))
          ∙ uuids.parse-to_string u))
    | inr e ↦ e
  ]
    where
      none_not_some : none ≡ some u → ⊥
      none_not_some e = ground arith

  decode_text_of_uuid :
      (u : Uuid)
      → p.decode_value (uuids.to_string u) ≡ some (uuids.to_string u)
      → decode_pay_order_params p uuids (uuids.to_string u) false ≡ param u
  unfolding decode_pay_order_params
  decode_text_of_uuid u e = rw (to_string_not_empty u) (rw e (rw (uuids.parse-to_string u) refl))

  handle_of_decoded :
      (u : Uuid) (request : PayOrderRequest) (arg : String) (r : Request) (s : St)
      → decode_pay_order_params p uuids arg false ≡ param u
      → read_pay_order_request j b r ≡ body request
      → handle_pay_order j b p uuids h arg false r s
        ≡ send encode_pay_order_response (h.pay_order request u s)
  unfolding handle_pay_order
  handle_of_decoded u request arg r s e q = rw (e, handle_pay_order) (rw q refl)

  -- Where the text of a UUID has no '/' and the path decoder keeps it: a POST to the pay path of
  -- that order, below the server's prefix, whose body is the JSON of a request with one of the
  -- four methods, calls the handler with that order and that request, and what the handler returns
  -- is sent.
  pub serve-pay_order :
      (prefix : String) (u : Uuid) (request : PayOrderRequest) (r : Request) (s : St)
      → NoSlash (uuids.to_string u)
      → p.decode_value (uuids.to_string u) ≡ some (uuids.to_string u)
      → Carries b r (encode_pay_order_request j request)
      → method_valid request.payment_method ≡ true
      → serve j b p uuids h prefix "POST"
          (record {
            path = text_append prefix (path_of pay_order (uuids.to_string u));
            raw_path = "";
          })
          r
          s
        ≡ send encode_pay_order_response (h.pay_order request u s)
  unfolding serve dispatched
  serve-pay_order prefix u request r s n e c valid =
      rw (serve_http-path_of p prefix pay_order (uuids.to_string u) n) (
        handle_of_decoded u request (uuids.to_string u) r s (decode_text_of_uuid u e)
          (read_carried r request c valid))
