-- ===== src/Openapi/Client/Calls.antt =====
-- shared/pkg/openapi/order/v1/oas_client_gen.go with oas_handlers_gen.go: a payment from the client to
-- the handler and back.
use Prim.Native.String.{◌++◌ as text_append}
use microservices_course.Common.{◌≡◌, ap, ◌∙◌, true, String, some, none, [], ◌∷◌}
use microservices_course.Go.{Uuid, UuidPackage}
use microservices_course.Openapi.Schemas.{PayOrderRequest, PayOrderRes}
use microservices_course.Openapi.Validators.{method_valid}
use microservices_course.Openapi.Responses.{HttpResponse, encode_pay_order_response}
use microservices_course.Openapi.Json.{Jx}
use microservices_course.Openapi.Json.Requests.{encode_pay_order_request}
use microservices_course.Openapi.Router.{UrlPackage, Url, pay_order}
use microservices_course.Openapi.Router.Paths.{NoSlash, path_of}
use microservices_course.Openapi.Bodies.{BodyPackage, Request, Body, body}
use microservices_course.Openapi.Server.{Handler, returned, response, serve, send}
use microservices_course.Openapi.Server.Served.{Carries, serve-pay_order}
use microservices_course.Openapi.Answers.{Response, read_pay_order_response}
use microservices_course.Openapi.Answers.RoundTrip.{Delivers, read-encode_pay_order_response}
use microservices_course.Openapi.Client.{
  Outgoing, Transport, delivered, called, exchange, pay_content, send_pay_order,
}

module _ {V St : Type 0} (j : Jx V) (b : BodyPackage V) (p : UrlPackage) (uuids : UuidPackage)
    (net : Transport V St) (h : Handler St) (prefix : String) where
  exchange_lem :
      {Res : Type 0} (out : Outgoing V) (decode : Response → Body Res) (s t : St) (resp : Response)
      (res : Res)
      → net.new_request_error out ≡ none
      → net.transfer out s ≡ (delivered resp, t)
      → decode resp ≡ body res
      → exchange j b uuids net decode out s ≡ (called res, t)
  exchange_lem out decode s t resp res made sent read =
      rw (made, exchange) (rw sent (rw read (ap (λ x. (called res, x.1)) sent)))

  -- Where the path of a payment leads.
  abbrev pub pay_url : Uuid → Url
  pay_url u = record {
    path = text_append prefix (path_of pay_order (uuids.to_string u));
    raw_path = "";
  }

  unfoldable pub pay_outgoing : PayOrderRequest → Uuid → Outgoing V
  unfolding pay_content
  pay_outgoing request u = record {
    method = "POST";
    parts = "/api/v1/orders/" ∷ uuids.to_string u ∷ "/pay" ∷ [];
    content = some (pay_content j request);
  }

  -- The transport takes this payment to the server, and brings the response back.
  pub record Connects (request : PayOrderRequest) (u : Uuid) (s : St) : Type 0 where
    pub encoded : net.encode_value (uuids.to_string u) ≡ some (uuids.to_string u)
    pub made : net.new_request_error (pay_outgoing request u) ≡ none
    pub arrived : Request
    pub carried : Carries b arrived (encode_pay_order_request j request)
    pub answer : Response
    pub transferred :
        net.transfer (pay_outgoing request u) s
        ≡ (delivered answer, (serve j b p uuids h prefix "POST" (pay_url u) arrived s).1)
    pub brought :
        (sent : HttpResponse)
        → (serve j b p uuids h prefix "POST" (pay_url u) arrived s).0 ≡ response sent
        → Delivers j b answer sent

  -- Where the transport takes a payment of the client to the server and brings the response back,
  -- the method is one of the four, and the text of a UUID has no '/' and the path encoder and
  -- decoder keep it: if the handler answers the payment with a response, the client's call returns
  -- that response, and the state is the one that the handler left.
  pub send_pay_order-pay_order :
      (request : PayOrderRequest) (u : Uuid) (s t : St) (res : PayOrderRes)
      → NoSlash (uuids.to_string u)
      → p.decode_value (uuids.to_string u) ≡ some (uuids.to_string u)
      → method_valid request.payment_method ≡ true
      → Connects request u s
      → h.pay_order request u s ≡ (returned res, t)
      → send_pay_order j b uuids net request u s ≡ (called res, t)
  unfolding send_pay_order pay_outgoing
  send_pay_order-pay_order request u s t res n e valid c q =
      let served : serve j b p uuids h prefix "POST" (pay_url u) c.arrived s
          ≡ (response (encode_pay_order_response res), t) =
        serve-pay_order j b p uuids h prefix u request c.arrived s n e c.carried valid
        ∙ ap (send encode_pay_order_response) q in
      let read : read_pay_order_response j b c.answer ≡ body res =
        read-encode_pay_order_response j b res c.answer (c.brought _ (ap (λ x. x.0) served)) in
      rw (c.encoded, send_pay_order)
        (exchange_lem (pay_outgoing request u) (read_pay_order_response j b) s t c.answer res c.made
          (c.transferred ∙ ap (λ x. (delivered c.answer, x.1)) served) read)
