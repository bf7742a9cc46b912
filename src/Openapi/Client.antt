-- ===== src/Openapi/Client.antt =====
-- shared/pkg/openapi/order/v1/oas_client_gen.go and oas_request_encoders_gen.go: the calls of the client,
-- over a transport that is a parameter. The telemetry is left out.
pub mod Calls
use microservices_course.Common.{String, Option, some, none, List, [], ◌∷◌}
use microservices_course.Go.{Uuid, UuidPackage}
use microservices_course.Openapi.Schemas.{
  CreateOrderRequest, PayOrderRequest, CreateOrderRes, GetOrderRes, PayOrderRes, CancelOrderRes,
}
use microservices_course.Openapi.Json.{Jx}
use microservices_course.Openapi.Json.Requests.{
  encode_create_order_request, encode_pay_order_request,
}
use microservices_course.Openapi.Bodies.{BodyPackage, BodyError, Body, body, refused}
use microservices_course.Openapi.Answers.{
  Response, read_cancel_order_response, read_create_order_response, read_get_order_response,
  read_pay_order_response,
}

-- A request before it is sent: the method, the path parts that are added to the server's URL, and the
-- content type and the JSON of the body.
pub record Outgoing (V : Type 0) : Type 0 where
  pub method : String
  pub parts : List String
  pub content : Option (String × V)

-- Client.Do: a response, or an error with its text.
pub data Delivery : Type 0 where
  delivered : Response → Delivery
  lost : String → Delivery

-- The encoder of a path parameter in the simple style, `none` for an error; the error of
-- ht.NewRequest, if any; and the HTTP client.
pub record Transport (V St : Type 0) : Type 0 where
  pub encode_value : String → Option String
  pub new_request_error : Outgoing V → Option String
  pub transfer : Outgoing V → St → Delivery × St

pub data ClientError : Type 0 where
  encode_path : ClientError
  create_request : String → ClientError
  do_request : String → ClientError
  decode_response : BodyError → ClientError

pub data Called (Res : Type 0) : Type 0 where
  called : Res → Called Res
  failed : ClientError → Called Res

module _ {V : Type 0} (j : Jx V) where
  -- encodeCreateOrderRequest, encodePayOrderRequest
  unfoldable pub create_content : CreateOrderRequest → String × V
  unfolding encode_create_order_request
  create_content request = ("application/json", encode_create_order_request j request)

  unfoldable pub pay_content : PayOrderRequest → String × V
  unfolding encode_pay_order_request
  pay_content request = ("application/json", encode_pay_order_request j request)

module _ {V St : Type 0} (j : Jx V) (b : BodyPackage V) (uuids : UuidPackage)
    (net : Transport V St) where
  -- From NewRequest to the decoded response.
  abbrev pub exchange : {Res : Type 0} → (Response → Body Res) → Outgoing V → St → Called Res × St
  exchange decode out s = elim (net.new_request_error out) [
    | some text ↦ (failed (create_request text), s)
    | none ↦
        let (delivery, t) = net.transfer out s in
        elim delivery [
          | lost text ↦ (failed (do_request text), t)
          | delivered resp ↦ elim (decode resp) [
            | body res ↦ (called res, t)
            | refused e ↦ (failed (decode_response e), t)
          ]
        ]
  ]

  -- sendCancelOrder
  unfoldable pub send_cancel_order : Uuid → St → Called CancelOrderRes × St
  unfolding read_cancel_order_response
  send_cancel_order order_uuid s = elim (net.encode_value (uuids.to_string order_uuid)) [
    | none ↦ (failed encode_path, s)
    | some encoded ↦
        exchange (read_cancel_order_response j b)
          (record {
            method = "POST";
            parts = "/api/v1/orders/" ∷ encoded ∷ "/cancel" ∷ [];
            content = none;
          })
          s
  ]

  -- sendCreateOrder
  unfoldable pub send_create_order : CreateOrderRequest → St → Called CreateOrderRes × St
  unfolding read_create_order_response create_content
  send_create_order request s =
      exchange (read_create_order_response j b)
        (record {
          method = "POST";
          parts = "/api/v1/orders" ∷ [];
          content = some (create_content j request);
        })
        s

  -- sendGetOrder
  unfoldable pub send_get_order : Uuid → St → Called GetOrderRes × St
  unfolding read_get_order_response
  send_get_order order_uuid s = elim (net.encode_value (uuids.to_string order_uuid)) [
    | none ↦ (failed encode_path, s)
    | some encoded ↦
        exchange (read_get_order_response j b)
          (record { method = "GET"; parts = "/api/v1/orders/" ∷ encoded ∷ []; content = none }) s
  ]

  -- sendPayOrder
  unfoldable pub send_pay_order : PayOrderRequest → Uuid → St → Called PayOrderRes × St
  unfolding read_pay_order_response pay_content
  send_pay_order request order_uuid s = elim (net.encode_value (uuids.to_string order_uuid)) [
    | none ↦ (failed encode_path, s)
    | some encoded ↦
        exchange (read_pay_order_response j b)
          (record {
            method = "POST";
            parts = "/api/v1/orders/" ∷ encoded ∷ "/pay" ∷ [];
            content = some (pay_content j request);
          })
          s
  ]
