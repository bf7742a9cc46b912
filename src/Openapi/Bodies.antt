-- ===== src/Openapi/Bodies.antt =====
-- shared/pkg/openapi/order/v1/oas_request_decoders_gen.go: the body of a request.
use microservices_course.Common.{
  ℕ, String, Bool, Option, some, none, List, [], ◌∷◌, ◌==◌, nat_eq, string_eq, if◌then◌else◌,
}
use microservices_course.Openapi.Schemas.{CreateOrderRequest, PayOrderRequest}
use microservices_course.Openapi.Validators.{pay_order_request_failures}
use microservices_course.Openapi.Json.{Jx, DecodeError, Decoded, decoded, undecoded}
use microservices_course.Openapi.Json.Requests.{
  decode_create_order_request, decode_pay_order_request,
}

-- mime.ParseMediaType, by the media type; jx.DecodeBytes, by the value that the text begins with, and
-- whether `d.Skip()` is at the end of the text after it.
pub record BodyPackage (V : Type 0) : Type 0 where
  pub media_type : String → Option String
  pub value : String → V
  pub at_end : String → Bool

-- What is read of `http.Request`: the Content-Type, ContentLength (whether it is 0), and the body or
-- the error of reading it.
pub record Request : Type 0 where
  pub content_type : String
  pub empty : Bool
  pub body : Option String

-- The errors, in the order in which they can come.
pub data BodyError : Type 0 where
  parse_media_type : BodyError
  body_required : BodyError
  unreadable : BodyError
  undecodable : DecodeError → BodyError
  trailing_data : BodyError
  invalid : List String → BodyError
  invalid_content_type : String → BodyError
  unexpected_status : ℕ → BodyError

pub data Body (A : Type 0) : Type 0 where
  body : A → Body A
  refused : BodyError → Body A

-- `if err := request.Validate(); err != nil`, with the names of the fields that fail.
abbrev pub accepted : PayOrderRequest → List String → Body PayOrderRequest
accepted request [] = body request
accepted request (name ∷ names) = refused (invalid (name ∷ names))

abbrev pub validated : Body PayOrderRequest → Body PayOrderRequest
unfolding pay_order_request_failures
validated (refused e) = refused e
validated (body request) = accepted request (pay_order_request_failures request)

module _ {V : Type 0} (j : Jx V) (b : BodyPackage V) where
  -- What both decoders begin with: the text of the body.
  abbrev pub read_text : Request → Body String
  read_text r = elim (b.media_type r.content_type) [
    | none ↦ refused parse_media_type
    | some ct ↦
        if ct == "application/json"
        then if r.empty then refused body_required else elim r.body [
          | none ↦ refused unreadable
          | some buf ↦ if buf == "" then refused body_required else body buf
        ]
        else refused (invalid_content_type ct)
  ]

  -- `request.Decode(d)` and then `d.Skip()`
  abbrev pub decode_body : {A : Type 0} → (V → Decoded A) → Body String → Body A
  decode_body decode (refused e) = refused e
  decode_body decode (body buf) = elim (decode (b.value buf)) [
    | undecoded e ↦ refused (undecodable e)
    | decoded request ↦ if b.at_end buf then body request else refused trailing_data
  ]

  -- (*Server).decodeCreateOrderRequest
  unfoldable pub read_create_order_request : Request → Body CreateOrderRequest
  unfolding decode_create_order_request
  read_create_order_request r = decode_body (decode_create_order_request j) (read_text r)

  -- (*Server).decodePayOrderRequest
  unfoldable pub read_pay_order_request : Request → Body PayOrderRequest
  unfolding decode_pay_order_request pay_order_request_failures
  read_pay_order_request r = validated (decode_body (decode_pay_order_request j) (read_text r))
