-- ===== src/Tests/Calls.antt =====
-- A call of the client over a transport that runs the server.
use microservices_course.Common.{
  ◌≡◌, refl, sym, ap, subst, ◌∙◌, ℕ, true, some, none, ◌==◌, string_eq, if◌then◌else◌,
}
use microservices_course.Openapi.Schemas.{PayOrderRes}
use microservices_course.Openapi.Responses.{HttpResponse, encode_pay_order_response}
use microservices_course.Openapi.Json.Replies
use microservices_course.Openapi.Json.Requests.{encode_pay_order_request}
use microservices_course.Openapi.Bodies.{BodyPackage}
use microservices_course.Openapi.Server.{Sent, response, error, missing, refused, serve}
use microservices_course.Openapi.Server.Served.{Carries, serve-pay_order}
use microservices_course.Openapi.Answers.{Response}
use microservices_course.Openapi.Answers.RoundTrip.{Delivers, written}
use microservices_course.Openapi.Client.{Transport, delivered, called, send_pay_order}
use microservices_course.Openapi.Client.Calls.{Connects, pay_url, send_pay_order-pay_order}
use microservices_course.Tests.Fixtures.{uuids}
use microservices_course.Tests.Http.{handler, urls, pay_body, pay_request, sbp-valid}
use microservices_course.Tests.Json.{Value, object, member, nothing, text, identity, jx}

-- The text "{paid}" has a transaction, and every other text a payment.
abbrev bodies : BodyPackage Value
bodies = record {
  media_type = λ t. some "application/json";
  value = λ t.
      if t == "{paid}"
      then object (member "transaction_uuid" (identity 77) nothing)
      else object (member "payment_method" (text "SBP") nothing);
  at_end = λ t. true;
}

abbrev paid : PayOrderRes
paid = PayOrderRes.paid (record { transaction_uuid = 77 })

abbrev answer : Response
answer = record { status = 200; content_type = "application/json"; body = some "{paid}" }

abbrev net : Transport Value ℕ
unfolding serve
net = record {
  encode_value = λ t. some t;
  new_request_error = λ out. none;
  transfer = λ out s. (
    delivered answer,
    (serve jx bodies urls uuids handler "" "POST"
        (record { path = "/api/v1/orders/#--/pay"; raw_path = "" }) pay_request s).1,
  );
}

pay_request-Carries : Carries bodies pay_request (encode_pay_order_request jx pay_body)
unfolding encode_pay_order_request
pay_request-Carries = record {
  text = "{...}";
  media_type = refl;
  length = refl;
  read = refl;
  some_text = refl;
  value = refl;
  at_end = refl;
}

answer-Delivers : Delivers jx bodies answer (encode_pay_order_response paid)
unfolding encode_pay_order_response written Replies.encode_pay_order_response
answer-Delivers = record {
  text = "{paid}";
  status = refl;
  media_type = refl;
  read = refl;
  value = refl;
  at_end = refl;
}

abbrev response_of : Sent → HttpResponse
unfolding encode_pay_order_response
response_of (response r) = r
response_of (error e) = encode_pay_order_response paid
response_of missing = encode_pay_order_response paid
response_of (refused methods headers post) = encode_pay_order_response paid

served :
    serve jx bodies urls uuids handler "" "POST"
      (pay_url jx bodies urls uuids net handler "" 2)
      pay_request
      3
    ≡ (response (encode_pay_order_response paid), 4)
served =
    serve-pay_order jx bodies urls uuids handler "" 2 pay_body pay_request 3
      (refl, (refl, (refl, tt))) refl pay_request-Carries sbp-valid

net-Connects : Connects jx bodies urls uuids net handler "" pay_body 2 3
unfolding net response_of
net-Connects = record {
  encoded = refl;
  made = refl;
  arrived = pay_request;
  carried = pay_request-Carries;
  answer = answer;
  transferred = refl;
  brought = λ sent e.
      subst (Delivers jx bodies answer) (ap response_of (sym (ap (λ x. x.0) served) ∙ e))
        answer-Delivers;
}

send_pay_order-pay_order_example :
    send_pay_order jx bodies uuids net pay_body 2 3 ≡ (called paid, 4)
send_pay_order-pay_order_example =
    send_pay_order-pay_order jx bodies urls uuids net handler "" pay_body 2 3 4 paid
      (refl, (refl, (refl, tt))) refl sbp-valid net-Connects refl
