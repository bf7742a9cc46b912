-- ===== src/Order/Api/Errors.antt =====
-- order/internal/api/order/v1/errors.go, get.go: from a service error to an HTTP response.
use microservices_course.Common.{ℕ, String, ◌||◌, if◌then◌else◌}
use microservices_course.Go.{is, error_text}
use microservices_course.Order.Errors.{
  Error, order_sentinel, order_not_found, order_already_paid, order_cancelled, payment_in_progress,
  part_not_found, out_of_stock, invalid_uuid, invalid_payment_method,
}
use microservices_course.Openapi.Schemas.{
  ErrorBody, CreateOrderRes, GetOrderRes, PayOrderRes, CancelOrderRes,
}

abbrev body : ℕ → String → ErrorBody
body code message = record { code = code; message = message }

abbrev internal : ErrorBody
internal = body 500 "внутренняя ошибка сервера"

unfoldable pub create_error_response : Error → CreateOrderRes
create_error_response e =
    if is e invalid_uuid
    then CreateOrderRes.bad_request (body 400 (error_text e))
    else if is e part_not_found
    then CreateOrderRes.not_found (body 404 (error_text e))
    else if is e out_of_stock
    then CreateOrderRes.conflict (body 409 (error_text e))
    else CreateOrderRes.internal_server_error internal

unfoldable pub pay_error_response : Error → PayOrderRes
pay_error_response e =
    if is e order_not_found
    then PayOrderRes.not_found (body 404 (error_text e))
    else if is e invalid_payment_method
    then PayOrderRes.bad_request (body 400 (error_text e))
    else if is e order_already_paid || (is e order_cancelled || is e payment_in_progress)
    then PayOrderRes.conflict (body 409 (error_text e))
    else PayOrderRes.internal_server_error internal

unfoldable pub cancel_error_response : Error → CancelOrderRes
cancel_error_response e =
    if is e order_not_found
    then CancelOrderRes.not_found (body 404 (error_text e))
    else if is e order_already_paid || (is e order_cancelled || is e payment_in_progress)
    then CancelOrderRes.conflict (body 409 (error_text e))
    else CancelOrderRes.internal_server_error internal

-- The error branch of GetOrder.
unfoldable pub get_error_response : Error → GetOrderRes
get_error_response e =
    if is e order_not_found
    then GetOrderRes.not_found (body 404 (error_text e))
    else GetOrderRes.internal_server_error internal
