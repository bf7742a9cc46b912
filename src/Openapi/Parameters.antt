-- ===== src/Openapi/Parameters.antt =====
-- shared/pkg/openapi/order/v1/oas_parameters_gen.go: the path parameter `order_uuid` of three operations.
use microservices_course.Common.{String, Bool, some, none, ◌==◌, string_eq, if◌then◌else◌}
use microservices_course.Go.{Uuid, UuidPackage}
use microservices_course.Openapi.Router.{UrlPackage}

-- `&ogenerrors.DecodeParamError` for `order_uuid`, by the error in it: that of url.PathUnescape, the
-- missing parameter, that of the path decoder, and that of uuid.Parse.
pub data ParamError : Type 0 where
  unescape_path field_required undecodable not_a_uuid : ParamError

pub data Param : Type 0 where
  param : Uuid → Param
  refused : ParamError → Param

module _ (p : UrlPackage) (uuids : UuidPackage) where
  -- `if len(param) > 0 { ... } else { return validate.ErrFieldRequired }`
  abbrev decode_text : String → Param
  decode_text text = if text == "" then refused field_required else elim (p.decode_value text) [
    | none ↦ refused undecodable
    | some val ↦ elim (uuids.parse val) [ none ↦ refused not_a_uuid | some c ↦ param c ]
  ]

  abbrev decode_arg : String → Bool → Param
  decode_arg arg escaped =
      if escaped
      then elim (p.path_unescape arg) [
        | none ↦ refused unescape_path
        | some unescaped ↦ decode_text unescaped
      ]
      else decode_text arg

  -- decodeCancelOrderParams
  unfoldable pub decode_cancel_order_params : String → Bool → Param
  decode_cancel_order_params arg escaped = decode_arg arg escaped

  -- decodeGetOrderParams
  unfoldable pub decode_get_order_params : String → Bool → Param
  decode_get_order_params arg escaped = decode_arg arg escaped

  -- decodePayOrderParams
  unfoldable pub decode_pay_order_params : String → Bool → Param
  decode_pay_order_params arg escaped = decode_arg arg escaped
