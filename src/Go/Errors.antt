-- ===== src/Go/Errors.antt =====
-- Go error values. A sentinel is a variable made by `errors.New` and compared by identity; the
-- types of sentinels differ from service to service.
use microservices_course.Common.{String, Bool, false, ◌||◌}
use Prim.Native.String.{◌++◌}

-- The sentinels of one service: their identity and their text.
pub record Sentinel (S : Type 0) : Type 0 where
  pub same : S → S → Bool
  pub message : S → String

pub data Err (S : Type 0) : Type 0 where
  sentinel : S → Err S  -- a package variable
  wrap : String → Err S → Err S  -- fmt.Errorf("text: %w", err)
  join : Err S → Err S → Err S  -- errors.Join(a, b)
  foreign : String → Err S  -- an error of another package, by its text

-- errors.Is, with a sentinel as its target
unfoldable pub is : {S : Type 0} ⦃k : Sentinel S⦄ → Err S → S → Bool
is ⦃k⦄ (sentinel a) t = k.same a t
is (wrap text e) t = is e t
is (join a b) t = is a t || is b t
is (foreign text) t = false

-- err.Error()
unfoldable pub error_text : {S : Type 0} ⦃k : Sentinel S⦄ → Err S → String
error_text ⦃k⦄ (sentinel a) = k.message a
error_text (wrap text e) = text ++ (": " ++ error_text e)
error_text (join a b) = error_text a ++ ("\n" ++ error_text b)
error_text (foreign text) = text
