-- ===== src/Base/Element.antt =====
-- What the handlers of an element's change of state return.
use mathlib.Core.Bool.{Bool, true, false}

-- GstStateChangeReturn
pub data StateChangeReturn : Type 0 where
  change_failure change_success change_async change_no_preroll : StateChangeReturn

abbrev pub is_failure : StateChangeReturn → Bool
is_failure change_failure = true
is_failure _ = false
