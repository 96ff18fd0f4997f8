-- ===== src/Expected.antt =====
-- include/bc/soup/expected.h: a value or an error, as two optionals. The comparisons of values and of errors
-- are arguments. To read an optional that is empty is undefined in the source, and `none` here.
use soupbintcp.Common.{Bool, true, false, not, Option, none, some, is_some, if◌then◌else◌}

pub record Expected (T E : Type 0) : Type 0 where
  pub val : Option T
  pub unexpect : Option E

-- What `value` does: it returns, or it throws `bad_expected_access` with the error.
pub data Access (T E : Type 0) : Type 0 where
  returned : T → Access T E
  bad_expected_access : Option E → Access T E

module _ {T E : Type 0} where
  unfoldable pub from_value : T → Expected T E
  from_value v = record { val = some v; unexpect = none }

  unfoldable pub from_unexpected : E → Expected T E
  from_unexpected e = record { val = none; unexpect = some e }

  unfoldable pub has_value : Expected T E → Bool
  has_value x = is_some x.val

  unfoldable pub dereference : Expected T E → Option T
  dereference x = x.val

  unfoldable pub error : Expected T E → Option E
  error x = x.unexpect

  unfoldable pub access : Option T → Option E → Access T E
  access none e = bad_expected_access e
  access (some v) e = returned v

  unfoldable pub value : Expected T E → Access T E
  value x = access x.val x.unexpect

-- A comparison of what two optionals hold.
unfoldable pub held_eq : {A : Type 0} → (A → A → Bool) → Option A → Option A → Bool
held_eq same none b = false
held_eq same (some a) none = false
held_eq same (some a) (some b) = same a b

unfoldable pub bool_eq : Bool → Bool → Bool
bool_eq true b = b
bool_eq false b = not b

module _ {T E : Type 0} (same : T → T → Bool) (same_error : E → E → Bool) where
  unfoldable pub expected_eq : Expected T E → Expected T E → Bool
  expected_eq x y =
      if not (bool_eq (has_value x) (has_value y))
      then false
      else if not (has_value x)
      then held_eq same_error (error x) (error y)
      else held_eq same (dereference x) (dereference y)

  unfoldable pub expected_ne : Expected T E → Expected T E → Bool
  expected_ne x y =
      if not (bool_eq (has_value x) (has_value y))
      then true
      else if not (has_value x)
      then not (held_eq same_error (error x) (error y))
      else not (held_eq same (dereference x) (dereference y))

  unfoldable pub value_eq : Expected T E → T → Bool
  value_eq x v = if has_value x then held_eq same (dereference x) (some v) else false

  unfoldable pub unexpected_eq : Expected T E → E → Bool
  unexpected_eq x e = if has_value x then false else held_eq same_error (error x) (some e)

  unfoldable pub value_ne : Expected T E → T → Bool
  value_ne x v = if has_value x then not (held_eq same (dereference x) (some v)) else true

  unfoldable pub unexpected_ne : Expected T E → E → Bool
  unexpected_ne x e = if has_value x then true else not (held_eq same_error (error x) (some e))
