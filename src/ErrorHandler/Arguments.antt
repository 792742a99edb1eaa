-- ===== src/ErrorHandler/Arguments.antt =====
-- The arguments of a service call (pyxcp/master/errorhandler.py: Arguments).
use pyxcp.Prelude.{ℕ, Bool, true, false, ◌&&◌, List, [], ◌∷◌, String, Option, none, some}
use pyxcp.Prelude.{◌==◌, if◌then◌else◌, length}
use text.Mathlib.Text.{◌==◌ as str_eq}

-- The values that service methods take: integers and byte strings.
pub data Value : Type 0 where
  int : ℕ → Value
  bytes : List ℕ → Value

list_eq : List ℕ → List ℕ → Bool
list_eq [] [] = true
list_eq (a ∷ as') (b ∷ bs) = (a == b) && list_eq as' bs
list_eq _ _ = false

value_eq : Value → Value → Bool
unfolding list_eq
value_eq (int a) (int b) = a == b
value_eq (bytes a) (bytes b) = list_eq a b
value_eq _ _ = false

args_eq : List Value → List Value → Bool
args_eq [] [] = true
args_eq (a ∷ as') (b ∷ bs) = value_eq a b && args_eq as' bs
args_eq _ _ = false

-- `Arguments`: positional and keyword arguments.
pub record Arguments : Type 0 where
  pub args : List Value
  pub kwargs : List (String × Value)

lookup : String → List (String × Value) → Option Value
lookup k [] = none
lookup k ((j, v) ∷ m) = if str_eq j k then some v else lookup k m

found_eq : Option Value → Value → Bool
found_eq none v = false
found_eq (some u) v = value_eq u v

all_found : List (String × Value) → List (String × Value) → Bool
all_found [] m = true
all_found ((k, v) ∷ rest) m = found_eq (lookup k m) v && all_found rest m

-- Equality of dictionaries does not depend on the order of the entries.
kwargs_eq : List (String × Value) → List (String × Value) → Bool
kwargs_eq a b = (length a == length b) && all_found a b

-- `Arguments.__eq__`
unfoldable pub arguments_eq : Arguments → Arguments → Bool
unfolding value_eq args_eq lookup found_eq all_found kwargs_eq
arguments_eq a b = args_eq a.args b.args && kwargs_eq a.kwargs b.kwargs

-- `Arguments()`
abbrev pub no_arguments : Arguments
no_arguments = record { args = []; kwargs = [] }
