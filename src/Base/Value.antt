-- ===== src/Base/Value.antt =====
-- The dynamic values that the program passes on: JSON data. A finite float is a decimal,
-- mantissa times ten to the exponent, as `repr` shows it.
use Prim.Native.String.{String}
use mathlib.Core.Path.{◌≡◌, refl}
use mathlib.Core.Bool.{Bool, true, false, not}
use mathlib.Core.Logic.{◌⊎◌}
use mathlib.Core.Option.{Option, none, some}
use mathlib.Core.List.{List, [], ◌∷◌}
use native.Mathlib.Omega.{arith}
use text.Mathlib.Text.{◌==◌}
use text.Mathlib.TextEquality.{eq_iff}
use ai_agent_hub_project_ome.Base.Tests.{if◌then◌else◌, ltb}
use ai_agent_hub_project_ome.Base.Int.{ℤ, pos, negsuc}

mutual
  pub data Value : Type 0 where
    null : Value
    bool : Bool → Value
    int : ℤ → Value
    float : (mantissa exponent : ℤ) → Value
    str : String → Value
    list : Values → Value
    dict : Fields → Value

  pub data Values : Type 0 where
    nil : Values
    cons : Value → Values → Values

  pub data Fields : Type 0 where
    end : Fields
    field : String → Value → Fields → Fields

-- `d.get(k)`
unfoldable pub get_field : String → Fields → Option Value
get_field k end = none
get_field k (field j v d) = if j == k then some v else get_field k d

-- `d[k] = v`
unfoldable pub set_field : String → Value → Fields → Fields
set_field k v end = field k v end
set_field k v (field j w d) = if j == k then field j v d else field j w (set_field k v d)

-- `d.update(e)`, `{**d, **e}`
unfoldable pub update : Fields → Fields → Fields
unfolding set_field
update d end = d
update d (field k v e) = update (set_field k v d) e

abbrev pub values_of : List Value → Values
values_of [] = nil
values_of (v ∷ vs) = cons v (values_of vs)

-- `bool(v)`
unfoldable pub truthy : Value → Bool
truthy null = false
truthy (bool b) = b
truthy (int (pos n)) = ltb 0 n
truthy (int (negsuc n)) = true
truthy (float (pos n) e) = ltb 0 n
truthy (float (negsuc n) e) = true
truthy (str s) = not (s == "")
truthy (list nil) = false
truthy (list (cons v vs)) = true
truthy (dict end) = false
truthy (dict (field k v d)) = true

-- `bool(d.get(k))`
abbrev pub truthy_field : String → Fields → Bool
unfolding get_field truthy
truthy_field k d = elim (get_field k d) [ none ↦ false | some v ↦ truthy v ]

pub get_field-set_field :
    (j k : String) (v : Value) (d : Fields)
    → get_field j (set_field k v d) ≡ (if k == j then some v else get_field j d)
unfolding get_field set_field
get_field-set_field j k v end = refl
get_field-set_field j k v (field i w d) =
    ground (arith, eq_iff k j, eq_iff i k, eq_iff i j, get_field-set_field j k v d)

-- What the program uses of Python's text conversions of values: `str(v)`,
-- `json.dumps(v, ensure_ascii=False, default=str)` and `json.loads(s)`, which fails with a message.
pub record Codec : Type 0 where
  pub show : Value → String
  pub dumps : Value → String
  pub loads : String → Value ⊎ String
