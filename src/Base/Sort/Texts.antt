-- ===== src/Base/Sort/Texts.antt =====
-- The order of texts is a total order.
use Prim.Native.Char.{Char, code}
use Prim.Native.Nat.{Ordering, compare as compare_ℕ}
use Prim.Native.String.compare as String_compare
use Prim.Native.String.{String, compare, then as order_then}
use mathlib.Core.Path.{◌≡◌, refl}
use mathlib.Core.Bool.{true, false}
use native.Mathlib.Omega.{arith}
use ai_agent_hub_project_ome.Base.Sort.{str_le}
use ai_agent_hub_project_ome.Base.Tests.{ltb, if◌then◌else◌}

nil-cons : (d : Char) (t : String) → compare "" (String.◌∷◌ d t) ≡ Ordering.lt
nil-cons d t = λ i. String_compare.nil-cons d t i

cons-nil : (c : Char) (s : String) → compare (String.◌∷◌ c s) "" ≡ Ordering.gt
cons-nil c s = λ i. String_compare.cons-nil c s i

-- The first characters that differ decide.
str_le-cons :
    (c d : Char) (s t : String)
    → str_le (String.◌∷◌ c s) (String.◌∷◌ d t) ≡ (
        if ltb (code c) (code d) then true else if ltb (code d) (code c) then false else str_le s t)
str_le-cons c d s t =
    let parts : compare (String.◌∷◌ c s) (String.◌∷◌ d t)
        ≡ order_then (compare_ℕ (code c) (code d)) (compare s t) =
      λ i. String_compare.cons-cons c d s t i in
    rw (str_le, parts) (ground arith)

pub str_le_total : (s t : String) → str_le s t ≡ false → str_le t s ≡ true
str_le_total String.[] String.[] h = refl
str_le_total String.[] (String.◌∷◌ d t) h = ground (arith, nil-cons d t)
str_le_total (String.◌∷◌ c s) String.[] h = rw (str_le, nil-cons c s) refl
str_le_total (String.◌∷◌ c s) (String.◌∷◌ d t) h =
    ground (arith, str_le_total s t, str_le-cons c d s t, str_le-cons d c t s)

pub str_le_trans : (s t u : String) → str_le s t ≡ true → str_le t u ≡ true → str_le s u ≡ true
str_le_trans String.[] t String.[] h k = refl
str_le_trans String.[] t (String.◌∷◌ e u) h k = rw (str_le, nil-cons e u) refl
str_le_trans (String.◌∷◌ c s) String.[] u h k =
    absurd (let wrong = rw (str_le, cons-nil c s) at h in cc)
str_le_trans (String.◌∷◌ c s) (String.◌∷◌ d t) String.[] h k =
    absurd (let wrong = rw (str_le, cons-nil d t) at k in cc)
str_le_trans (String.◌∷◌ c s) (String.◌∷◌ d t) (String.◌∷◌ e u) h k =
    ground
      (arith, str_le_trans s t u, str_le-cons c d s t, str_le-cons d e t u, str_le-cons c e s u)
