-- ===== src/Tools/Arguments.antt =====
-- How the built-in tools read their arguments.
use Prim.Native.Char.{code}
use ai_agent_hub_project_ome.Base.{ℕ, ◌+◌, String, Option, none, some, leb, if◌then◌else◌}
use ai_agent_hub_project_ome.Base.Exn.{Outcome, ok, raised, missing_key}
use ai_agent_hub_project_ome.Base.Value.{Value, str, Fields, get_field, Codec}

abbrev found : String → Option Value → Outcome Value
found key none = raised (missing_key key)
found key (some v) = ok v

-- `arguments[key]`
abbrev pub argument : String → Fields → Outcome Value
unfolding get_field
argument key arguments = found key (get_field key arguments)

-- `str(v)`
abbrev pub text_of : Codec → Value → String
text_of codec (str s) = s
text_of codec v = codec.show v

-- `len(s.encode("utf-8"))`
unfoldable pub utf8_length : String → ℕ
utf8_length String.[] = 0
utf8_length (String.◌∷◌ c s) =
    (if leb (code c) 127
      then 1
      else if leb (code c) 2047
      then 2
      else if leb (code c) 65535
      then 3
      else 4)
    + utf8_length s
