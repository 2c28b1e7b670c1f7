-- ===== src/Agent/Decode/Printed.antt =====
-- A printed object or action, read back from the text of a model.
use text.Mathlib.Text.{starts_with}
use text.Mathlib.TextLemmas.{nil-append, append_assoc}
use Prim.Native.Char.{Char}
use Prim.Native.String.append as append
use ai_agent_hub_project_ome.Base.{
  ℕ, suc, eq_iff, ◌+◌, ◌-◌, ◌≡◌, refl, sym, ap, ◌∙◌, String, ◌==◌, ◌<>◌, none, some, true, false,
  inl, inr, Bool-cases, leb, arith,
}
use ai_agent_hub_project_ome.Base.Str.{
  strip, is_blank, find_code, rfind_code, str_take, str_drop, has_code, is_code,
}
use ai_agent_hub_project_ome.Base.Exn.{ok}
use ai_agent_hub_project_ome.Base.Value.{str, dict, Fields, end, field, get_field, Codec}
use ai_agent_hub_project_ome.Agent.Types.{AgentAction}
use ai_agent_hub_project_ome.Agent.Decode.{
  unfence, braced, load, decode_braced, decode_json_object, parse_action,
}

-- the number of characters
abbrev size : String → ℕ
size String.[] = 0
size (String.◌∷◌ c s) = suc (size s)

cons-append : (c : Char) (s t : String) → String.◌∷◌ c s <> t ≡ String.◌∷◌ c (s <> t)
cons-append c s t = λ i. append.cons c s t i

size-append : (s t : String) → size (s <> t) ≡ size s + size t
size-append String.[] t = rw (nil-append t) (omega arith)
size-append (String.◌∷◌ c s) t = rw (cons-append c s t) (omega (arith, size-append s t))

drop-append : (s t : String) → str_drop (size s) (s <> t) ≡ t
drop-append String.[] t = nil-append t
drop-append (String.◌∷◌ c s) t = rw (cons-append c s t) (drop-append s t)

take-append : (s t : String) → str_take (size s) (s <> t) ≡ s
take-append String.[] t = refl
take-append (String.◌∷◌ c s) t =
    rw (cons-append c s t) (ap (λ (r : String). String.◌∷◌ c r) (take-append s t))

-- The first occurrence of a character that the text before does not have.
find_code-append :
    (n : ℕ) (s : String) (c : Char) (t : String)
    → has_code n s ≡ false
    → is_code n c ≡ true
    → find_code n (s <> String.◌∷◌ c t) ≡ some (size s)
unfolding find_code
find_code-append n String.[] c t h e = rw (nil-append (String.◌∷◌ c t), e) refl
find_code-append n (String.◌∷◌ d s) c t h e = elim (Bool-cases (is_code n d)) [
  | inl k ↦ absurd (let wrong = rw k at h in cc)
  | inr k ↦ rw (cons-append d s (String.◌∷◌ c t), k, find_code-append n s c t (rw k at h) e) refl
]

rfind_code-none : (n : ℕ) (t : String) → has_code n t ≡ false → rfind_code n t ≡ none
unfolding rfind_code
rfind_code-none n String.[] h = refl
rfind_code-none n (String.◌∷◌ d t) h = elim (Bool-cases (is_code n d)) [
  | inl k ↦ absurd (let wrong = rw k at h in cc)
  | inr k ↦ rw (rfind_code-none n t (rw k at h), k) refl
]

-- The last occurrence of a character that the text after does not have.
rfind_code-append :
    (n : ℕ) (s : String) (c : Char) (t : String)
    → has_code n t ≡ false
    → is_code n c ≡ true
    → rfind_code n (s <> String.◌∷◌ c t) ≡ some (size s)
unfolding rfind_code
rfind_code-append n String.[] c t h e =
    rw (nil-append (String.◌∷◌ c t), rfind_code-none n t h, e) refl
rfind_code-append n (String.◌∷◌ d s) c t h e =
    rw (cons-append d s (String.◌∷◌ c t), rfind_code, rfind_code-append n s c t h e) refl

-- A text that begins with an opening brace and ends with a closing one, as an object is printed.
pub record IsBraced (text : String) : Type 0 where
  pub first : Char
  pub inner : String
  pub final : Char
  pub shape : text ≡ String.◌∷◌ first (inner <> String.◌∷◌ final "")
  pub opens : is_code b'{' first ≡ true
  pub closes : is_code b'}' final ≡ true

body-append :
    (text after : String) (h : IsBraced text)
    → text <> after ≡ String.◌∷◌ h.first h.inner <> String.◌∷◌ h.final after
body-append text after h =
    let end_part : (h.inner <> String.◌∷◌ h.final "") <> after
        ≡ h.inner <> String.◌∷◌ h.final after =
      append_assoc h.inner (String.◌∷◌ h.final "") after
      ∙ ap (λ (t : String). h.inner <> t)
          (cons-append h.final "" after
            ∙ ap (λ (t : String). String.◌∷◌ h.final t) (nil-append after)) in
    ap (λ (t : String). t <> after) h.shape
    ∙ cons-append h.first (h.inner <> String.◌∷◌ h.final "") after
    ∙ ap (λ (t : String). String.◌∷◌ h.first t) end_part
    ∙ sym (cons-append h.first h.inner (String.◌∷◌ h.final after))

braced-append :
    (before text after : String)
    → IsBraced text
    → has_code b'{' before ≡ false
    → has_code b'}' after ≡ false
    → braced (before <> (text <> after)) ≡ some text
unfolding braced
braced-append before text after h no_open no_close =
    let tail = h.inner <> String.◌∷◌ h.final "" in
    let whole = before <> (text <> after) in
    let front = before <> String.◌∷◌ h.first h.inner in
    let from_start : whole ≡ before <> String.◌∷◌ h.first (tail <> after) =
      ap (λ (t : String). before <> (t <> after)) h.shape
      ∙ ap (λ (t : String). before <> t) (cons-append h.first tail after) in
    let to_end : whole ≡ front <> String.◌∷◌ h.final after =
      ap (λ (t : String). before <> t) (body-append text after h)
      ∙ sym (append_assoc before (String.◌∷◌ h.first h.inner) (String.◌∷◌ h.final after)) in
    let start : find_code b'{' whole ≡ some (size before) =
      ap (λ (t : String). find_code b'{' t) from_start
      ∙ find_code-append b'{' before h.first (tail <> after) no_open h.opens in
    let last : rfind_code b'}' whole ≡ some (size front) =
      ap (λ (t : String). rfind_code b'}' t) to_end
      ∙ rfind_code-append b'}' front h.final after no_close h.closes in
    let front_size : size front ≡ size before + suc (size h.inner) =
      size-append before (String.◌∷◌ h.first h.inner) in
    let text_size : size text ≡ suc (suc (size h.inner)) =
      ap size h.shape ∙ omega (arith, size-append h.inner (String.◌∷◌ h.final "")) in
    let later : leb (size front) (size before) ≡ false = ground arith in
    let width : suc (size front) - size before ≡ size text = omega arith in
    rw
      (
        braced,
        start,
        last,
        later,
        width,
        drop-append before (text <> after),
        take-append text after,
      )
      refl

-- What a printer of objects does: its texts are braced and are read back as the same object.
pub record IsPrinted (codec : Codec) (fields : Fields) : Type 0 where
  pub braces : IsBraced (codec.dumps (dict fields))
  pub reads : codec.loads (codec.dumps (dict fields)) ≡ inl (dict fields)

-- A reply that holds a printed object among other words: no opening brace before it, no closing one
-- after it, and no code fence at the beginning.
pub record Holds (codec : Codec) (fields : Fields) (raw : String) : Type 0 where
  pub before : String
  pub after : String
  pub parts : strip raw ≡ before <> (codec.dumps (dict fields) <> after)
  pub no_open : has_code b'{' before ≡ false
  pub no_close : has_code b'}' after ≡ false
  pub no_fence : starts_with (strip raw) "```" ≡ false

braced-empty : braced "" ≡ none
unfolding braced find_code
braced-empty = refl

-- The object of the action, as the prompt asks for it.
abbrev pub action_fields : AgentAction → Fields
action_fields a =
    field "action" (str a.action)
      (field "arguments" (dict a.arguments) (field "rationale" (str a.rationale) end))

module _ (codec : Codec) where
  decode_braced-printed :
      (fields : Fields)
      → IsPrinted codec fields
      → decode_braced codec (some (codec.dumps (dict fields))) ≡ ok fields
  decode_braced-printed fields printed = rw (decode_braced, load, printed.reads) refl

  decode_json_object-printed :
      (fields : Fields) (raw : String)
      → IsPrinted codec fields
      → Holds codec fields raw
      → decode_json_object codec raw ≡ ok fields
  unfolding decode_json_object unfence is_blank
  decode_json_object-printed fields raw printed h =
      let text = codec.dumps (dict fields) in
      let found : braced (strip raw) ≡ some text =
        ap (λ (t : String). braced t) h.parts
        ∙ braced-append h.before text h.after printed.braces h.no_open h.no_close in
      elim (Bool-cases (strip raw == "")) [
        | inl e ↦
            let empty : strip raw ≡ "" = (eq_iff (strip raw) "").0 e in
            absurd
              (let wrong = sym found ∙ ap (λ (t : String). braced t) empty ∙ braced-empty in cc)
        | inr e ↦ rw (e, h.no_fence, found) (decode_braced-printed fields printed)
      ]

  -- An action whose name is not blank and has no blanks around it is read back from any reply that
  -- does not begin with a code fence and holds its printed object, with no opening brace before it
  -- and no closing brace after it, where `json.dumps` printed the object from a brace to a brace
  -- and `json.loads` reads it back.
  pub parse_action-printed :
      (a : AgentAction) (raw : String)
      → is_blank a.action ≡ false
      → strip a.action ≡ a.action
      → IsPrinted codec (action_fields a)
      → Holds codec (action_fields a) raw
      → parse_action codec raw ≡ ok a
  unfolding parse_action get_field
  parse_action-printed a raw named trimmed printed h =
      rw (decode_json_object-printed (action_fields a) raw printed h, named, trimmed) refl
