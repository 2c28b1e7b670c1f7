-- ===== src/Memory/ShortTerm/Ending.antt =====
-- The loop of `add` where the limits leave room.
use Prim.Native.String.{count}
use text.Mathlib.TextLemmas
use ai_agent_hub_project_ome.Base.{
  ℕ, zero, suc, ◌+◌, ◌-◌, ◌*◌, ◌≤◌, ◌<◌, ◌≡◌, refl, ap, inl, inr, String, ◌<>◌, Option, none, some,
  false, List, [], ◌∷◌, ◌++◌, length, take, drop, length-take, length-drop, length-append, All,
  All-append, ltb, leb, arith, Bool-cases,
}
use ai_agent_hub_project_ome.Base.Str.{is_blank, strip, join, str_take, replace_code}
use ai_agent_hub_project_ome.Base.Exn.{ok}
use ai_agent_hub_project_ome.Memory.ShortTerm.{
  ShortTermMemory, total, compress, half, squeeze, is_over, shrink, add,
}

count-str_take : (n : ℕ) (s : String) → count (str_take n s) ≤ n
count-str_take zero s = omega arith
count-str_take (suc n) String.[] = omega arith
count-str_take (suc n) (String.◌∷◌ c s) =
    rw (TextLemmas.length-cons c (str_take n s)) (omega (arith, count-str_take n s))

-- A compressed text has at most four thousand characters, whatever it is made of.
count-compress : (items : List String) → count (compress items) ≤ 4000
unfolding compress
count-compress items =
    let text = replace_code 10 " " (join " " items) in
    elim (Bool-cases (leb (count text) 4000)) [
      | inl e ↦ rw e (ground arith)
      | inr e ↦
          rw (e, TextLemmas.length-append (str_take 3997 text) "...")
            (omega (arith, count-str_take 3997 text))
    ]

-- Room for two items of `size` characters and a compressed one, and for three items.
pub record IsRoomy (m : ShortTermMemory) (size : ℕ) : Type 0 where
  pub three : 3 ≤ m.max_items
  pub large : 4021 ≤ size
  pub fits : 2 * size + 4021 ≤ m.max_chars

abbrev pub Small : ℕ → List String → Type 0
Small size items = All (λ text. count text ≤ size) items

All-drop : (size n : ℕ) (items : List String) → Small size items → Small size (drop n items)
All-drop size zero items h = h
All-drop size (suc n) [] h = tt
All-drop size (suc n) (x ∷ items) h = All-drop size n items h.1

total-two :
    (size : ℕ) (items : List String) → Small size items → length items ≤ 2 → total items ≤ 2 * size
total-two size [] h n = omega arith
total-two size (x ∷ []) h n = omega (arith, h.0)
total-two size (x ∷ y ∷ []) h n = omega (arith, h.0, h.1.0)
total-two size (x ∷ y ∷ z ∷ items) h n = absurd (omega arith)

-- What is left when the loop ends.
abbrev pub Settled : ShortTermMemory → ℕ → Option (List String) → Type 0
Settled m size none = ⊥
Settled m size (some items) =
    (length items ≤ m.max_items) × (total items ≤ m.max_chars) × Small size items

module _ (m : ShortTermMemory) (size : ℕ) (roomy : IsRoomy m size) where
  is_over-false :
      (items : List String)
      → is_over m items ≡ false
      → (length items ≤ m.max_items) × (total items ≤ m.max_chars)
  unfolding is_over
  is_over-false items e = (ground arith, ground arith)

  -- A list that the body of the loop has made.
  abbrev IsSqueezed : String → List String → Type 0
  IsSqueezed s rest = (count s ≤ 4021) × Small size rest

  squeezed-short :
      (s : String) (rest : List String)
      → IsSqueezed s rest
      → length rest ≤ 2
      → is_over m (s ∷ rest) ≡ false
  unfolding is_over
  squeezed-short s rest (p, h) n =
      let bound = total-two size rest h n in
      let three = roomy.three in let fits = roomy.fits in ground arith

  squeeze-IsSqueezed :
      (items : List String)
      → 1 ≤ length items
      → Small size items
      → (s : String) × (rest : List String) × (squeeze items ≡ s ∷ rest)
        × (length rest ≡ length items - half items)
        × IsSqueezed s rest
  unfolding squeeze
  squeeze-IsSqueezed items n h =
      let head = take (half items) items in
      (
        "[compressed context]\n" <> compress head,
        drop (length head) items,
        refl,
        omega (arith, length-drop (length head) items, length-take (half items) items),
        (
          rw (TextLemmas.length-append "[compressed context]\n" (compress head))
              (omega (arith, count-compress head)),
          All-drop size (length head) items h,
        ),
      )

  ends :
      (s : String) (rest : List String)
      → IsSqueezed s rest
      → is_over m (s ∷ rest) ≡ false
      → Settled m size (some (s ∷ rest))
  ends s rest (p, h) e =
      let (few, short) = is_over-false (s ∷ rest) e in (few, short, (omega (arith, roomy.large), h))

  shrink-squeezed :
      (fuel : ℕ) (s : String) (rest : List String)
      → IsSqueezed s rest
      → length rest ≤ fuel + 2
      → Settled m size (shrink m fuel (s ∷ rest))
  unfolding shrink
  shrink-squeezed zero s rest q n = let e = squeezed-short s rest q n in rw e (ends s rest q e)
  shrink-squeezed (suc fuel) s rest q n = elim (Bool-cases (is_over m (s ∷ rest))) [
    | inr e ↦ rw e (ends s rest q e)
    | inl e ↦ elim (Bool-cases (ltb 2 (length rest))) [
      | inr short ↦ let f = squeezed-short s rest q (ground arith) in absurd (cc)
      | inl long ↦
          let many : 3 ≤ length rest = ground arith in
          let (s', rest', made, left, q') =
            squeeze-IsSqueezed (s ∷ rest) (omega arith) (omega (arith, q.0, roomy.large), q.1) in
          rw (e, made) (shrink-squeezed fuel s' rest' q' (omega arith))
    ]
  ]

  shrink-Settled :
      (fuel : ℕ) (items : List String)
      → Small size items
      → 1 ≤ length items
      → length items ≤ fuel
      → Settled m size (shrink m fuel items)
  unfolding shrink
  shrink-Settled zero items h n k = absurd (omega arith)
  shrink-Settled (suc fuel) items h n k = elim (Bool-cases (is_over m items)) [
    | inr e ↦ let (few, short) = is_over-false items e in rw e (few, short, h)
    | inl e ↦
        let (s, rest, made, left, q) = squeeze-IsSqueezed items n h in
        rw (e, made) (shrink-squeezed fuel s rest q (omega arith))
  ]

  Settled-some :
      (o : Option (List String))
      → Settled m size o
      → (out : List String) × (o ≡ some out) × Settled m size (some out)
  Settled-some (some out) h = (out, refl, h)
  Settled-some none h = absurd h

  -- Let `size` be at least 4021, `max_items` at least 3 and `max_chars` at least 2 * size + 4021.
  -- Where no item has more than `size` characters, and neither has the text, which is not blank,
  -- `add` ends: with fuel for one round more than there are items, it leaves items within both
  -- limits, and none of more than `size` characters.
  pub add-Settled :
      (fuel : ℕ) (text : String)
      → is_blank text ≡ false
      → Small size m.items
      → count (strip text) ≤ size
      → length m.items < fuel
      → (out : List String) × (add fuel text m ≡ ok (some out)) × Settled m size (some out)
  unfolding add
  add-Settled fuel text e small fits enough =
      let items = m.items ++ strip text ∷ [] in
      let more : length items ≡ length m.items + 1 = length-append m.items (strip text ∷ []) in
      let all : Small size items =
        All-append (λ t. count t ≤ size) m.items (strip text ∷ []) small (fits, tt) in
      let (out, same, settled) =
        Settled-some (shrink m fuel items)
          (shrink-Settled fuel items all (omega arith) (omega arith)) in
      (out, rw e (ap (λ (o : Option (List String)). ok o) same), settled)
