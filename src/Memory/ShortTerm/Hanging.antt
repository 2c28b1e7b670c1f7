-- ===== src/Memory/ShortTerm/Hanging.antt =====
-- The loop of `add` on two and on three items.
use Prim.Native.String.{count}
use ai_agent_hub_project_ome.Base.{
  ℕ, zero, suc, ◌≤◌, ◌<◌, ◌≡◌, refl, String, none, true, false, [], ◌∷◌, arith,
}
use ai_agent_hub_project_ome.Base.Str.{is_blank, strip}
use ai_agent_hub_project_ome.Base.Exn.{ok}
use ai_agent_hub_project_ome.Memory.ShortTerm.{ShortTermMemory, squeeze, is_over, shrink, add}

module _ (m : ShortTermMemory) where
  -- Of three items the first one is compressed and the other two stay, so that there are three again.
  shrink-three :
      (b c : String)
      → ((a : String) → is_over m (a ∷ b ∷ c ∷ []) ≡ true)
      → (fuel : ℕ) (a : String) → shrink m fuel (a ∷ b ∷ c ∷ []) ≡ none
  unfolding shrink squeeze
  shrink-three b c over zero a = rw (over a) refl
  shrink-three b c over (suc fuel) a = rw (over a) (shrink-three b c over fuel _)

  shrink-two :
      (b : String)
      → ((a : String) → is_over m (a ∷ b ∷ []) ≡ true)
      → (fuel : ℕ) (a : String) → shrink m fuel (a ∷ b ∷ []) ≡ none
  unfolding shrink squeeze
  shrink-two b over zero a = rw (over a) refl
  shrink-two b over (suc fuel) a = rw (over a) (shrink-two b over fuel _)

  -- With a limit of two items, or of less, a text that is added to two items makes `add` loop for
  -- ever: no fuel is enough.
  pub add-hangs_at_three :
      (a b text : String)
      → m.items ≡ a ∷ b ∷ []
      → m.max_items ≤ 2
      → is_blank text ≡ false
      → (fuel : ℕ) → add fuel text m ≡ ok none
  unfolding add is_over
  add-hangs_at_three a b text items few e fuel =
      rw (e, items, shrink-three b (strip text) (λ x. ground arith) fuel a) refl

  -- A text that is longer than the limit of characters and is added to one item makes `add` loop
  -- for ever: no fuel is enough.
  pub add-hangs_on_long :
      (a text : String)
      → m.items ≡ a ∷ []
      → m.max_chars < count (strip text)
      → is_blank text ≡ false
      → (fuel : ℕ) → add fuel text m ≡ ok none
  unfolding add is_over
  add-hangs_on_long a text items long e fuel =
      rw (e, items, shrink-two (strip text) (λ x. ground arith) fuel a) refl
