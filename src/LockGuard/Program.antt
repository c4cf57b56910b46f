-- ===== src/LockGuard/Program.antt =====
-- Programs that take mutexes in the order of their ranks.
use libkvs.Prelude.{ℕ, ◌<◌, ◌≡◌, List, [], ◌∷◌, All}
use libkvs.LockGuard.{Action, acquire, leave, Thread, ready, polling}

module _ {N : Type 0} (rank : N → ℕ) (bound : ℕ) where
  -- The mutex is above all that are held.
  abbrev pub IsAbove : N → List N → Type 0
  IsAbove n held = All (λ (k : N). rank k < rank n) held

  -- The program takes each mutex above those that it holds, and leaves all in the end.
  abbrev pub InOrder : List N → List (Action N) → Type 0
  InOrder held [] = held ≡ []
  InOrder held (acquire n type ∷ rest) = IsAbove n held × (rank n < bound) × InOrder (n ∷ held) rest
  InOrder [] (leave ∷ rest) = ⊥
  InOrder (n ∷ held) (leave ∷ rest) = InOrder held rest

  abbrev pub Descends : List N → Type 0
  Descends [] = Unit {0}
  Descends (n ∷ held) = IsAbove n held × Descends held

  abbrev pub IsOrdered : Thread N → Type 0
  IsOrdered (ready held rest) = Descends held × InOrder held rest
  IsOrdered (polling held n type rest) = Descends held × InOrder held (acquire n type ∷ rest)
