-- ===== src/LoadTest/Containers.antt =====
-- The unordered maps of load_test/src/TestRunner.hpp and getRandomElement of utility.inl. The order of an
-- unordered_map is that of its list of entries.
use libkvs.Prelude.{
  ℕ, zero, suc, ◌^◌, ltb, Bytes, bytes_eq, Option, none, some, List, [], ◌∷◌, if◌then◌else◌, length,
}
use libkvs.RandomUtils.{random, ◌>>=◌}

-- `m_storagePaths[path]++` on an int; `none` is its overflow, which is undefined.
unfoldable pub count_path : Bytes → List (Bytes × ℕ) → Option (List (Bytes × ℕ))
count_path path [] = some ((path, 1) ∷ [])
count_path path ((p, n) ∷ ps) =
    let rest = count_path path ps >>= λ qs. some ((p, n) ∷ qs) in
    let raised = if ltb (suc n) (2 ^ 31) then some ((p, suc n) ∷ ps) else none in
    if bytes_eq p path then raised else rest

-- `m_storagePaths[path]--`, and `erase` when that is 0. A missing path would be made, with -1, which
-- `none` stands for.
unfoldable pub uncount_path : Bytes → List (Bytes × ℕ) → Option (List (Bytes × ℕ))
uncount_path path [] = none
uncount_path path ((p, n) ∷ ps) =
    let rest = uncount_path path ps >>= λ qs. some ((p, n) ∷ qs) in
    if bytes_eq p path then lowered n else rest
  where
    lowered : ℕ → Option (List (Bytes × ℕ))
    lowered zero = none
    lowered (suc zero) = some ps
    lowered (suc (suc m)) = some ((p, suc m) ∷ ps)

-- getRandomElement; `none` is the failed assertion on an empty container.
abbrev pub element_at {ℓ} : {A : Type ℓ} → List A → ℕ → Option A
element_at [] i = none
element_at (x ∷ xs) zero = some x
element_at (x ∷ xs) (suc i) = element_at xs i

unfoldable pub get_random_element {ℓ} : {A : Type ℓ} → ℕ → List A → Option A
get_random_element draw xs = random draw (length xs) >>= element_at xs
