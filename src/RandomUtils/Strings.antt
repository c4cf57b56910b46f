-- ===== src/RandomUtils/Strings.antt =====
-- What the random functions give, whatever is drawn.
use libkvs.Prelude.{
  ℕ, zero, suc, ◌+◌, ◌-◌, ◌%◌, ◌≤◌, ◌<◌, ◌≡◌, refl, ap, Bytes, Bool, true, ◌&&◌, ◌||◌, some, List,
  [], ◌∷◌, leb, length, arith, All,
}
use libkvs.RandomUtils.{random_between, random, chars, get_or, random_char, generate_string, ◌>>=◌}

-- Every interval that is not empty gives a number in it.
pub random_between_bounds :
    (draw from to : ℕ)
    → from < to
    → (r : ℕ) × (random_between draw from to ≡ some r) × (from ≤ r) × (r < to)
unfolding random_between
random_between_bounds draw from to h =
    (from + draw % (to - from), ground arith, omega arith, grind arith)

abbrev pub is_alphanumeric : ℕ → Bool
is_alphanumeric c =
    (leb b'0' c && leb c b'9') || (leb b'A' c && leb c b'Z') || (leb b'a' c && leb c b'z')

get_or-All {ℓ} :
    {A : Type ℓ} (P : A → Type 0) (xs : List A) (i : ℕ) (d : A)
    → All P xs
    → i < length xs
    → P (get_or xs i d)
get_or-All P [] i d h lt = absurd (omega arith)
get_or-All P (x ∷ xs) zero d h lt = h.0
get_or-All P (x ∷ xs) (suc i) d h lt = get_or-All P xs i d h.1 (omega arith)

chars-All : All (λ (c : ℕ). is_alphanumeric c ≡ true) chars
chars-All = ground arith

random_char_total : (draw : ℕ) → (c : ℕ) × (random_char draw ≡ some c) × (is_alphanumeric c ≡ true)
unfolding random_char random
random_char_total draw =
    let (r, e, lo, hi) = random_between_bounds draw 0 (length chars) (omega arith) in
    (
      get_or chars r 0,
      rw (e, ◌>>=◌),
      get_or-All (λ (c : ℕ). is_alphanumeric c ≡ true) chars r 0 chars-All hi,
    )

-- Whatever is drawn, generateString gives a text of the wanted length, of letters and digits.
pub generate_string_total :
    (engine : ℕ → ℕ) (i n : ℕ)
    → (s : Bytes) × (generate_string engine i n ≡ some s)
      × (length s ≡ n)
      × All (λ (c : ℕ). is_alphanumeric c ≡ true) s
unfolding generate_string
generate_string_total engine i zero = ([], refl, refl, tt)
generate_string_total engine i (suc n) =
    let (c, e, good) = random_char_total (engine i) in
    let (cs, es, size, all) = generate_string_total engine (suc i) n in
    (c ∷ cs, rw (e, ◌>>=◌, es, ◌>>=◌), ap suc size, (good, all))
