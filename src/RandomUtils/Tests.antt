-- ===== src/RandomUtils/Tests.antt =====
-- Random texts for an engine that counts up.
use libkvs.Prelude.{ℕ, ◌≡◌, refl, ◌+◌, Bytes, bytes, true, some, length, All}
use libkvs.RandomUtils.{generate_string, random_char, random, random_between}
use libkvs.RandomUtils.Strings.{is_alphanumeric, generate_string_total}

abbrev count_up : ℕ → ℕ
count_up i = 60 + i

drawn_text :
    (s : Bytes) × (generate_string count_up 0 4 ≡ some s)
    × (length s ≡ 4)
    × All (λ (c : ℕ). is_alphanumeric c ≡ true) s
drawn_text = generate_string_total count_up 0 4

around_the_end : generate_string count_up 0 4 ≡ some (bytes "yz01")
unfolding generate_string random_char random random_between
around_the_end = refl
