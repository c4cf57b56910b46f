-- ===== src/VirtualStorage/Ranges/Fresh.antt =====
-- The keys that the inner loop of the second phase lets through.
use libkvs.Prelude.{
  ℕ, zero, suc, ◌≤◌, ◌≡◌, refl, ap, Bytes, false, ◌||◌, List, [], ◌∷◌, ◌++◌, length, take,
  append_assoc, append-nil, bytes_eq_iff, arith, Bool-cases, inl, inr,
}
use libkvs.VirtualStorage.Ranges.{excluded, new_keys}

pub new_keys-append :
    (ex xs ys : List Bytes)
    → new_keys ex (xs ++ ys) ≡ new_keys ex xs ++ new_keys (ex ++ new_keys ex xs) ys
unfolding new_keys
new_keys-append ex [] ys = rw (append-nil ex)
new_keys-append ex (x ∷ xs) ys = elim (Bool-cases (excluded x ex)) [
  | inl e ↦ rw e (new_keys-append ex xs ys)
  | inr e ↦ rw (
    e,
    new_keys-append (ex ++ x ∷ []) xs ys,
    append_assoc ex (x ∷ []) (new_keys (ex ++ x ∷ []) xs),
  )
]

pub length-new_keys-le : (ex xs : List Bytes) → length (new_keys ex xs) ≤ length xs
unfolding new_keys
length-new_keys-le ex [] = omega arith
length-new_keys-le ex (x ∷ xs) =
    ground (arith, length-new_keys-le ex xs, length-new_keys-le (ex ++ x ∷ []) xs)

-- No key of the second list stands in the first, or stands in the second twice.
abbrev pub IsFresh : List Bytes → List Bytes → Type 0
IsFresh ex [] = Unit {0}
IsFresh ex (k ∷ ks) = (excluded k ex ≡ false) × IsFresh (ex ++ k ∷ []) ks

pub new_keys-IsFresh : (ex xs : List Bytes) → IsFresh ex (new_keys ex xs)
unfolding new_keys
new_keys-IsFresh ex [] = tt
new_keys-IsFresh ex (x ∷ xs) = elim (Bool-cases (excluded x ex)) [
  | inl e ↦ rw e (new_keys-IsFresh ex xs)
  | inr e ↦ rw e (e, new_keys-IsFresh (ex ++ x ∷ []) xs)
]

pub take-IsFresh : (n : ℕ) (ex xs : List Bytes) → IsFresh ex xs → IsFresh ex (take n xs)
take-IsFresh zero ex xs h = tt
take-IsFresh (suc n) ex [] h = tt
take-IsFresh (suc n) ex (x ∷ xs) h = (h.0, take-IsFresh n (ex ++ x ∷ []) xs h.1)

pub excluded-append :
    (k : Bytes) (xs ys : List Bytes) → excluded k (xs ++ ys) ≡ (excluded k xs || excluded k ys)
unfolding excluded
excluded-append k [] ys = refl
excluded-append k (x ∷ xs) ys = ground (arith, excluded-append k xs ys)

-- Nothing is lost: a key of either list is excluded or let through.
pub excluded-new_keys :
    (k : Bytes) (ex xs : List Bytes)
    → excluded k (ex ++ new_keys ex xs) ≡ (excluded k ex || excluded k xs)
unfolding new_keys excluded
excluded-new_keys k ex [] = rw (append-nil ex) (ground arith)
excluded-new_keys k ex (x ∷ xs) = elim (Bool-cases (excluded x ex)) [
  | inl e ↦
      rw (e, excluded-new_keys k ex xs)
        (ground (arith, bytes_eq_iff x k, ap (λ (y : Bytes). excluded y ex) {x = x} {y = k}))
  | inr e ↦
      rw
        (
          e,
          ← append_assoc ex (x ∷ []) (new_keys (ex ++ x ∷ []) xs),
          excluded-new_keys k (ex ++ x ∷ []) xs,
          excluded-append k ex (x ∷ []),
        )
        (ground arith)
]
