-- ===== src/StringUtils/Laws.antt =====
-- What the prefix test and the splitting of paths promise.
use libkvs.Prelude.{
  ℕ, ◌≡◌, ◌≢◌, ◌↔◌, refl, sym, ap, subst, ◌∙◌, inl, inr, Bytes, List, [], ◌∷◌, ◌++◌, ◌==◌, All,
  arith, Bool-cases,
}
use libkvs.StringUtils.{split}

-- The pieces with the separator between them.
abbrev pub join : ℕ → List Bytes → Bytes
join sep [] = []
join sep (piece ∷ []) = piece
join sep (piece ∷ next ∷ pieces) = piece ++ sep ∷ join sep (next ∷ pieces)

-- No byte of a text is the separator.
abbrev pub Free : ℕ → Bytes → Type 0
Free sep = All (λ c. c ≢ sep)

-- There is always a first piece.
pub split-cons :
    (s : Bytes) (sep : ℕ) → (piece : Bytes) × (pieces : List Bytes) × (split s sep ≡ piece ∷ pieces)
unfolding split
split-cons [] sep = ([], [], refl)
split-cons (c ∷ cs) sep =
    let (p, ps, e) = split-cons cs sep in
    elim (Bool-cases (c == sep)) [
      | inl h ↦ ([], split cs sep, ground arith)
      | inr h ↦ (c ∷ p, ps, ground (arith, e))
    ]

join-extend_first :
    (sep c : ℕ) (piece : Bytes) (pieces : List Bytes)
    → join sep ((c ∷ piece) ∷ pieces) ≡ c ∷ join sep (piece ∷ pieces)
join-extend_first sep c piece [] = refl
join-extend_first sep c piece (next ∷ pieces) = refl

join-split : (s : Bytes) (sep : ℕ) → join sep (split s sep) ≡ s
unfolding split
join-split [] sep = refl
join-split (c ∷ cs) sep =
    let (p, ps, e) = split-cons cs sep in
    ground (arith, e, join-split cs sep, ap (join sep) e, join-extend_first sep c p ps)

split-Free : (s : Bytes) (sep : ℕ) → All (Free sep) (split s sep)
unfolding split
split-Free [] sep = (tt, tt)
split-Free (c ∷ cs) sep =
    let (p, ps, e) = split-cons cs sep in
    let ih : All (Free sep) (p ∷ ps) = subst (All (Free sep)) e (split-Free cs sep) in
    ground (arith, e, ih, split-Free cs sep)

split-join :
    (sep : ℕ) (piece : Bytes) (pieces : List Bytes)
    → All (Free sep) (piece ∷ pieces)
    → split (join sep (piece ∷ pieces)) sep ≡ piece ∷ pieces
unfolding split
split-join sep [] [] h = refl
split-join sep (c ∷ cs) [] h = ground (arith, split-join sep cs [] (h.0.1, tt))
split-join sep [] (next ∷ pieces) h = ground (arith, split-join sep next pieces h.1)
split-join sep (c ∷ cs) (next ∷ pieces) h =
    ground (arith, split-join sep cs (next ∷ pieces) (h.0.1, h.1))

-- The pieces of a text are at least one, hold no separator and join to the text again, and no other
-- list of pieces does so.
pub split_iff :
    (s : Bytes) (sep : ℕ) (piece : Bytes) (pieces : List Bytes)
    → (split s sep ≡ piece ∷ pieces)
      ↔ (All (Free sep) (piece ∷ pieces) × (join sep (piece ∷ pieces) ≡ s))
split_iff s sep piece pieces = (
  λ e. (subst (All (Free sep)) e (split-Free s sep), ap (join sep) (sym e) ∙ join-split s sep),
  λ h. ap (λ t. split t sep) (sym h.1) ∙ split-join sep piece pieces h.0,
)
