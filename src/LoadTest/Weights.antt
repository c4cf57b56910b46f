-- ===== src/LoadTest/Weights.antt =====
-- The choice of an operation by its weight, in TestRunner.cpp.
use libkvs.Prelude.{
  ℕ, ◌+◌, ◌-◌, ◌%◌, ◌^◌, ◌≤◌, ◌<◌, ◌≡◌, ◌∙◌, refl, sym, ap, subst, true, false, Option, none, some,
  List, [], ◌∷◌, ltb, if◌then◌else◌, arith, Bool-cases, inl, inr, All,
}
use libkvs.RandomUtils.{random, random_between, ◌>>=◌}
use libkvs.LoadTest.{
  TestOptions, Operation, k_read, k_write, k_delete, k_mount, k_unmount, k_key_range_query,
  OperationWeight, operation_weights, add_weights, sub_int, is_not_positive, choose,
  get_random_operation,
}

-- The weights one behind the other on the numbers from 0: the one on which a number lies.
unfoldable pub operation_at : ℕ → List OperationWeight → Option Operation
operation_at r [] = none
operation_at r (w ∷ ws) =
    let rest = operation_at (r - w.weight) ws in if ltb r w.weight then some w.operation else rest

abbrev pub weight_of : TestOptions → Operation → ℕ
weight_of o k_read = o.reads_weight
weight_of o k_write = o.writes_weight
weight_of o k_delete = o.deletes_weight
weight_of o k_mount = o.mounts_weight
weight_of o k_unmount = o.unmounts_weight
weight_of o k_key_range_query = o.krqs_weight

unfoldable pub sum_weights : List OperationWeight → ℕ
sum_weights [] = 0
sum_weights (w ∷ ws) = w.weight + sum_weights ws

add_weights_lem :
    (total : ℕ) (ws : List OperationWeight)
    → total + sum_weights ws < 2 ^ 64
    → add_weights total ws ≡ total + sum_weights ws
unfolding add_weights sum_weights
add_weights_lem total [] h = omega arith
add_weights_lem total (w ∷ ws) h =
    add_weights_lem ((total + w.weight) % 2 ^ 64) ws (omega arith) ∙ omega arith

-- One step of the loop, on numbers that an int holds.
ends :
    (value weight : ℕ)
    → value < 2 ^ 31
    → weight < 2 ^ 31
    → value ≤ weight
    → is_not_positive (sub_int value weight) ≡ true
ends value weight v w h = ground arith

goes_on :
    (value weight : ℕ) → value < 2 ^ 31 → weight < value → sub_int value weight ≡ value - weight
goes_on value weight v h = omega arith

stays_positive : (value : ℕ) → 0 < value → value < 2 ^ 31 → is_not_positive value ≡ false
stays_positive value p v = ground arith

choose-operation_at :
    (value : ℕ) (ws : List OperationWeight)
    → 0 < value
    → value < 2 ^ 31
    → sum_weights ws < 2 ^ 31
    → choose value ws ≡ operation_at (value - 1) ws
unfolding choose sum_weights operation_at
choose-operation_at value [] p v s = refl
choose-operation_at value (w ∷ ws) p v s = elim (Bool-cases (ltb (value - 1) w.weight)) [
  | inl e ↦ rw (e, ends value w.weight v (omega arith) (ground arith)) refl
  | inr e ↦
      let lt : w.weight < value = ground arith in
      rw
        (
          e,
          goes_on value w.weight v lt,
          stays_positive (value - w.weight) (omega arith) (omega arith),
          choose-operation_at (value - w.weight) ws (omega arith) (omega arith) (omega arith),
        )
        (ap (λ r. operation_at r ws) (omega arith))
]

-- A number below the sum lies on an operation of positive weight.
operation_at_total :
    (o : TestOptions) (r : ℕ) (ws : List OperationWeight)
    → All (λ (w : OperationWeight). weight_of o w.operation ≡ w.weight) ws
    → r < sum_weights ws
    → (op : Operation) × (operation_at r ws ≡ some op) × (0 < weight_of o op)
unfolding sum_weights operation_at
operation_at_total o r [] h lt = absurd (omega arith)
operation_at_total o r (w ∷ ws) h lt = elim (Bool-cases (ltb r w.weight)) [
  | inl e ↦ (w.operation, rw e refl, subst (λ n. 0 < n) (sym h.0) (ground arith))
  | inr e ↦
      let (op, found, positive) = operation_at_total o (r - w.weight) ws h.1 (ground arith) in
      (op, rw e found, positive)
]

get_random_operation-operation_at :
    (draw : ℕ) (ws : List OperationWeight)
    → 0 < sum_weights ws
    → sum_weights ws < 2 ^ 31
    → get_random_operation draw (add_weights 0 ws) ws ≡ operation_at (draw % sum_weights ws) ws
unfolding get_random_operation random random_between
get_random_operation-operation_at draw ws p s =
    let n = draw % sum_weights ws in
    let lt : n < sum_weights ws = grind arith in
    let small : n + 1 < 2 ^ 32 = omega arith in
    let same : (n + 1) % 2 ^ 32 ≡ n + 1 = omega arith in
    let whole : sum_weights ws - 0 ≡ sum_weights ws = omega arith in
    let drawn : 0 + draw % (sum_weights ws - 0) ≡ n = rw whole (omega arith) in
    let total : add_weights 0 ws ≡ sum_weights ws =
      add_weights_lem 0 ws (omega arith) ∙ omega arith in
    let tested : ltb 0 (sum_weights ws) ≡ true = ground arith in
    rw (total, tested, drawn, ◌>>=◌, same)
      (choose-operation_at (n + 1) ws (omega arith) (omega arith) s
        ∙ ap (λ r. operation_at r ws) (omega arith))

-- If the sum of the weights is positive and below 2^31, every draw gives the operation on whose
-- part of the sum it falls, and the weight of that operation is positive.
pub get_random_operation_total :
    (o : TestOptions) (draw : ℕ)
    → let weights = operation_weights o in
      0 < sum_weights weights
      → sum_weights weights < 2 ^ 31
      → (op : Operation) × (get_random_operation draw (add_weights 0 weights) weights ≡ some op)
        × (operation_at (draw % sum_weights weights) weights ≡ some op)
        × (0 < weight_of o op)
unfolding operation_weights
get_random_operation_total o draw p s =
    let ws = operation_weights o in
    let n = draw % sum_weights ws in
    let lt : n < sum_weights ws = grind arith in
    let (op, found, positive) =
      operation_at_total o n ws (refl, (refl, (refl, (refl, (refl, (refl, tt)))))) lt in
    (op, get_random_operation-operation_at draw ws p s ∙ found, found, positive)
