-- ===== src/Payloads/Depth.antt =====
-- The nesting of a value, for backend/app/core/payload_limits.py.
use messaging_system.Base.{
  ℕ, zero, suc, ◌+◌, ◌-◌, ◌≤◌, ◌≡◌, refl, ap, ◌∙◌, some, [], ◌∷◌, max, arith,
}
use messaging_system.Payloads.{
  Json, atom, dict, list, Values, no_values, and_value, Stack, extend, children, depth_loop, size,
  sizes, json_depth,
}

-- The nesting, by recursion on the value.
unfoldable mutual
  pub nesting : Json → ℕ
  nesting atom = 1
  nesting (dict vs) = deepest vs + 1
  nesting (list vs) = deepest vs + 1

  pub deepest : Values → ℕ
  deepest no_values = 0
  deepest (and_value v vs) = max (nesting v) (deepest vs)

unfoldable stack_size : Stack → ℕ
stack_size [] = 0
stack_size ((v, d) ∷ stack) = size v + stack_size stack

-- The depth that a stack still leads to.
unfoldable stack_depth : ℕ → Stack → ℕ
stack_depth m [] = m
stack_depth m ((v, d) ∷ stack) = stack_depth (max m (d + nesting v - 1)) stack

extend-size :
    (vs : Values) (d : ℕ) (stack : Stack)
    → stack_size (extend vs d stack) ≡ sizes vs + stack_size stack
unfolding extend sizes stack_size
extend-size no_values d stack = omega arith
extend-size (and_value v vs) d stack = omega (arith, extend-size vs d ((v, d) ∷ stack))

extend-depth :
    (vs : Values) (m d : ℕ) (stack : Stack)
    → stack_depth (max m d) (extend vs (d + 1) stack) ≡ stack_depth (max m (d + deepest vs)) stack
unfolding extend deepest stack_depth
extend-depth no_values m d stack = ap (λ k. stack_depth k stack) (omega arith)
extend-depth (and_value v vs) m d stack =
    extend-depth vs m d ((v, d + 1) ∷ stack) ∙ ap (λ k. stack_depth k stack) (omega arith)

depth_loop-depth :
    (fuel m : ℕ) (stack : Stack)
    → stack_size stack ≤ fuel
    → depth_loop fuel m stack ≡ some (stack_depth m stack)
unfolding depth_loop children stack_size stack_depth size nesting
depth_loop-depth fuel m [] h = refl
depth_loop-depth zero m ((atom, d) ∷ stack) h = absurd (omega arith)
depth_loop-depth zero m ((dict vs, d) ∷ stack) h = absurd (omega arith)
depth_loop-depth zero m ((list vs, d) ∷ stack) h = absurd (omega arith)
depth_loop-depth (suc fuel) m ((atom, d) ∷ stack) h =
    depth_loop-depth fuel (max m d) stack (omega arith)
    ∙ ap (λ k. some (stack_depth k stack)) (omega arith)
depth_loop-depth (suc fuel) m ((dict vs, d) ∷ stack) h =
    depth_loop-depth fuel (max m d) (extend vs (d + 1) stack)
      (omega (arith, extend-size vs (d + 1) stack))
    ∙ ap some (extend-depth vs m d stack)
    ∙ ap (λ k. some (stack_depth k stack)) (omega arith)
depth_loop-depth (suc fuel) m ((list vs, d) ∷ stack) h =
    depth_loop-depth fuel (max m d) (extend vs (d + 1) stack)
      (omega (arith, extend-size vs (d + 1) stack))
    ∙ ap some (extend-depth vs m d stack)
    ∙ ap (λ k. some (stack_depth k stack)) (omega arith)

nesting_positive : (v : Json) → 1 ≤ nesting v
unfolding nesting
nesting_positive atom = omega arith
nesting_positive (dict vs) = omega arith
nesting_positive (list vs) = omega arith

-- The walk with a stack ends after one round for each value, and its answer is the nesting of the value
-- as recursion defines it: 1 for a plain value, one more than its deepest part for a container.
pub json_depth-nesting : (v : Json) → json_depth v ≡ some (nesting v)
unfolding json_depth stack_size stack_depth
json_depth-nesting v =
    depth_loop-depth (size v) 1 ((v, 1) ∷ []) (omega arith)
    ∙ ap some (omega (arith, nesting_positive v))
