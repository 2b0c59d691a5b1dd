-- ===== src/Parser/Order.antt =====
-- The tree that `ParseExpression` builds, described by the priorities of its operators.
use emufxtool.Base.{
  ℕ, suc, ◌≤◌, ◌<◌, ◌≡◌, refl, sym, ap, ◌∙◌, ◌++◌, ltb, Bool-cases, inl, inr, true, false, Option,
  none, some, if◌then◌else◌, List, [], ◌∷◌, arith,
}
use mathlib.Core.List.{append_assoc, append-nil}
use emufxtool.Expression.Trees.{ExprOp}
use emufxtool.Parser.Operators.{
  OpToken, op_priority, expr_op_of, is_operator, settle, combine, top, t_power, t_other,
}

-- Elements and tokens that are given, for the description: what the loop makes of them. `none`
-- where the list ends before a token that is no operator.
unfoldable pub parse_loop :
    {E : Type 0} → (ExprOp → E → E → E) → List E → List OpToken → List (E × OpToken) → Option E
parse_loop join es ops [] = none
parse_loop join es ops ((e, token) ∷ rounds) = elim (settle join token (e ∷ es) ops) [
  | none ↦ none
  | some st ↦ if is_operator token then parse_loop join st.0 (token ∷ st.1) rounds else top st.0
]

lower_of : {a b : ℕ} → ltb a b ≡ true → a < b
lower_of h = ground arith

not_lower : {a b : ℕ} → ltb a b ≡ false → b ≤ a
not_lower h = ground arith

pub expr_op_of-is_operator :
    (s : OpToken) {op : ExprOp} → expr_op_of s ≡ some op → is_operator s ≡ true
unfolding expr_op_of is_operator
expr_op_of-is_operator t_power h = cc
expr_op_of-is_operator t_other h = cc
expr_op_of-is_operator _ h = refl

op_priority_bound : (s : OpToken) → op_priority s ≤ 100
unfolding op_priority
op_priority_bound t_power = omega arith
op_priority_bound _ = omega arith

-- The operators and operands behind the first operand.
abbrev pub Chain : Type 0 → Type 0
Chain E = List (OpToken × E)

-- The rounds that read an operand and the chain behind it; the word behind them is no operator.
abbrev pub rounds : {E : Type 0} → E → Chain E → List (E × OpToken)
rounds a [] = (a, t_other) ∷ []
rounds a ((s, b) ∷ xs) = (a, s) ∷ rounds b xs

module _ {E : Type 0} (join : ExprOp → E → E → E) where
  -- `ReadsAs p a xs e`: the operand `a` and the chain `xs` read as the tree `e`. All operators that
  -- are combined have a priority of `p` or more; to the left of an operator stand operators of its
  -- priority or more, to its right operators of more than its priority.
  pub data ReadsAs : ℕ → E → Chain E → E → Type 0 where
    operand : {p : ℕ} {a : E} → ReadsAs p a [] a
    operation :
        {p : ℕ} {a b l r : E} {xs ys zs : Chain E}
        → (s : OpToken) (op : ExprOp) → p ≤ op_priority s
        → expr_op_of s ≡ some op
        → ReadsAs (op_priority s) a xs l
        → ReadsAs (suc (op_priority s)) b ys r
        → xs ++ (s, b) ∷ ys ≡ zs
        → ReadsAs p a zs (join op l r)

  ReadsAs-weaken : {p q : ℕ} {a e : E} {xs : Chain E} → q ≤ p → ReadsAs p a xs e → ReadsAs q a xs e
  ReadsAs-weaken h operand = operand
  ReadsAs-weaken h (operation s op k o l r e) = operation s op (omega arith) o l r e

  -- `Stacked p a xs r es ops`: the operand `a` and the chain `xs` lie on the stacks: `r` on top,
  -- `es` and `ops` below; the operators rise to the top, and `r` combines priorities of `p` or more.
  pub data Stacked : ℕ → E → Chain E → E → List E → List OpToken → Type 0 where
    bottom : {p : ℕ} {a r : E} {xs : Chain E} → ReadsAs p a xs r → Stacked p a xs r [] []
    above :
        {p : ℕ} {a b l r : E} {xs ys zs : Chain E} {es : List E} {ops : List OpToken}
        → (s : OpToken) (op : ExprOp) → op_priority s < p
        → expr_op_of s ≡ some op
        → Stacked (op_priority s) a xs l es ops
        → ReadsAs p b ys r
        → xs ++ (s, b) ∷ ys ≡ zs
        → Stacked p a zs r (l ∷ es) (s ∷ ops)

  -- The top may be read further.
  Stacked-extend :
      {p : ℕ} {a l m : E} {xs zs : Chain E} {es : List E} {ops : List OpToken}
      → (ws : Chain E) → Stacked p a xs l es ops
      → ((b : E) (ys : Chain E) → ReadsAs p b ys l → ReadsAs p b (ys ++ ws) m)
      → xs ++ ws ≡ zs
      → Stacked p a zs m es ops
  Stacked-extend {a = a} {xs = xs} ws (bottom r) f e = rw (sym e) (bottom (f a xs r))
  Stacked-extend ws (above {b = b} {xs = xs} {ys = ys} s op h o under r e) f g =
      above s op h o under (f b ys r)
        (sym (append_assoc xs ((s, b) ∷ ys) ws) ∙ ap (λ t. t ++ ws) e ∙ g)

  -- A token that lets the loop of reductions run down to the operators of lower priority.
  settle-Stacked :
      (token : OpToken) (ops : List OpToken) {p : ℕ} {a r : E} {xs : Chain E} {es : List E}
      → op_priority token ≤ p
      → Stacked p a xs r es ops
      → (m : E) × (fs : List E) × (rest : List OpToken) × (settle join token (r ∷ es) ops
          ≡ some (m ∷ fs, rest))
        × Stacked (op_priority token) a xs m fs rest
  unfolding settle combine op_priority
  settle-Stacked token [] {r = r} h (bottom e) = (r, [], [], refl, bottom (ReadsAs-weaken h e))
  settle-Stacked token (_ ∷ ops) {a = a} {r = r} h
        (above {b = b} {l = l} {ys = ys} {es = es} s op k o under e zs) =
      elim (Bool-cases (ltb (op_priority s) (op_priority token))) [
        | inl lower ↦ (
          r,
          l ∷ es,
          s ∷ ops,
          rw lower refl,
          above s op (lower_of lower) o under (ReadsAs-weaken h e) zs,
        )
        | inr higher ↦
            let q = settle-Stacked token ops (not_lower higher) (
              Stacked-extend ((s, b) ∷ ys) under
                (λ c ws left.
                  operation s op (omega arith) o left (ReadsAs-weaken (omega arith) e) refl)
                zs) in
            (q.0, q.1, q.2, rw (higher, o) q.3, q.4)
      ]

  -- Every token of the chain has a case in the code that combines two operands.
  abbrev pub AreBinary : Chain E → Type 0
  AreBinary [] = Unit
  AreBinary ((s, b) ∷ xs) = ((op : ExprOp) × (expr_op_of s ≡ some op)) × AreBinary xs

  Stacked-ReadsAs :
      {a m : E} {xs : Chain E} {es : List E} {ops : List OpToken}
      → Stacked 0 a xs m es ops
      → ReadsAs 0 a xs m
  Stacked-ReadsAs (bottom r) = r
  Stacked-ReadsAs (above s op h o under r e) = absurd (omega arith)

  pub parse_loop-ReadsAs :
      (ys : Chain E) (b : E) {a : E} {xs : Chain E} {es : List E} {ops : List OpToken}
      → AreBinary ys
      → Stacked 101 a xs b es ops
      → (e : E) × (parse_loop join es ops (rounds b ys) ≡ some e) × ReadsAs 0 a (xs ++ ys) e
  unfolding parse_loop is_operator op_priority
  parse_loop-ReadsAs [] b {xs = xs} u q =
      let done = settle-Stacked t_other _ (omega arith) q in
      (done.0, rw (done.3, parse_loop) refl, rw (append-nil xs) (Stacked-ReadsAs done.4))
  parse_loop-ReadsAs ((s, c) ∷ ys) b {xs = xs} ((op, o), u) q =
      let step = settle-Stacked s _ (omega (arith, op_priority_bound s)) q in
      let rest =
        parse_loop-ReadsAs ys c u
          (above s op (omega (arith, op_priority_bound s)) o step.4 operand refl) in
      (
        rest.0,
        rw (step.3, parse_loop, expr_op_of-is_operator s o) rest.1,
        rw (sym (append_assoc xs ((s, c) ∷ []) ys)) rest.2,
      )
