-- ===== src/Parser/Chains.antt =====
-- `ParseExpression` on the elements and tokens that it reads.
pub mod Tests
use emufxtool.Base.{
  ℕ, zero, suc, ◌<◌, ◌≡◌, refl, sym, ◌∙◌, Bool, true, false, Option, none, some, List, [], ◌∷◌,
  length, arith, Option-cases, inl, inr, if◌then◌else◌,
}
use emufxtool.Base.Text.{Text}
use emufxtool.Expression.Trees.{ExprOp}
use emufxtool.Scanner.Tables.{Token}
use emufxtool.Scanner.Words as ScannerWords
use emufxtool.Compiler.Objects.{Operand, combined}
use emufxtool.Parser.Operators.{OpToken, t_other, is_operator, expr_op_of, settle, top}
use emufxtool.Parser.Order.{
  Chain, rounds, AreBinary, ReadsAs, expr_op_of-is_operator, parse_loop, bottom, operand,
  parse_loop-ReadsAs,
}
use emufxtool.Parser.State.{Library, Parser, Outcome, Method, ok, ◌>>=◌}
use emufxtool.Parser.Blocks.{token_by}
use emufxtool.Parser.Reading.{push_back_word}
use emufxtool.Parser.Expressions.{op_token, expression_loop}

-- The parser with its last word given back.
abbrev pub pushed : Parser → Parser
pushed p = record p { scanner = ScannerWords.push_back_word p.scanner }

module _ (lib : Library) (next : Method Text) (element : Method Operand) where
  -- `Elements p a xs q`: from the state `p` on, `element` and `next` give the operand `a`, the
  -- operators and operands `xs`, and a token that is no operator, which leaves the state `q`.
  pub data Elements : Parser → Operand → Chain Operand → Parser → Type 0 where
    last :
        {p p' q : Parser} {a : Operand} {t : Token}
        → element p ≡ ok a p'
        → token_by lib next p' ≡ ok t q
        → op_token t ≡ t_other
        → Elements p a [] q
    more :
        {p p' p'' q : Parser} {a b : Operand} {t : Token} {op : ExprOp} {xs : Chain Operand}
        → element p ≡ ok a p'
        → token_by lib next p' ≡ ok t p''
        → expr_op_of (op_token t) ≡ some op
        → Elements p'' b xs q
        → Elements p a ((op_token t, b) ∷ xs) q

  Elements-AreBinary :
      {p q : Parser} {a : Operand} {xs : Chain Operand} → Elements p a xs q → AreBinary combined xs
  Elements-AreBinary (last h k o) = tt
  Elements-AreBinary (more {op = op} h k o es) = ((op, o), Elements-AreBinary es)

  expression_loop-parse_loop :
      (fuel : ℕ) {p q : Parser} {a : Operand} {xs : Chain Operand}
      → Elements p a xs q
      → (es : List Operand) (ops : List OpToken) (e : Operand) → length xs < fuel
      → parse_loop combined es ops (rounds a xs) ≡ some e
      → expression_loop lib fuel next element es ops p ≡ ok e (pushed q)
  unfolding expression_loop parse_loop is_operator push_back_word
  expression_loop-parse_loop zero els es ops e h k = absurd (omega (arith, h))
  expression_loop-parse_loop (suc fuel) {a = a} (last h k o) es ops e l found =
      elim (Option-cases (settle combined t_other (a ∷ es) ops)) [
        | inl stuck_here ↦ absurd (cc (rw (stuck_here, parse_loop) at found))
        | inr (st, done) ↦
            let result : top st.0 ≡ some e = rw (done, parse_loop) at found in
            rw (h, ◌>>=◌, k, o, done, o, result) refl
      ]
  expression_loop-parse_loop (suc fuel) {a = a} (more {t = t} h k o els) es ops e l found =
      elim (Option-cases (settle combined (op_token t) (a ∷ es) ops)) [
        | inl stuck_here ↦ absurd (cc (rw (stuck_here, parse_loop) at found))
        | inr (st, done) ↦
            let result = rw (done, parse_loop, expr_op_of-is_operator (op_token t) o) at found in
            let ih =
              expression_loop-parse_loop fuel els st.0 (op_token t ∷ st.1) e (omega (arith, l))
                result in
            rw (h, ◌>>=◌, k, done, expr_op_of-is_operator (op_token t) o) ih
      ]

  -- Where the elements and tokens ahead are an operand, a chain of operators that all combine two
  -- operands, and a token that is no operator, and the fuel is more than the operators:
  -- `ParseExpression` returns a tree that reads all of them in their order and by the priorities
  -- of the operators, those of one priority from the left, and gives the last token back.
  pub expression_loop-ReadsAs :
      (fuel : ℕ) {p q : Parser} {a : Operand} {xs : Chain Operand}
      → Elements p a xs q
      → length xs < fuel
      → (e : Operand) × (expression_loop lib fuel next element [] [] p ≡ ok e (pushed q))
        × ReadsAs combined 0 a xs e
  expression_loop-ReadsAs fuel {a = a} {xs = xs} els h =
      let (e, found, reads) =
        parse_loop-ReadsAs combined xs a (Elements-AreBinary els) (bottom operand) in
      (e, expression_loop-parse_loop fuel els [] [] e h found, reads)
