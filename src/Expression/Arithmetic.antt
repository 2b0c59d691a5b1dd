-- ===== src/Expression/Arithmetic.antt =====
-- `emuExpression::Eval` and the integers: what + - * and a sign mean in 32 bits.
use emufxtool.Base.{ℕ, ◌+◌, ◌-◌, ◌*◌, ◌/◌, ◌%◌, ◌^◌, ◌<◌, ◌≡◌, refl, ap, some, arith}
use native.Mathlib.Nat.{mod-add-div'}
use emufxtool.Words.{u32, add32, sub32}
use emufxtool.Words.Algebra.{IsWord}
use emufxtool.Expression.Trees.{
  Expression, number, unary, binary, op_plus, op_minus, op_times, op_neg, apply, needs_b, eval,
}

-- An integer as a difference: what is added, and what is taken away.
abbrev pub Integer : Type 0
Integer = ℕ × ℕ

abbrev pub add : Integer → Integer → Integer
add (p, n) (q, m) = (p + q, n + m)

abbrev pub negate : Integer → Integer
negate (p, n) = (n, p)

abbrev pub multiply : Integer → Integer → Integer
multiply (p, n) (q, m) = (p * q + n * m, p * m + n * q)

-- The integer that an expression stands for.
abbrev pub exact : Expression → Integer
exact (number flags value n_type) = (value, 0)
exact (unary op_neg a) = negate (exact a)
exact (binary op_plus a b) = add (exact a) (exact b)
exact (binary op_minus a b) = add (exact a) (negate (exact b))
exact (binary op_times a b) = multiply (exact a) (exact b)
exact e = (0, 0)

-- Constants, and their sums, differences, products and negations.
abbrev pub IsArithmetic : Expression → Type 0
IsArithmetic (number flags value n_type) = IsWord value
IsArithmetic (unary op_neg a) = IsArithmetic a
IsArithmetic (binary op_plus a b) = IsArithmetic a × IsArithmetic b
IsArithmetic (binary op_minus a b) = IsArithmetic a × IsArithmetic b
IsArithmetic (binary op_times a b) = IsArithmetic a × IsArithmetic b
IsArithmetic e = ⊥

-- A word is an integer but for a multiple of 2 ^ 32.
record Represents (v : ℕ) (z : Integer) : Type 0 where
  word : v < 2 ^ 32
  more : ℕ
  less : ℕ
  same : v + z.1 + more * 2 ^ 32 ≡ z.0 + less * 2 ^ 32

Represents-add :
    (x y : ℕ) (a b : Integer) → Represents x a → Represents y b → Represents (add32 x y) (add a b)
Represents-add x y a b h k =
    let whole = mod-add-div' (x + y) (2 ^ 32) in
    record {
      word = omega arith;
      more = h.more + k.more + (x + y) / 2 ^ 32;
      less = h.less + k.less;
      same = omega (arith, h.same, k.same, whole);
    }

Represents-sub :
    (x y : ℕ) (a b : Integer)
    → Represents x a
    → Represents y b
    → Represents (sub32 x y) (add a (negate b))
Represents-sub x y a b h k =
    let whole = mod-add-div' (x + (2 ^ 32 - y)) (2 ^ 32) in
    record {
      word = omega arith;
      more = h.more + k.less + (x + (2 ^ 32 - y)) / 2 ^ 32;
      less = h.less + k.more + 1;
      same = omega (arith, h.same, k.same, k.word, whole);
    }

Represents-neg : (x : ℕ) (a : Integer) → Represents x a → Represents (sub32 0 x) (negate a)
Represents-neg x a h =
    let r =
      Represents-sub 0 x (0, 0) a
        (record { word = omega arith; more = 0; less = 0; same = omega arith }) h in
    record { word = r.word; more = r.more; less = r.less; same = omega (arith, r.same) }

Represents-mul :
    (x y : ℕ) (a b : Integer)
    → Represents x a
    → Represents y b
    → Represents (u32 (x * y)) (multiply a b)
Represents-mul x y a b h k =
    let whole = mod-add-div' (x * y) (2 ^ 32) in
    let first = ap (λ t. t * y) h.same in
    let second = ap (λ t. a.0 * t) k.same in
    let third = ap (λ t. a.1 * t) k.same in
    record {
      word = omega arith;
      more = x * y / 2 ^ 32 + (h.more * y + (a.0 * k.more + a.1 * k.less));
      less = h.less * y + (a.0 * k.less + a.1 * k.more);
      same = omega (arith, first, second, third, whole);
    }

-- What an expression has for its value.
abbrev IsValued : ℕ → Expression → Type 0
IsValued options e = (v : ℕ) × (eval options e ≡ some v) × Represents v (exact e)

eval-IsValued : (options : ℕ) (e : Expression) → IsArithmetic e → IsValued options e
unfolding eval apply needs_b
eval-IsValued options (number flags value n_type) h =
    (value, refl, record { word = h; more = 0; less = 0; same = omega arith })
eval-IsValued options (unary op_neg a) h =
    let (x, known, r) = eval-IsValued options a h in
    (sub32 0 x, rw known refl, Represents-neg x (exact a) r)
eval-IsValued options (binary op_plus a b) h =
    let (x, known, r) = eval-IsValued options a h.0 in
    let (y, second, s) = eval-IsValued options b h.1 in
    (add32 x y, rw (known, second) refl, Represents-add x y (exact a) (exact b) r s)
eval-IsValued options (binary op_minus a b) h =
    let (x, known, r) = eval-IsValued options a h.0 in
    let (y, second, s) = eval-IsValued options b h.1 in
    (sub32 x y, rw (known, second) refl, Represents-sub x y (exact a) (exact b) r s)
eval-IsValued options (binary op_times a b) h =
    let (x, known, r) = eval-IsValued options a h.0 in
    let (y, second, s) = eval-IsValued options b h.1 in
    (u32 (x * y), rw (known, second) refl, Represents-mul x y (exact a) (exact b) r s)
eval-IsValued options e h = absurd h

-- An expression of constants with +, -, * and negations has a value. It is a word, and differs
-- from the integer that the expression stands for by a multiple of 2 ^ 32.
pub eval-exact :
    (options : ℕ) (e : Expression)
    → IsArithmetic e
    → (v : ℕ) × (eval options e ≡ some v)
      × (v < 2 ^ 32)
      × ((v + (exact e).1) % 2 ^ 32 ≡ (exact e).0 % 2 ^ 32)
eval-exact options e h =
    let (v, known, r) = eval-IsValued options e h in (v, known, r.word, omega (arith, r.same))
