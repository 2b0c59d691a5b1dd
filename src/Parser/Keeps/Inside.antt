-- ===== src/Parser/Keeps/Inside.antt =====
-- The pointers of a program, and what the changes of a program do to them.
use emufxtool.Base.{
  ℕ, zero, suc, ◌<◌, ◌==◌, false, ◌≡◌, refl, ◌∙◌, Option-cases, inl, inr, Option, none, some, List,
  [], ◌∷◌, ◌++◌, length, length-set, set, arith,
}
use emufxtool.Base.Text.{Text, text_key}
use emufxtool.Base.Table.{lookup}
use emufxtool.Symbols.Instructions.{Label, set_instruction}
use emufxtool.Symbols.InstructionLaws.{IsNumbered}
use emufxtool.Compiler.Objects.{Element, Store, object, initializer, label, Program}
use emufxtool.Parser.Program.{pointed, point_label, point_labels}

abbrev pub AllInside : ℕ → List ℕ → Type 0
AllInside n [] = Unit
AllInside n (k ∷ ks) = (k < n) × AllInside n ks

abbrev pub MayBeInside : ℕ → Option ℕ → Type 0
MayBeInside n none = Unit
MayBeInside n (some k) = k < n

abbrev pub PointsInside : ℕ → Element → Type 0
PointsInside n (initializer i) = Unit
PointsInside n (label l) = MayBeInside n l.instruction

abbrev pub ElementsInside : ℕ → Store → Type 0
ElementsInside n [] = Unit
ElementsInside n (none ∷ es) = ElementsInside n es
ElementsInside n (some e ∷ es) = PointsInside n e × ElementsInside n es

-- The pointer points to an object that has not been deleted.
abbrev pub IsLive : Store → ℕ → Type 0
IsLive es k = (e : Element) × (object es k ≡ some e)

-- Every name of the symbol table points to an element that has not been deleted, and no two names
-- to the same. A pointer of the symbol list was given to an element, which may have been deleted.
-- Every label that has an instruction points to one of the instruction list, and the instructions
-- are numbered.
pub record IsClosed (p : Program) : Type 0 where
  pub listed : AllInside (length p.elements) p.symlist
  pub named : (name : Text) (k : ℕ) → lookup name p.symtab ≡ some k → IsLive p.elements k
  pub distinct :
      (a b : Text) (k : ℕ) → lookup a p.symtab ≡ some k → lookup b p.symtab ≡ some k → a ≡ b
  pub placed : ElementsInside (length p.ilist) p.elements
  pub numbered : IsNumbered p.ilist

pub AllInside-snoc :
    (n k : ℕ) (ks : List ℕ) → k < suc n → AllInside n ks → AllInside (suc n) (ks ++ k ∷ [])
AllInside-snoc n k [] h p = (h, tt)
AllInside-snoc n k (j ∷ ks) h p = (omega (arith, p.0), AllInside-snoc n k ks h p.1)

pub ElementsInside-snoc :
    (n : ℕ) (es : Store) (e : Element)
    → ElementsInside n es
    → PointsInside n e
    → ElementsInside n (es ++ some e ∷ [])
ElementsInside-snoc n [] e p h = (h, tt)
ElementsInside-snoc n (none ∷ es) e p h = ElementsInside-snoc n es e p h
ElementsInside-snoc n (some x ∷ es) e p h = (p.0, ElementsInside-snoc n es e p.1 h)

abbrev MayPoint : ℕ → Option Element → Type 0
MayPoint n none = Unit
MayPoint n (some e) = PointsInside n e

pub ElementsInside-set :
    (n : ℕ) (es : Store) (i : ℕ) (e : Option Element)
    → ElementsInside n es
    → MayPoint n e
    → ElementsInside n (set es i e)
ElementsInside-set n [] i e p h = tt
ElementsInside-set n (none ∷ es) zero none p h = p
ElementsInside-set n (none ∷ es) zero (some e) p h = (h, p)
ElementsInside-set n (some x ∷ es) zero none p h = p.1
ElementsInside-set n (some x ∷ es) zero (some e) p h = (h, p.1)
ElementsInside-set n (none ∷ es) (suc i) e p h = ElementsInside-set n es i e p h
ElementsInside-set n (some x ∷ es) (suc i) e p h = (p.0, ElementsInside-set n es i e p.1 h)

PointsInside-weaken : (n : ℕ) (e : Element) → PointsInside n e → PointsInside (suc n) e
PointsInside-weaken n (initializer i) p = tt
PointsInside-weaken n (label l) p = elim (Option-cases l.instruction) [
  | inl without ↦ rw without tt
  | inr (k, at) ↦ rw at (let h : k < n = rw at at p in omega arith)
]

pub ElementsInside-weaken : (n : ℕ) (es : Store) → ElementsInside n es → ElementsInside (suc n) es
ElementsInside-weaken n [] p = tt
ElementsInside-weaken n (none ∷ es) p = ElementsInside-weaken n es p
ElementsInside-weaken n (some e ∷ es) p =
    (PointsInside-weaken n e p.0, ElementsInside-weaken n es p.1)

-- Objects that stay when another is deleted, and when one is changed.
pub object-set_other :
    (es : Store) (i k : ℕ) (e : Option Element)
    → (i == k) ≡ false
    → object (set es i e) k ≡ object es k
object-set_other [] i k e h = refl
object-set_other (x ∷ es) zero zero e h = ground (arith, h)
object-set_other (x ∷ es) zero (suc k) e h = refl
object-set_other (x ∷ es) (suc i) zero e h = refl
object-set_other (x ∷ es) (suc i) (suc k) e h = object-set_other es i k e (ground (arith, h))

IsLive-set : (es : Store) (i k : ℕ) (e : Element) → IsLive es k → IsLive (set es i (some e)) k
IsLive-set [] i k e live = live
IsLive-set (x ∷ es) zero zero e live = (e, refl)
IsLive-set (x ∷ es) zero (suc k) e live = live
IsLive-set (x ∷ es) (suc i) zero e live = live
IsLive-set (x ∷ es) (suc i) (suc k) e live = IsLive-set es i k e live

pub IsLive-snoc : (es : Store) (k : ℕ) (e : Element) → IsLive es k → IsLive (es ++ some e ∷ []) k
IsLive-snoc [] k e live = absurd (no_object k live)
  where
    no_object : (k : ℕ) → IsLive [] k → ⊥
    no_object k (e, h) = cc
IsLive-snoc (x ∷ es) zero e live = live
IsLive-snoc (x ∷ es) (suc k) e live = IsLive-snoc es k e live

pub IsLive-last : (es : Store) (e : Element) → IsLive (es ++ some e ∷ []) (length es)
IsLive-last [] e = (e, refl)
IsLive-last (x ∷ es) e = IsLive-last es e

pub IsLive-length : (es : Store) (k : ℕ) → IsLive es k → k < length es
IsLive-length [] k (e, h) = cc
IsLive-length (x ∷ es) zero live = omega arith
IsLive-length (x ∷ es) (suc k) live = omega (arith, IsLive-length es k live)

pointed-Inside :
    (n : ℕ) (place : Option ℕ) (l : Label)
    → MayBeInside n place
    → PointsInside n (label (pointed place l))
unfolding set_instruction
pointed-Inside n none l h = tt
pointed-Inside n (some k) l h = h

-- Elements that are changed, and not deleted.
pub record Kept (n : ℕ) (es es' : Store) : Type 0 where
  pub same_length : length es' ≡ length es
  pub inside : ElementsInside n es'
  pub live : (k : ℕ) → IsLive es k → IsLive es' k

abbrev MayBeKept : ℕ → Store → Option Store → Type 0
MayBeKept n es none = Unit
MayBeKept n es (some es') = Kept n es es'

pub set-Kept :
    (n : ℕ) (es : Store) (pointer : ℕ) (e : Element)
    → PointsInside n e
    → ElementsInside n es
    → Kept n es (set es pointer (some e))
set-Kept n es pointer e h p = record {
  same_length = length-set es pointer (some e);
  inside = ElementsInside-set n es pointer (some e) p h;
  live = λ k live. IsLive-set es pointer k e live;
}

point_label-Kept :
    (n : ℕ) (place : Option ℕ) (es : Store) (pointer : ℕ)
    → MayBeInside n place
    → ElementsInside n es
    → MayBeKept n es (point_label place es pointer)
unfolding point_label
point_label-Kept n place es pointer h p = elim (Option-cases (object es pointer)) [
  | inl outside ↦ rw (outside, point_label) tt
  | inr (initializer i, at) ↦ rw (at, point_label) tt
  | inr (label l, at) ↦
      rw (at, point_label)
        (set-Kept n es pointer (label (pointed place l)) (pointed-Inside n place l h) p)
]

pub point_labels-Kept :
    (n : ℕ) (place : Option ℕ) (pointers : List ℕ) (es : Store)
    → MayBeInside n place
    → ElementsInside n es
    → MayBeKept n es (point_labels place pointers es)
unfolding point_labels
point_labels-Kept n place [] es h p = record {
  same_length = refl;
  inside = p;
  live = λ k live. live;
}
point_labels-Kept n place (k ∷ ks) es h p = elim (Option-cases (point_label place es k)) [
  | inl lost ↦ rw (lost, point_labels) tt
  | inr (es1, done) ↦
      let first : Kept n es es1 = rw done at (point_label-Kept n place es k h p) in
      elim (Option-cases (point_labels place ks es1)) [
        | inl lost ↦ rw (done, point_labels, lost) tt
        | inr (es2, more) ↦
            let rest : Kept n es1 es2 =
              rw more at (point_labels-Kept n place ks es1 h first.inside) in
            rw (done, point_labels, more)
              (record {
                same_length = rest.same_length ∙ first.same_length;
                inside = rest.inside;
                live = λ j live. rest.live j (first.live j live);
              })
      ]
]
