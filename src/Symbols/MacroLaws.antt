-- ===== src/Symbols/MacroLaws.antt =====
-- Macros bind their parameters and expand; instructions are numbered by their place.
use mathlib.Core.List.{append-nil}
use emufxtool.Base.{
  not, sym, ap, ◌+◌, ◌≡◌, refl, Bool, true, false, List, [], ◌∷◌, ◌++◌, ◌||◌, length-append, arith,
  if◌then◌else◌, Bool-cases, inl, inr,
}
use emufxtool.Base.Text.{Text, text_eq, text_eq_refl, text_key}
use emufxtool.Symbols.Macros.{Macro, has_text, add_parameter, arg_count}

-- No name stands twice.
abbrev pub AreDistinct : List Text → Type 0
AreDistinct [] = Unit
AreDistinct (p ∷ ps) = (has_text p ps ≡ false) × AreDistinct ps

text_eq_sym : (a b : Text) → text_eq a b ≡ text_eq b a
text_eq_sym [] [] = refl
text_eq_sym [] (y ∷ ys) = refl
text_eq_sym (x ∷ xs) [] = refl
text_eq_sym (x ∷ xs) (y ∷ ys) = ground (arith, text_eq_sym xs ys)

has_text-snoc :
    (p q : Text) (ps : List Text) → has_text p (ps ++ q ∷ []) ≡ (has_text p ps || text_eq q p)
has_text-snoc p q [] = ground arith
has_text-snoc p q (r ∷ ps) = ground (arith, has_text-snoc p q ps)

AreDistinct-snoc :
    (q : Text) (ps : List Text)
    → AreDistinct ps
    → has_text q ps ≡ false
    → AreDistinct (ps ++ q ∷ [])
AreDistinct-snoc q [] d new = (refl, tt)
AreDistinct-snoc q (p ∷ ps) d new = (
  ground (arith, d.0, new, has_text-snoc p q ps, text_eq_sym p q),
  AreDistinct-snoc q ps d.1 (ground (arith, new)),
)

-- What adding a parameter establishes.
pub record HasParameter (m : Macro) (p : Text) (result : Bool × Macro) : Type 0 where
  pub distinct : AreDistinct result.1.parameters
  pub there : has_text p result.1.parameters ≡ true
  pub count : arg_count result.1 ≡ (if result.0 then arg_count m + 1 else arg_count m)
  pub fresh : result.0 ≡ not (has_text p m.parameters)
  pub order : result.1.parameters ≡ m.parameters ++ (if result.0 then p ∷ [] else [])
  pub same_rest : result.1 ≡ record m { parameters = result.1.parameters }

-- On a macro whose parameters have different names, adding a parameter keeps them different and
-- has it among them. It says that it did exactly when the name was new; then it counts one more
-- and the name is behind those that were there, and else none changes. Nothing else of the macro
-- changes.
pub add_parameter-HasParameter :
    (p : Text) (m : Macro) → AreDistinct m.parameters → HasParameter m p (add_parameter p m)
unfolding add_parameter arg_count
add_parameter-HasParameter p m d = elim (Bool-cases (has_text p m.parameters)) [
  | inl old ↦ rw old (record {
    distinct = d;
    there = old;
    count = refl;
    fresh = sym (ap not old);
    order = sym (append-nil m.parameters);
    same_rest = refl;
  })
  | inr new ↦ rw new (record {
    distinct = AreDistinct-snoc p m.parameters d new;
    there = ground (arith, has_text-snoc p p m.parameters, text_eq_refl p);
    count = length-append m.parameters (p ∷ []);
    fresh = sym (ap not new);
    order = refl;
    same_rest = refl;
  })
]
