-- ===== src/Symbols/Expansion.antt =====
-- `emuMacro::Expand` replaces parameters by arguments.
use mathlib.Core.List.{append_assoc, append-nil}
use emufxtool.Base.{
  ◌≤◌, ◌<◌, ◌≡◌, refl, ap, sym, ◌∙◌, Bool, true, false, Option, none, some, List, [], ◌∷◌, ◌++◌,
  length, ltb, map, arith, if◌then◌else◌, Bool-cases, Option-cases, inl, inr,
}
use emufxtool.Base.Text.{Text, text_eq, text_eq_iff, text_key}
use emufxtool.Base.Table.{Table, lookup, insert, lookup-insert}
use emufxtool.Symbols.Macros.{
  Macro, has_text, bind_arguments, is_bound, meaning, concat_token, accumulate, expand_loop, expand,
}
use emufxtool.Symbols.MacroLaws.{AreDistinct}

-- The argument for a parameter.
abbrev pub argument_of : List Text → List Text → Text → Option Text
argument_of [] arguments t = none
argument_of (p ∷ ps) [] t = none
argument_of (p ∷ ps) (a ∷ arguments) t = if text_eq p t then some a else argument_of ps arguments t

-- A token, or the argument in its place.
abbrev pub substitute : List Text → List Text → Text → Text
substitute ps arguments t = elim (argument_of ps arguments t) [ none ↦ t | some a ↦ a ]

-- Words with a blank before each, and between each two.
abbrev pub spaced : List Text → Text
spaced [] = []
spaced (w ∷ ws) = 0x20 ∷ (w ++ spaced ws)

abbrev pub unwords : List Text → Text
unwords [] = []
unwords (w ∷ ws) = w ++ spaced ws

abbrev pub or_else : Option Text → Option Text → Option Text
or_else none o = o
or_else (some a) o = some a

argument_of-absent :
    (ps arguments : List Text) (t : Text)
    → has_text t ps ≡ false
    → argument_of ps arguments t ≡ none
argument_of-absent [] arguments t h = refl
argument_of-absent (p ∷ ps) [] t h = refl
argument_of-absent (p ∷ ps) (a ∷ arguments) t h =
    ground (arith, h, argument_of-absent ps arguments t)

-- A parameter that is bound first is not bound again.
bound_first :
    (p a t : Text) (ps arguments : List Text) (m : Table Text Text)
    → has_text p ps ≡ false
    → or_else (argument_of ps arguments t) (lookup t (insert p a m))
      ≡ or_else (argument_of (p ∷ ps) (a ∷ arguments) t) (lookup t m)
bound_first p a t ps arguments m new = elim (Bool-cases (text_eq p t)) [
  | inl same ↦
      let e : p ≡ t = (text_eq_iff p t).0 same in
      let absent : argument_of ps arguments t ≡ none =
        argument_of-absent ps arguments t (rw e at new) in
      rw (lookup-insert p t a m, same, absent)
  | inr differs ↦ rw (lookup-insert p t a m, differs)
]

lookup-bind_arguments :
    (ps arguments : List Text) (m : Table Text Text)
    → AreDistinct ps
    → length ps ≤ length arguments
    → (b : Table Text Text) × (bind_arguments ps arguments m ≡ some b)
      × ((t : Text) → lookup t b ≡ or_else (argument_of ps arguments t) (lookup t m))
unfolding bind_arguments
lookup-bind_arguments [] arguments m d h = (m, refl, λ t. refl)
lookup-bind_arguments (p ∷ ps) [] m d h = absurd (omega (arith, h))
lookup-bind_arguments (p ∷ ps) (a ∷ arguments) m d h =
    let (b, bound, found) =
      lookup-bind_arguments ps arguments (insert p a m) d.1 (omega (arith, h)) in
    (b, bound, λ t. found t ∙ bound_first p a t ps arguments m d.0)

bind_arguments_short :
    (ps arguments : List Text) (m : Table Text Text)
    → length arguments < length ps
    → bind_arguments ps arguments m ≡ none
unfolding bind_arguments
bind_arguments_short [] arguments m h = absurd (omega (arith, h))
bind_arguments_short (p ∷ ps) [] m h = refl
bind_arguments_short (p ∷ ps) (a ∷ arguments) m h =
    bind_arguments_short ps arguments (insert p a m) (omega (arith, h))

meaning-substitute :
    (ps arguments : List Text) (b : Table Text Text) (t : Text)
    → lookup t b ≡ or_else (argument_of ps arguments t) none
    → meaning b t ≡ substitute ps arguments t
meaning-substitute ps arguments b t h = elim (Option-cases (argument_of ps arguments t)) [
  | inl absent ↦ rw (meaning, substitute, h, absent)
  | inr (a, found) ↦ rw (meaning, substitute, h, found)
]

after_blank :
    (accumulator w rest : Text)
    → (accumulator ++ 0x20 ∷ [] ++ w) ++ rest ≡ accumulator ++ 0x20 ∷ (w ++ rest)
after_blank accumulator w rest =
    append_assoc (accumulator ++ 0x20 ∷ []) w rest
    ∙ append_assoc accumulator (0x20 ∷ []) (w ++ rest)

expand_loop-spaced :
    (m : Table Text Text) (ts : List Text) (accumulator : Text) (is_arg : Bool)
    → has_text concat_token ts ≡ false
    → expand_loop m ts accumulator true is_arg ≡ accumulator ++ spaced (map (meaning m) ts)
unfolding expand_loop
expand_loop-spaced m [] accumulator is_arg h = rw append-nil
expand_loop-spaced m (t ∷ []) accumulator is_arg h =
    sym (append-nil _) ∙ after_blank accumulator (meaning m t) []
expand_loop-spaced m (t ∷ next ∷ ts) accumulator is_arg h =
    let plain : text_eq t concat_token ≡ false = ground (arith, h) in
    let others : has_text concat_token (next ∷ ts) ≡ false = ground (arith, h) in
    rw plain (
      expand_loop-spaced m (next ∷ ts) (accumulate accumulator true (meaning m t)) (is_bound m t)
        others
      ∙ after_blank accumulator (meaning m t) (spaced (map (meaning m) (next ∷ ts))))

expand_loop-unwords :
    (m : Table Text Text) (ts : List Text)
    → has_text concat_token ts ≡ false
    → expand_loop m ts [] false false ≡ unwords (map (meaning m) ts)
unfolding expand_loop
expand_loop-unwords m [] h = refl
expand_loop-unwords m (t ∷ []) h = rw append-nil
expand_loop-unwords m (t ∷ next ∷ ts) h =
    let plain : text_eq t concat_token ≡ false = ground (arith, h) in
    let others : has_text concat_token (next ∷ ts) ≡ false = ground (arith, h) in
    rw plain (expand_loop-spaced m (next ∷ ts) (meaning m t) (is_bound m t) others)

map-agree : (f g : Text → Text) → ((t : Text) → f t ≡ g t) → (ts : List Text) → map f ts ≡ map g ts
map-agree f g h [] = refl
map-agree f g h (t ∷ ts) = rw (h t, map-agree f g h ts)

-- Of a macro whose parameters have different names and whose tokens are none of them `##`: with
-- fewer arguments than parameters the expansion reads behind the arguments, and with as many or
-- more it is the tokens, the parameters replaced by their arguments, with a blank between each two.
pub expand-unwords :
    (m : Macro) (arguments : List Text)
    → AreDistinct m.parameters
    → has_text concat_token m.tokens ≡ false
    → expand m arguments ≡ (
        if ltb (length arguments) (length m.parameters)
        then none
        else some (unwords (map (substitute m.parameters arguments) m.tokens)))
unfolding expand
expand-unwords m arguments d plain =
    elim (Bool-cases (ltb (length arguments) (length m.parameters))) [
      | inl few ↦
          rw (few, expand, bind_arguments_short m.parameters arguments [] (ground (arith, few)))
      | inr enough ↦
          let (b, bound, found) =
            lookup-bind_arguments m.parameters arguments [] d (ground (arith, enough)) in
          let same =
            map-agree (meaning b) (substitute m.parameters arguments)
              (λ t. meaning-substitute m.parameters arguments b t (found t)) m.tokens in
          rw (enough, expand, bound)
            (ap some (expand_loop-unwords b m.tokens plain ∙ ap unwords same))
    ]
