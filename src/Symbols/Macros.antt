-- ===== src/Symbols/Macros.antt =====
-- `emuMacro`: its parameters, its tokens and their expansion.
use emufxtool.Base.{
  ℕ, Bool, true, false, Option, none, some, List, [], ◌∷◌, ◌++◌, ◌&&◌, ◌||◌, length, is_empty,
  if◌then◌else◌,
}
use emufxtool.Base.Text.{Text, text_eq, text_key}
use emufxtool.Base.Table.{Table, lookup, insert}

pub record Macro : Type 0 where
  pub name : Text
  pub parameters : List Text
  pub tokens : List Text

abbrev pub new_macro : Text → Macro
new_macro name = record { name = name; parameters = []; tokens = [] }

unfoldable pub is_macro_empty : Macro → Bool
is_macro_empty m = is_empty m.tokens

unfoldable pub arg_count : Macro → ℕ
arg_count m = length m.parameters

abbrev pub has_text : Text → List Text → Bool
has_text p [] = false
has_text p (q ∷ qs) = text_eq q p || has_text p qs

unfoldable pub add_parameter : Text → Macro → Bool × Macro
add_parameter p m =
    if has_text p m.parameters
    then (false, m)
    else (true, record m { parameters = m.parameters ++ p ∷ [] })

unfoldable pub add_macro_token : Text → Macro → Macro
add_macro_token t m = record m { tokens = m.tokens ++ t ∷ [] }

-- The map from parameters to arguments; `none` where the iterator over the arguments would be
-- read at its end.
unfoldable pub bind_arguments : List Text → List Text → Table Text Text → Option (Table Text Text)
bind_arguments [] arguments m = some m
bind_arguments (p ∷ ps) [] m = none
bind_arguments (p ∷ ps) (a ∷ arguments) m = bind_arguments ps arguments (insert p a m)

abbrev pub is_bound : Table Text Text → Text → Bool
is_bound m t = elim (lookup t m) [ none ↦ false | some _ ↦ true ]

-- What a token stands for.
abbrev pub meaning : Table Text Text → Text → Text
meaning m t = elim (lookup t m) [ none ↦ t | some a ↦ a ]

abbrev pub concat_token : Text
concat_token = 0x23 ∷ 0x23 ∷ []

-- The end of a round of the loop: a blank where there is to be one, and the token.
abbrev pub accumulate : Text → Bool → Text → Text
accumulate accumulator blank word =
    (if blank then accumulator ++ 0x20 ∷ [] else accumulator) ++ word

-- The loop over the tokens, with its `accumulator`, `blank_flag` and `isarg`.
unfoldable pub expand_loop : Table Text Text → List Text → Text → Bool → Bool → Text
expand_loop m [] accumulator blank is_arg = accumulator
expand_loop m (sym ∷ []) accumulator blank is_arg = accumulate accumulator blank (meaning m sym)
expand_loop m (sym ∷ next ∷ tokens) accumulator blank is_arg =
    let joined =
      expand_loop m tokens (accumulate accumulator false (meaning m next)) true (is_bound m next) in
    let apart =
      expand_loop m (next ∷ tokens) (accumulate accumulator blank (meaning m sym)) true
        (is_bound m sym) in
    if text_eq sym concat_token && (is_bound m next || is_arg) then joined else apart

-- `Expand`
unfoldable pub expand : Macro → List Text → Option Text
expand m arguments = elim (bind_arguments m.parameters arguments []) [
  | none ↦ none
  | some bound ↦ some (expand_loop bound m.tokens [] false false)
]
