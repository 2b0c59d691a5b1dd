-- ===== src/Parser/Keeps/Declarations.antt =====
-- Instructions, properties and initializers keep the program closed.
use emufxtool.Base.{ℕ, zero, suc, Option, Option-cases, inl, inr, List}
use emufxtool.Base.Text.{Text}
use emufxtool.Flags.{v_address}
use emufxtool.Expression.Trees.{eval}
use emufxtool.Symbols.Values.{PropertyList}
use emufxtool.Symbols.Initializers.{Initializer}
use emufxtool.Scanner.Tables.{Token}
use emufxtool.Compiler.Objects.{Operand, resolve}
use emufxtool.Parser.State.{Library, Method}
use emufxtool.Parser.Declarations.{
  parse_instruction, property_value, property_loop, parse_properties,
}
use emufxtool.Parser.Initializers.{
  address_of, unless_end, array_count, array_part, address_part, value_loop, values, assign_part,
  property_part, parse_initializer,
}
use emufxtool.Parser.Keeps.{Closed, Keeps}
use emufxtool.Parser.Keeps.Words.{word_rules, expect-Keeps}
use emufxtool.Parser.Keeps.Directives.{
  get_next_word-Keeps, parse_expression-Keeps, get_next_token-Keeps,
}

pub ruleset read_rules =
    (word_rules, expect-Keeps, get_next_word-Keeps, parse_expression-Keeps, get_next_token-Keeps)

address_of-Keeps : (o : Operand) → Keeps Closed (address_of o)
address_of-Keeps o = record {
  at = λ p h. elim (Option-cases (resolve p.program o)) [
    | inl dangling ↦ rw (dangling, address_of) tt
    | inr (e, resolved) ↦ elim (Option-cases (eval v_address e)) [
      | inl undefined ↦ rw (resolved, address_of, undefined) tt
      | inr (v, value) ↦ rw (resolved, address_of, value) h
    ]
  ];
}

unless_end-Keeps :
    (t : Token) (i : Initializer) {rest : Method Initializer}
    → Keeps Closed rest
    → Keeps Closed (unless_end t i rest)
unfolding unless_end
unless_end-Keeps t i k = search word_rules depth 16

module _ (lib : Library) (fuel : ℕ) where
  pub parse_instruction-Keeps : Keeps Closed (parse_instruction lib fuel)
  unfolding parse_instruction
  parse_instruction-Keeps = search read_rules depth 40 fits 4000

  property_value-Keeps :
      (strings numbers : Option (List Text)) (name : Text) (props : PropertyList)
      → Keeps Closed (property_value lib fuel strings numbers name props)
  unfolding property_value
  property_value-Keeps strings numbers name props = search read_rules depth 40 fits 4000

  property_loop-Keeps :
      (rounds : ℕ) (strings numbers : Option (List Text)) (store : PropertyList → Method (Unit {0}))
      (props : PropertyList)
      → ((l : PropertyList) → Keeps Closed (store l))
      → Keeps Closed (property_loop lib fuel rounds strings numbers store props)
  unfolding property_loop
  property_loop-Keeps zero strings numbers store props k = search word_rules
  property_loop-Keeps (suc rounds) strings numbers store props k =
      search (read_rules, property_value-Keeps, property_loop-Keeps rounds) depth 40 fits 4000

  pub parse_properties-Keeps :
      (strings numbers : Option (List Text)) (store : PropertyList → Method (Unit {0}))
      (props : PropertyList)
      → ((l : PropertyList) → Keeps Closed (store l))
      → Keeps Closed (parse_properties lib fuel strings numbers store props)
  unfolding parse_properties
  parse_properties-Keeps strings numbers store props k =
      search (read_rules, property_loop-Keeps) depth 20

  array_count-Keeps : (i : Initializer) → Keeps Closed (array_count lib fuel i)
  unfolding array_count
  array_count-Keeps i = search read_rules depth 40 fits 4000

  array_part-Keeps :
      (valid : ℕ) (i : Initializer) (t : Token) → Keeps Closed (array_part lib fuel valid i t)
  unfolding array_part
  array_part-Keeps valid i t = search (read_rules, array_count-Keeps) depth 40 fits 4000

  address_part-Keeps :
      (options valid : ℕ) (i : Initializer) (t : Token)
      → Keeps Closed (address_part lib fuel options valid i t)
  unfolding address_part
  address_part-Keeps options valid i t = search (read_rules, address_of-Keeps) depth 40 fits 4000

  value_loop-Keeps :
      (rounds count : ℕ) (i : Initializer) → Keeps Closed (value_loop lib fuel rounds count i)
  unfolding value_loop
  value_loop-Keeps zero count i = search word_rules
  value_loop-Keeps (suc rounds) count i =
      search (read_rules, value_loop-Keeps rounds) depth 40 fits 4000

  values-Keeps : (declared : ℕ) (i : Initializer) → Keeps Closed (values lib fuel declared i)
  unfolding values
  values-Keeps declared i = search (read_rules, value_loop-Keeps) depth 40 fits 4000

  assign_part-Keeps :
      (declared : ℕ) (i : Initializer) (t : Token)
      → Keeps Closed (assign_part lib fuel declared i t)
  unfolding assign_part
  assign_part-Keeps declared i t = search (read_rules, values-Keeps) depth 40 fits 4000

  property_part-Keeps :
      (strings numbers : Option (List Text)) (i : Initializer) (t : Token)
      → Keeps Closed (property_part lib fuel strings numbers i t)
  unfolding property_part
  property_part-Keeps strings numbers i t =
      search (read_rules, parse_properties-Keeps) depth 40 fits 4000

  pub parse_initializer-Keeps :
      (options valid : ℕ) (strings numbers : Option (List Text))
      → Keeps Closed (parse_initializer lib fuel options valid strings numbers)
  unfolding parse_initializer
  parse_initializer-Keeps options valid strings numbers =
      search
        (
          read_rules, unless_end-Keeps, array_part-Keeps, address_part-Keeps, assign_part-Keeps,
          property_part-Keeps,
        )
        depth 60 fits 8000
