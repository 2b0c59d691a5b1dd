-- ===== src/Parser/Keeps/Tests.antt =====
-- A closed program, and a parser on a text with an error.
use emufxtool.Base.{◌≡◌, refl, none, some, [], ◌∷◌}
use emufxtool.Base.Text.{codes, text_key}
use emufxtool.Base.Table.{lookup}
use emufxtool.Flags.{v_read}
use emufxtool.Symbols.Initializers.{new_initializer}
use emufxtool.Compiler.Objects.{object, initializer, label, Program}
use emufxtool.Parser.State.{Parser, Outcome, ok, err, stuck, new_parser}
use emufxtool.Parser.Reading.{add_symbol}
use emufxtool.Parser.Program.{parse_patch}
use emufxtool.Parser.Keeps.{Left, Closed}
use emufxtool.Parser.Keeps.Inside.{IsClosed}
use emufxtool.Parser.Keeps.Changes.{add-IsClosed}
use emufxtool.Parser.Keeps.Programs.{parse_patch-IsClosed}
use emufxtool.Parser.Recovery.Tests.{bare_library, start}

-- A constant and a label that waits.
abbrev gathered : Program
gathered = record {
  elements =
      some (initializer (new_initializer (codes "x") v_read))
      ∷ some (label (record { symbol = codes "l"; instruction = none }))
      ∷ [];
  symlist = 0 ∷ 1 ∷ [];
  symtab = (codes "l", 1) ∷ (codes "x", 0) ∷ [];
  ilist = [];
}

abbrev second : Parser
second = record start { program = gathered }

nothing_yet : IsClosed new_parser.program
nothing_yet = record {
  listed = tt;
  named = λ name k at. cc;
  distinct = λ a b k at bt. cc;
  placed = tt;
  numbered = λ n i h. cc;
}

abbrev constant_only : Program
constant_only = record {
  elements = some (initializer (new_initializer (codes "x") v_read)) ∷ [];
  symlist = 0 ∷ [];
  symtab = (codes "x", 0) ∷ [];
  ilist = [];
}

constant_only-IsClosed : IsClosed constant_only
constant_only-IsClosed =
    add-IsClosed new_parser.program (codes "x") (initializer (new_initializer (codes "x") v_read))
      tt nothing_yet

gathered-IsClosed : IsClosed gathered
gathered-IsClosed =
    add-IsClosed constant_only (codes "l")
      (label (record { symbol = codes "l"; instruction = none })) tt constant_only-IsClosed

parse_patch-IsClosed_example : Left Closed (parse_patch bare_library 10 second)
parse_patch-IsClosed_example = parse_patch-IsClosed bare_library 10 second gathered-IsClosed

abbrev state_of : {A : Type 0} → Outcome A → Parser
state_of (ok x p) = p
state_of (err e p) = p
state_of stuck = new_parser

-- `x` once more: the first pointer of the symbol list stays, and its object is deleted.
abbrev again : Program
again =
    (state_of (
      add_symbol (codes "x") (label (record { symbol = codes "x"; instruction = none }))
        second)).program

add_symbol-again :
    (again.symlist ≡ 0 ∷ 1 ∷ 2 ∷ [])
    × (object again.elements 0 ≡ none)
    × (lookup (codes "x") again.symtab ≡ some 2)
unfolding add_symbol
add_symbol-again = (refl, refl, refl)
