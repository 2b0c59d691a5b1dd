-- ===== src/Parser/Endless/Tests.antt =====
-- A macro without a closing parenthesis.
use emufxtool.Base.{◌≡◌}
use emufxtool.Base.Text.{codes}
use emufxtool.Symbols.Macros.{new_macro}
use emufxtool.Parser.State.{stuck}
use emufxtool.Parser.Blocks.{macro_parameters}
use emufxtool.Parser.Recursion.{get_next_word}
use emufxtool.Parser.Endless.{at_end, macro_parameters-stuck}
use emufxtool.Parser.Recovery.Tests.{bare_library, start}

macro_parameters-stuck_example :
    macro_parameters bare_library 100
      (get_next_word bare_library 100)
      (new_macro (codes "m"))
      (at_end start (codes "m"))
    ≡ stuck
macro_parameters-stuck_example =
    macro_parameters-stuck bare_library 100 100 start (codes "m") (new_macro (codes "m"))
