-- ===== src/Parser/Setup.antt =====
-- The tables that the constructor of `emuParser` fills, in its order.
use emufxtool.Base.{ℕ, List, [], ◌∷◌}
use emufxtool.Base.Text.{Text, codes}
use emufxtool.Scanner.Tables.{Rules, new_rules, add_separator, add_blank, add_token}
use emufxtool.Parser.Tokens

-- The calls of `AddSeparator`; the second character is 0 where there is none.
abbrev pub separator_table : List (ℕ × ℕ)
separator_table =
    (0x3b, 0)
    ∷ (0x2c, 0)
    ∷ (0x7b, 0)
    ∷ (0x7d, 0)
    ∷ (0x28, 0)
    ∷ (0x29, 0)
    ∷ (0x5b, 0)
    ∷ (0x5d, 0)
    ∷ (0x3e, 0)
    ∷ (0x3c, 0)
    ∷ (0x3e, 0x3d)
    ∷ (0x3e, 0x3e)
    ∷ (0x3d, 0x3e)
    ∷ (0x3c, 0x3d)
    ∷ (0x3c, 0x3c)
    ∷ (0x2f, 0x2a)
    ∷ (0x2a, 0x2f)
    ∷ (0x2f, 0x2f)
    ∷ (0x3d, 0x3d)
    ∷ (0x3c, 0x3e)
    ∷ (0x21, 0x3d)
    ∷ (0x26, 0x26)
    ∷ (0x7c, 0x7c)
    ∷ (0x26, 0)
    ∷ (0x7c, 0)
    ∷ (0x7e, 0)
    ∷ (0x2d, 0x3e)
    ∷ (0x21, 0)
    ∷ (0x3d, 0)
    ∷ (0x3a, 0)
    ∷ (0x5e, 0)
    ∷ (0x2d, 0)
    ∷ (0x2b, 0)
    ∷ (0x23, 0x23)
    ∷ (0x2a, 0)
    ∷ (0x2f, 0)
    ∷ (0x25, 0)
    ∷ (0x24, 0)
    ∷ (0x40, 0)
    ∷ (0x23, 0)
    ∷ []

-- The calls of `AddToken`.
abbrev pub token_table : List (Text × ℕ)
token_table =
    (codes ";", Tokens.t_instruction_end)
    ∷ (codes "MACS", Tokens.t_macs)
    ∷ (codes "MACS1", Tokens.t_macns)
    ∷ (codes "MACNS", Tokens.t_macns)
    ∷ (codes "MACW", Tokens.t_macw)
    ∷ (codes "MACW1", Tokens.t_macnw)
    ∷ (codes "MACNW", Tokens.t_macnw)
    ∷ (codes "MAC0", Tokens.t_macs)
    ∷ (codes "MAC1", Tokens.t_macns)
    ∷ (codes "MAC2", Tokens.t_macw)
    ∷ (codes "MAC3", Tokens.t_macnw)
    ∷ (codes "MACINT", Tokens.t_macints)
    ∷ (codes "MACINT0", Tokens.t_macints)
    ∷ (codes "MACINTS", Tokens.t_macints)
    ∷ (codes "MACINTW", Tokens.t_macintw)
    ∷ (codes "MACINT1", Tokens.t_macintw)
    ∷ (codes "ACC3", Tokens.t_acc3)
    ∷ (codes "MACMV", Tokens.t_macmv)
    ∷ (codes "ANDXOR", Tokens.t_andxor)
    ∷ (codes "TSTNEG", Tokens.t_tstneg)
    ∷ (codes "LIMIT", Tokens.t_limitge)
    ∷ (codes "LIMIT0", Tokens.t_limitge)
    ∷ (codes "LIMITGE", Tokens.t_limitge)
    ∷ (codes "LIMITL", Tokens.t_limitl)
    ∷ (codes "LIMIT1", Tokens.t_limitl)
    ∷ (codes "LOG", Tokens.t_log)
    ∷ (codes "EXP", Tokens.t_exp)
    ∷ (codes "INTERP", Tokens.t_interp)
    ∷ (codes "SKIP", Tokens.t_skip)
    ∷ ((0x0d ∷ []), Tokens.t_instruction_end)
    ∷ (codes ",", Tokens.t_list_separator)
    ∷ (codes "(", Tokens.t_open_paren)
    ∷ (codes ")", Tokens.t_closed_paren)
    ∷ (codes "{", Tokens.t_open_brace)
    ∷ (codes "}", Tokens.t_closed_brace)
    ∷ (codes "[", Tokens.t_open_square)
    ∷ (codes "]", Tokens.t_closed_square)
    ∷ (codes "/*", Tokens.t_begin_comment)
    ∷ (codes "*/", Tokens.t_end_comment)
    ∷ (codes ":", Tokens.t_colon)
    ∷ (codes "->", Tokens.t_colon)
    ∷ (codes ".for", Tokens.t_for)
    ∷ (codes ".if", Tokens.t_if)
    ∷ (codes ".else", Tokens.t_else)
    ∷ (codes ".eval", Tokens.t_eval)
    ∷ (codes ".macro", Tokens.t_define)
    ∷ (codes ".include", Tokens.t_include)
    ∷ (codes ".defined", Tokens.t_defined)
    ∷ (codes ".undefined", Tokens.t_undefined)
    ∷ (codes ".define", Tokens.t_define)
    ∷ (codes ".line", Tokens.t_current_line)
    ∷ (codes ".file", Tokens.t_current_file)
    ∷ (codes ".warn", Tokens.t_warn)
    ∷ (codes ".err", Tokens.t_err)
    ∷ (codes "control", Tokens.t_control)
    ∷ (codes "onoff", Tokens.t_on_off)
    ∷ (codes "mono", Tokens.t_mono)
    ∷ (codes "stereo", Tokens.t_stereo)
    ∷ (codes "range", Tokens.t_range)
    ∷ (codes "to", Tokens.t_range_interval)
    ∷ (codes "line", Tokens.t_line)
    ∷ (codes "tram", Tokens.t_tram)
    ∷ (codes "delay", Tokens.t_delay)
    ∷ (codes "lookup", Tokens.t_lookup)
    ∷ (codes "read", Tokens.t_read)
    ∷ (codes "write", Tokens.t_write)
    ∷ (codes "var", Tokens.t_var)
    ∷ (codes "const", Tokens.t_const)
    ∷ (codes "fxbus", Tokens.t_fx_bus)
    ∷ (codes "extin", Tokens.t_ext_in)
    ∷ (codes "extout", Tokens.t_ext_out)
    ∷ (codes "absolute", Tokens.t_absolute)
    ∷ (codes "fixed", Tokens.t_absolute)
    ∷ (codes "special", Tokens.t_spec)
    ∷ (codes "system", Tokens.t_spec)
    ∷ (codes "export", Tokens.t_export)
    ∷ (codes "public", Tokens.t_export)
    ∷ (codes "private", Tokens.t_private)
    ∷ (codes "+", Tokens.t_plus)
    ∷ (codes "-", Tokens.t_minus)
    ∷ (codes "<", Tokens.t_less)
    ∷ (codes "==", Tokens.t_equal)
    ∷ (codes ">", Tokens.t_greater)
    ∷ (codes "<", Tokens.t_less_equal)
    ∷ (codes "==", Tokens.t_equal)
    ∷ (codes ">", Tokens.t_greater_equal)
    ∷ (codes "!=", Tokens.t_not_equal)
    ∷ (codes "<>", Tokens.t_not_equal)
    ∷ (codes "&&", Tokens.t_and)
    ∷ (codes "||", Tokens.t_or)
    ∷ (codes "!", Tokens.t_not)
    ∷ ((0xfe ∷ []), Tokens.t_unary_minus)
    ∷ (codes "*", Tokens.t_times)
    ∷ (codes "/", Tokens.t_divide)
    ∷ (codes "%", Tokens.t_mod)
    ∷ (codes "^", Tokens.t_xor)
    ∷ (codes "<<", Tokens.t_l_shift)
    ∷ (codes ">>", Tokens.t_r_shift)
    ∷ (codes "#", Tokens.t_sharp)
    ∷ (codes "$", Tokens.t_dollar)
    ∷ (codes "@", Tokens.t_at)
    ∷ (codes "?", Tokens.t_register)
    ∷ (codes "&", Tokens.t_bitwise_and)
    ∷ (codes "|", Tokens.t_bitwise_or)
    ∷ (codes "~", Tokens.t_bitwise_not)
    ∷ (codes "=>", Tokens.t_address)
    ∷ (codes "at", Tokens.t_address)
    ∷ (codes "=", Tokens.t_assign)
    ∷ []

abbrev pub add_separators : List (ℕ × ℕ) → Rules → Rules
add_separators [] r = r
add_separators ((sep, second) ∷ rest) r = add_separators rest (add_separator sep second r)

abbrev pub add_tokens : List (Text × ℕ) → Rules → Rules
add_tokens [] r = r
add_tokens ((key, tok) ∷ rest) r = add_tokens rest (add_token key tok r)

unfoldable pub parser_rules : Rules
parser_rules =
    let blanks = add_blank 0x0a (add_blank 0x0d (add_blank 0x09 (add_blank 0x20 new_rules))) in
    add_tokens token_table (add_separators separator_table blanks)
