-- ===== src/Parser/Tokens.antt =====
-- parser.C: `emuTokens`, by their numbers, and the tables that the constructor of `emuParser` fills.
use emufxtool.Base.{ℕ}

abbrev pub t_instruction_end : ℕ
t_instruction_end = 0

abbrev pub t_list_separator : ℕ
t_list_separator = 1

abbrev pub t_open_paren : ℕ
t_open_paren = 2

abbrev pub t_closed_paren : ℕ
t_closed_paren = 3

abbrev pub t_open_brace : ℕ
t_open_brace = 4

abbrev pub t_closed_brace : ℕ
t_closed_brace = 5

abbrev pub t_open_square : ℕ
t_open_square = 6

abbrev pub t_closed_square : ℕ
t_closed_square = 7

abbrev pub t_begin_comment : ℕ
t_begin_comment = 8

abbrev pub t_end_comment : ℕ
t_end_comment = 9

abbrev pub t_colon : ℕ
t_colon = 10

abbrev pub t_semicolon : ℕ
t_semicolon = 11

abbrev pub t_eol : ℕ
t_eol = 12

abbrev pub t_macs : ℕ
t_macs = 13

abbrev pub t_macns : ℕ
t_macns = 14

abbrev pub t_macw : ℕ
t_macw = 15

abbrev pub t_macnw : ℕ
t_macnw = 16

abbrev pub t_macints : ℕ
t_macints = 17

abbrev pub t_macintw : ℕ
t_macintw = 18

abbrev pub t_acc3 : ℕ
t_acc3 = 19

abbrev pub t_macmv : ℕ
t_macmv = 20

abbrev pub t_andxor : ℕ
t_andxor = 21

abbrev pub t_tstneg : ℕ
t_tstneg = 22

abbrev pub t_limitge : ℕ
t_limitge = 23

abbrev pub t_limitl : ℕ
t_limitl = 24

abbrev pub t_log : ℕ
t_log = 25

abbrev pub t_exp : ℕ
t_exp = 26

abbrev pub t_interp : ℕ
t_interp = 27

abbrev pub t_skip : ℕ
t_skip = 28

abbrev pub t_for : ℕ
t_for = 29

abbrev pub t_if : ℕ
t_if = 30

abbrev pub t_else : ℕ
t_else = 31

abbrev pub t_macro : ℕ
t_macro = 32

abbrev pub t_code : ℕ
t_code = 33

abbrev pub t_include : ℕ
t_include = 34

abbrev pub t_define : ℕ
t_define = 35

abbrev pub t_current_line : ℕ
t_current_line = 36

abbrev pub t_current_file : ℕ
t_current_file = 37

abbrev pub t_defined : ℕ
t_defined = 38

abbrev pub t_undefined : ℕ
t_undefined = 39

abbrev pub t_eval : ℕ
t_eval = 40

abbrev pub t_patch : ℕ
t_patch = 41

abbrev pub t_export : ℕ
t_export = 42

abbrev pub t_private : ℕ
t_private = 43

abbrev pub t_var : ℕ
t_var = 44

abbrev pub t_const : ℕ
t_const = 45

abbrev pub t_fx_bus : ℕ
t_fx_bus = 46

abbrev pub t_ext_in : ℕ
t_ext_in = 47

abbrev pub t_ext_out : ℕ
t_ext_out = 48

abbrev pub t_tram : ℕ
t_tram = 49

abbrev pub t_line : ℕ
t_line = 50

abbrev pub t_delay : ℕ
t_delay = 51

abbrev pub t_lookup : ℕ
t_lookup = 52

abbrev pub t_offset : ℕ
t_offset = 53

abbrev pub t_length : ℕ
t_length = 54

abbrev pub t_on_off : ℕ
t_on_off = 55

abbrev pub t_mono : ℕ
t_mono = 56

abbrev pub t_stereo : ℕ
t_stereo = 57

abbrev pub t_range : ℕ
t_range = 58

abbrev pub t_range_interval : ℕ
t_range_interval = 59

abbrev pub t_min : ℕ
t_min = 60

abbrev pub t_max : ℕ
t_max = 61

abbrev pub t_read : ℕ
t_read = 62

abbrev pub t_write : ℕ
t_write = 63

abbrev pub t_spec : ℕ
t_spec = 64

abbrev pub t_absolute : ℕ
t_absolute = 65

abbrev pub t_input : ℕ
t_input = 66

abbrev pub t_output : ℕ
t_output = 67

abbrev pub t_control : ℕ
t_control = 68

abbrev pub t_warn : ℕ
t_warn = 69

abbrev pub t_err : ℕ
t_err = 70

abbrev pub t_dollar : ℕ
t_dollar = 71

abbrev pub t_sharp : ℕ
t_sharp = 72

abbrev pub t_at : ℕ
t_at = 73

abbrev pub t_register : ℕ
t_register = 74

abbrev pub t_plus : ℕ
t_plus = 75

abbrev pub t_minus : ℕ
t_minus = 76

abbrev pub t_unary_minus : ℕ
t_unary_minus = 77

abbrev pub t_times : ℕ
t_times = 78

abbrev pub t_mod : ℕ
t_mod = 79

abbrev pub t_divide : ℕ
t_divide = 80

abbrev pub t_xor : ℕ
t_xor = 81

abbrev pub t_l_shift : ℕ
t_l_shift = 82

abbrev pub t_r_shift : ℕ
t_r_shift = 83

abbrev pub t_equal : ℕ
t_equal = 84

abbrev pub t_greater : ℕ
t_greater = 85

abbrev pub t_greater_equal : ℕ
t_greater_equal = 86

abbrev pub t_less_equal : ℕ
t_less_equal = 87

abbrev pub t_less : ℕ
t_less = 88

abbrev pub t_not_equal : ℕ
t_not_equal = 89

abbrev pub t_and : ℕ
t_and = 90

abbrev pub t_or : ℕ
t_or = 91

abbrev pub t_not : ℕ
t_not = 92

abbrev pub t_bitwise_and : ℕ
t_bitwise_and = 93

abbrev pub t_bitwise_or : ℕ
t_bitwise_or = 94

abbrev pub t_bitwise_not : ℕ
t_bitwise_not = 95

abbrev pub t_power : ℕ
t_power = 96

abbrev pub t_address : ℕ
t_address = 97

abbrev pub t_assign : ℕ
t_assign = 98
