-- ===== src/Flags.antt =====
-- asmdefs.h: the flag words of symbols, registers and controls.
use Prim.Native.Nat.{bit_or}
use emufxtool.Base.{ℕ}

abbrev pub v_value : ℕ
v_value = 0x00000001

abbrev pub v_address : ℕ
v_address = 0x00000002

abbrev pub v_read : ℕ
v_read = 0x00000004

abbrev pub v_write : ℕ
v_write = 0x00000008

abbrev pub v_fxbus : ℕ
v_fxbus = 0x00000010

abbrev pub v_extin : ℕ
v_extin = 0x00000020

abbrev pub v_extout : ℕ
v_extout = 0x00000040

abbrev pub v_spec : ℕ
v_spec = 0x00000080

abbrev pub v_gpr : ℕ
v_gpr = 0x00000100

abbrev pub v_tramd : ℕ
v_tramd = 0x00000200

abbrev pub v_trama : ℕ
v_trama = 0x00000400

abbrev pub v_label : ℕ
v_label = 0x00000800

abbrev pub v_private : ℕ
v_private = 0x00001000

abbrev pub v_fixed : ℕ
v_fixed = 0x00002000

abbrev pub v_array : ℕ
v_array = 0x00004000

abbrev pub v_macro : ℕ
v_macro = 0x00008000

abbrev pub v_delay : ℕ
v_delay = 0x00010000

abbrev pub v_lookup : ℕ
v_lookup = 0x00020000

abbrev pub v_line : ℕ
v_line = 0x00040000

abbrev pub v_tram : ℕ
v_tram = 0x00080000

abbrev pub v_stereo : ℕ
v_stereo = 0x00100000

abbrev pub v_onoff : ℕ
v_onoff = 0x00200000

abbrev pub v_alias : ℕ
v_alias = 0x00400000

abbrev pub v_linedata : ℕ
v_linedata = 0x00800000

abbrev pub v_lineaddr : ℕ
v_lineaddr = 0x01000000

abbrev pub v_control : ℕ
v_control = 0x02000000

abbrev pub v_leaf : ℕ
v_leaf = 0x04000000

abbrev pub v_user : ℕ
v_user = 0x80000000

abbrev pub v_all : ℕ
v_all = 0xffffffff

abbrev pub v_constant : ℕ
v_constant = bit_or v_value v_read

abbrev pub max_pos : ℕ
max_pos = 0x7fffffff
