-- ===== src/Image/Data.antt =====
-- The records of patch.h.
use emufxtool.Base.{ℕ, Option, none, some, List, get_elem?, ltb, if◌then◌else◌}
use emufxtool.Base.Table.{Table}
use emufxtool.Dsp.{Dsp}
use emufxtool.Archive.Stream.{Bytes}

pub record RegisterImage : Type 0 where
  pub address : ℕ
  pub value : ℕ
  pub flags : ℕ

pub record TramImage : Type 0 where
  pub size : ℕ
  pub offset : ℕ
  pub flags : ℕ

-- The constructor of `emuTramImage`, with its parameters in their order.
abbrev pub tram_image : ℕ → ℕ → ℕ → TramImage
tram_image f s o = record { size = s; offset = o; flags = f }

pub record Code : Type 0 where
  pub hi : ℕ
  pub lo : ℕ
  pub pc : ℕ

-- `initial_values` is `none` where the pointer is null; nothing in the program sets it.
pub record Control : Type 0 where
  pub name : Bytes
  pub initial_values : Option (List ℕ)
  pub flags : ℕ
  pub first_gpr : ℕ
  pub ngprs : ℕ
  pub range_min : ℕ
  pub range_max : ℕ
  pub ttable : ℕ
  pub index : ℕ

pub record Export : Type 0 where
  pub symbol : Bytes
  pub flags : ℕ
  pub address : ℕ
  pub count : ℕ

-- `emuControl::emuControl`
abbrev pub new_control_of : Bytes → ℕ → ℕ → ℕ → ℕ → ℕ → ℕ → ℕ → Control
new_control_of name fl gpr n min max ttab idx = record {
  name = name;
  initial_values = none;
  flags = fl;
  first_gpr = gpr;
  ngprs = n;
  range_min = min;
  range_max = max;
  ttable = ttab;
  index = idx;
}

-- `emuControl::getValue`, at an index that is not negative.
unfoldable pub get_control_value : Control → ℕ → ℕ
get_control_value c i = elim c.initial_values [
  | none ↦ 0
  | some values ↦ if ltb i c.ngprs then elim (get_elem? values i) [ none ↦ 0 | some v ↦ v ] else 0
]

pub record Image : Type 0 where
  pub current_gpr : ℕ
  pub current_line : ℕ
  pub current_tram : ℕ
  pub current_tram_size : ℕ
  pub dsp : Dsp
  pub registers : Table ℕ RegisterImage
  pub constants : Table ℕ ℕ
  pub trams : List TramImage
  pub code : List Code
  pub controls : List Control
  pub exports : List Export
