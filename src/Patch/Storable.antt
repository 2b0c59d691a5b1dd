-- ===== src/Patch/Storable.antt =====
-- What an image must satisfy so that the fields of the file hold it: ranges, order, numbering.
use emufxtool.Base.{ℕ, ◌+◌, ◌^◌, ◌<◌, ◌≡◌, none, List, [], ◌∷◌, length}
use emufxtool.Base.Text.{Text, IsCString}
use emufxtool.Base.Table.{Table}
use emufxtool.Base.Sorted.{IsSorted}
use emufxtool.Image.Data.{RegisterImage, Code, Control, Export, Image}

-- A text that a C string and a 32-bit length hold.
abbrev pub IsName : Text → Type 0
IsName s = IsCString s × (length s + 1 < 2 ^ 32)

abbrev pub RegistersFit : Table ℕ RegisterImage → Type 0
RegistersFit [] = Unit
RegistersFit ((address, r) ∷ t) =
    (address < 2 ^ 16) × (r.value < 2 ^ 32) × (r.flags < 2 ^ 32) × RegistersFit t

-- The instructions are numbered from `i`.
abbrev pub CodeFits : ℕ → List Code → Type 0
CodeFits i [] = Unit
CodeFits i (c ∷ code) = (c.pc ≡ i) × (c.lo < 2 ^ 32) × (c.hi < 2 ^ 32) × CodeFits (i + 1) code

pub record ControlFits (c : Control) : Type 0 where
  pub name : IsName c.name
  pub no_values : c.initial_values ≡ none
  pub flags : c.flags < 2 ^ 32
  pub first_gpr : c.first_gpr < 2 ^ 16
  pub ngprs : c.ngprs < 2 ^ 16
  pub range_min : c.range_min < 2 ^ 32
  pub range_max : c.range_max < 2 ^ 32
  pub ttable : c.ttable < 2 ^ 8
  pub index : c.index < 2 ^ 8

abbrev pub ControlsFit : List Control → Type 0
ControlsFit [] = Unit
ControlsFit (c ∷ controls) = ControlFits c × ControlsFit controls

abbrev pub ExportsFit : List Export → Type 0
ExportsFit [] = Unit
ExportsFit (e ∷ exports) =
    IsName e.symbol
    × (e.flags < 2 ^ 32)
    × (e.address < 2 ^ 16)
    × (e.count < 2 ^ 16)
    × ExportsFit exports

pub record IsStorable (img : Image) : Type 0 where
  pub register_count : length img.registers < 2 ^ 16
  pub registers_sorted : IsSorted img.registers
  pub registers : RegistersFit img.registers
  pub code_count : length img.code < 2 ^ 16
  pub code : CodeFits 0 img.code
  pub control_count : length img.controls < 2 ^ 16
  pub controls : ControlsFit img.controls
  pub export_count : length img.exports < 2 ^ 16
  pub exports : ExportsFit img.exports
