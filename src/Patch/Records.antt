-- ===== src/Patch/Records.antt =====
-- Each list of records is read back from its bytes.
use mathlib.Core.List.{append_assoc, append-nil}
use emufxtool.Base.{
  ℕ, ◌+◌, ◌^◌, ◌<◌, ◌≡◌, ap, sym, none, List, [], ◌∷◌, ◌++◌, length, arith, length-append,
}
use emufxtool.Base.Text.{Text, c_string, c_string_closed}
use emufxtool.Base.Table.{Table, nat_key}
use emufxtool.Base.Sorted.{IsSorted, AllAbove, AllBelow, AllBelow-snoc, insert_last}
use emufxtool.Words.{u8}
use emufxtool.Archive.Stream.{Bytes}
use emufxtool.Archive.State.{Method}
use emufxtool.Archive.Input.{read_byte, read_string}
use emufxtool.Archive.InputLaws.{
  Parses, Parses-pure, Parses-bind, read_byte-Parses, read_short-Parses, read_long-Parses,
  read_string-Parses,
}
use emufxtool.Image.Data.{RegisterImage, Code, Control, Export}
use emufxtool.Patch.Layout.{
  byte_bytes, string_bytes, register_bytes, code_bytes, control_bytes, export_bytes,
}
use emufxtool.Patch.Load.{read_registers, read_code, read_controls, read_exports}
use emufxtool.Patch.Storable.{IsName, RegistersFit, CodeFits, ControlsFit, ExportsFit}

-- What the file keeps of the registers: each has the address that it is stored under.
abbrev pub stored : Table ℕ RegisterImage → Table ℕ RegisterImage
stored [] = []
stored ((address, r) ∷ t) = (address, record r { address = address }) ∷ stored t

-- Every key of `acc` lies below the first key of `t`.
abbrev Precedes : Table ℕ RegisterImage → Table ℕ RegisterImage → Type 0
Precedes acc [] = Unit
Precedes acc ((k, r) ∷ t) = AllBelow k acc

pub Precedes-first : (t : Table ℕ RegisterImage) → Precedes [] t
Precedes-first [] = tt
Precedes-first ((k, r) ∷ t) = tt

Precedes-snoc :
    (acc t : Table ℕ RegisterImage) (k : ℕ) (r : RegisterImage)
    → AllBelow k acc
    → AllAbove k t
    → Precedes (acc ++ (k, r) ∷ []) t
Precedes-snoc acc [] k r below above = tt
Precedes-snoc acc ((j, s) ∷ t) k r below above = AllBelow-snoc k j r acc below above.0

-- One more record behind those that are read.
regroup {ℓ} :
    {A : Type ℓ} (m : Method (List A)) (ds : Bytes) (acc rest : List A) (x : A)
    → Parses m ds ((acc ++ x ∷ []) ++ rest)
    → Parses m ds (acc ++ x ∷ rest)
regroup m ds acc rest x p = rw (append_assoc acc (x ∷ []) rest) at p

pub read_registers-Parses :
    (t acc : Table ℕ RegisterImage)
    → RegistersFit t
    → IsSorted t
    → Precedes acc t
    → Parses (read_registers (length t) acc) (register_bytes t) (acc ++ stored t)
unfolding read_registers register_bytes
read_registers-Parses [] acc fit sorted below = rw append-nil (Parses-pure acc)
read_registers-Parses ((k, r) ∷ t) acc fit sorted below =
    let new : RegisterImage = record { address = k; value = r.value; flags = r.flags } in
    let rest =
      read_registers-Parses t (acc ++ (k, new) ∷ []) fit.3 sorted.1
        (Precedes-snoc acc t k new below sorted.0) in
    Parses-bind _ (read_short-Parses k fit.0) (
      Parses-bind _ (read_long-Parses r.value fit.1) (
        Parses-bind _ (read_long-Parses r.flags fit.2)
          (rw (insert_last k new acc below) (regroup _ _ acc (stored t) (k, new) rest))))

pub read_code-Parses :
    (code acc : List Code) (i : ℕ)
    → CodeFits i code
    → Parses (read_code (length code) i acc) (code_bytes code) (acc ++ code)
unfolding read_code code_bytes
read_code-Parses [] acc i fit = rw append-nil (Parses-pure acc)
read_code-Parses (c ∷ code) acc i fit =
    let rest = read_code-Parses code (acc ++ c ∷ []) (i + 1) fit.3 in
    let same : record c { pc = i } ≡ c = ap (λ t. record c { pc = t }) (sym fit.0) in
    Parses-bind _ (read_long-Parses c.lo fit.1)
      (Parses-bind _ (read_long-Parses c.hi fit.2) (rw same (regroup _ _ acc code c rest)))

-- The name of a record, with its closing 0.
pub read_name-Parses : (s : Text) → IsName s → Parses read_string (string_bytes s) (s ++ 0 ∷ [])
read_name-Parses s name =
    rw (length-append s (0 ∷ [])) at
      (read_string-Parses (s ++ 0 ∷ []) (omega (arith, name.1, length-append s (0 ∷ []))))

read_small-Parses : (c : ℕ) → c < 2 ^ 8 → Parses read_byte (byte_bytes c) c
read_small-Parses c h = let small : u8 c ≡ c = omega (arith, h) in rw small (read_byte-Parses c)

pub read_controls-Parses :
    (controls acc : List Control)
    → ControlsFit controls
    → Parses (read_controls (length controls) acc) (control_bytes controls) (acc ++ controls)
unfolding read_controls control_bytes
read_controls-Parses [] acc fit = rw append-nil (Parses-pure acc)
read_controls-Parses (c ∷ controls) acc (fit, fits) =
    let rest = read_controls-Parses controls (acc ++ c ∷ []) fits in
    let same : record c { name = c_string (c.name ++ 0 ∷ []); initial_values = none } ≡ c =
      rw (c_string_closed c.name fit.name.0)
        (ap (λ t. record c { initial_values = t }) (sym fit.no_values)) in
    Parses-bind _ (read_name-Parses c.name fit.name) (
      Parses-bind _ (read_long-Parses c.flags fit.flags) (
        Parses-bind _ (read_short-Parses c.first_gpr fit.first_gpr) (
          Parses-bind _ (read_short-Parses c.ngprs fit.ngprs) (
            Parses-bind _ (read_long-Parses c.range_min fit.range_min) (
              Parses-bind _ (read_long-Parses c.range_max fit.range_max) (
                Parses-bind _ (read_small-Parses c.ttable fit.ttable) (
                  Parses-bind _ (read_small-Parses c.index fit.index)
                    (rw same (regroup _ _ acc controls c rest)))))))))

pub read_exports-Parses :
    (exports acc : List Export)
    → ExportsFit exports
    → Parses (read_exports (length exports) acc) (export_bytes exports) (acc ++ exports)
unfolding read_exports export_bytes
read_exports-Parses [] acc fit = rw append-nil (Parses-pure acc)
read_exports-Parses (e ∷ exports) acc (name, flags, address, count, fits) =
    let rest = read_exports-Parses exports (acc ++ e ∷ []) fits in
    Parses-bind _ (read_name-Parses e.symbol name) (
      Parses-bind _ (read_long-Parses e.flags flags) (
        Parses-bind _ (read_short-Parses e.address address) (
          Parses-bind _ (read_short-Parses e.count count)
            (rw (c_string_closed e.symbol name.0) (regroup _ _ acc exports e rest)))))
