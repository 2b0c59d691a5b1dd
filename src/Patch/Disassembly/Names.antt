-- ===== src/Patch/Disassembly/Names.antt =====
-- The names of labels: different numbers have different names.
use emufxtool.Base.{
  ℕ, zero, suc, ◌+◌, ◌-◌, ◌*◌, ◌/◌, ◌%◌, ◌^◌, ◌<◌, ◌≡◌, refl, sym, ap, ◌∙◌, ltb, true, length, [],
  ◌∷◌, Bool-cases, inl, inr, arith,
}
use emufxtool.Base.Text.{Text}
use emufxtool.Patch.Disassembly.{hex_digit, digits, zeros, label_name}

-- The number that decimal digits continue.
abbrev continued : ℕ → Text → ℕ
continued n [] = n
continued n (c ∷ t) = continued (n * 10 + (c - 0x30)) t

abbrev powers : ℕ → ℕ
powers zero = 1
powers (suc n) = 10 * powers n

last_digit : (n : ℕ) → hex_digit (n % 10) - 0x30 ≡ n % 10
last_digit n = ground arith

small_number : (n : ℕ) → ltb n 10 ≡ true → n < 10
small_number n h = ground arith

continued-digits :
    (rounds n : ℕ) (t : Text)
    → n < powers rounds
    → continued 0 (digits 10 rounds n t) ≡ continued n t
continued-digits zero n t h = ap (λ m. continued m t) (omega (arith, h))
continued-digits (suc rounds) n t h = elim (Bool-cases (ltb n 10)) [
  | inl small ↦
      rw small (ap (λ m. continued m t) (omega (arith, last_digit n, small_number n small)))
  | inr large ↦ rw large (
      continued-digits rounds (n / 10) (hex_digit (n % 10) ∷ t) (omega (arith, h))
      ∙ ap (λ m. continued m t) (omega (arith, last_digit n)))
]

continued-zeros : (n : ℕ) (t : Text) → continued 0 (zeros n t) ≡ continued 0 t
continued-zeros zero t = refl
continued-zeros (suc n) t = continued-zeros n t

abbrev name_value : Text → ℕ
name_value (a ∷ b ∷ c ∷ t) = continued 0 t
name_value t = 0

name_value-label_name : (n : ℕ) → n < 10 ^ 10 → name_value (label_name n) ≡ n
name_value-label_name n h =
    continued-zeros (3 - length (digits 10 10 n [])) (digits 10 10 n [])
    ∙ continued-digits 10 n [] h

pub label_name_injective :
    (m n : ℕ) → m < 10 ^ 10 → n < 10 ^ 10 → label_name m ≡ label_name n → m ≡ n
label_name_injective m n hm hn e =
    sym (name_value-label_name m hm) ∙ (ap name_value e ∙ name_value-label_name n hn)
