-- ===== src/Archive/State.antt =====
-- The state of a `chunkArchive`, its exceptions and the monad of its methods.
use emufxtool.Base.{ℕ, Bool, false, Option, none, some, ◌≡◌}
use emufxtool.Archive.Stream.{Stream}

-- The messages of the exceptions. `malloc` does not fail here.
pub data Error : Type 0 where
  not_open beyond_end : Error

-- `stream` is `none` when there is no stream or its file could not be opened. `tag_bit` and
-- `chunk_bit` are the two bits of `status_bits`.
pub record Archive : Type 0 where
  pub stream : Option Stream
  pub tag_bit : Bool
  pub chunk_bit : Bool
  pub chunk_id : ℕ
  pub chunk_start : ℕ
  pub chunk_end : ℕ

abbrev pub new_archive : Option Stream → Archive
new_archive f = record {
  stream = f;
  tag_bit = false;
  chunk_bit = false;
  chunk_id = 0;
  chunk_start = 0;
  chunk_end = 0;
}

-- How a call ends: it returns or throws, and what it has changed before stays changed.
pub data Outcome {ℓ} (A : Type ℓ) : Type ℓ where
  ok : A → Archive → Outcome A
  err : Error → Archive → Outcome A

abbrev pub Method {ℓ} : Type ℓ → Type ℓ
Method A = Archive → Outcome A

abbrev pub pure {ℓ} : {A : Type ℓ} → A → Method A
pure x a = ok x a

abbrev pub throw {ℓ} : {A : Type ℓ} → Error → Method A
throw e a = err e a

infixl 5 ◌>>=◌ ◌>>◌
abbrev pub ◌>>=◌ {ℓ κ} : {A : Type ℓ} {B : Type κ} → Method A → (A → Method B) → Method B
◌>>=◌ m f a = elim (m a) [ ok x a' ↦ f x a' | err e a' ↦ err e a' ]

abbrev pub ◌>>◌ {ℓ} : {B : Type ℓ} → Method (Unit {0}) → Method B → Method B
m >> k = m >>= λ _. k

-- `VALIDF`, and then a call on the stream.
abbrev pub on_stream {ℓ} : {A : Type ℓ} → (Stream → A × Stream) → Method A
on_stream f a = elim a.stream [
  | none ↦ err not_open a
  | some s ↦ let (x, s') = f s in ok x (record a { stream = some s' })
]

abbrev pub change_stream : (Stream → Stream) → Method (Unit {0})
change_stream f = on_stream (λ s. (tt, f s))

abbrev pub gets {ℓ} : {A : Type ℓ} → (Archive → A) → Method A
gets f a = ok (f a) a

abbrev pub modify : (Archive → Archive) → Method (Unit {0})
modify f a = ok tt (f a)

-- A call that returns hands its result and the archive on.
pub >>=-ok {ℓ κ} :
    {A : Type ℓ} {B : Type κ} (m : Method A) (f : A → Method B) {x : A} {a a' : Archive}
    → m a ≡ ok x a'
    → (m >>= f) a ≡ f x a'
>>=-ok m f p = rw (p, ◌>>=◌)
