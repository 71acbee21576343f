-- ===== src/Io.antt =====
-- Polling and I/O errors: `Poll<io::Result<T>>` together with the state that the call leaves
-- behind, and the trait `MemRead` of proto/http1/io.rs.
pub mod Slice
use hwire.Base.{ℕ, ◌≡◌, ◌≤◌, ◌⊎◌, Option, none, some, List, [], ◌++◌, Bytes, length}

-- Each constructor is one `io::Error::new` of decode.rs; `transport` is an error of the reader.
pub data IoError : Type 0 where
  incomplete_body unexpected_eof overflow missing_size_digit invalid_size invalid_size_lws : IoError
  extension_newline extensions_over_limit invalid_size_lf invalid_body_cr invalid_body_lf : IoError
  trailers_over_limit trailers_count_overflow invalid_trailer_lf invalid_end_lf : IoError
  invalid_header_name invalid_header_value partial_header invalid_headers : IoError
  write_zero : IoError
  transport : ℕ → IoError

-- What a polled call does: it returns a value or an error, it is pending, or it panics. The first
-- three carry the state, since what was changed through a `&mut` stays changed.
pub data Out {ℓ} (S : Type ℓ) (A : Type ℓ) : Type ℓ where
  ready : S → A → Out S A
  failed : S → IoError → Out S A
  pending : S → Out S A
  panicked : Out S A

-- Stateful code that can fail, wait and panic; `?` and `ready!` are the bind.
module _ {S : Type 0} where
  infixl 5 ◌>>=◌ ◌>>◌
  abbrev pub ◌>>=◌ : {A B : Type 0} → (S → Out S A) → (A → S → Out S B) → S → Out S B
  ◌>>=◌ m f s = elim (m s) [
    | ready s' a ↦ f a s'
    | failed s' e ↦ failed s' e
    | pending s' ↦ pending s'
    | panicked ↦ panicked
  ]

  abbrev pub ◌>>◌ : {B : Type 0} → (S → Out S (Unit {0})) → (S → Out S B) → S → Out S B
  m >> k = m >>= λ _. k

  abbrev pub ret : {A : Type 0} → A → S → Out S A
  ret a s = ready s a

  abbrev pub fail : {A : Type 0} → IoError → S → Out S A
  fail e s = failed s e

pub record MemRead (R : Type 0) : Type 0 where
  pub read_mem : R → ℕ → Out R Bytes

-- `rest r` is everything that the reader `r` has still to deliver, now or later.
abbrev pub Delivers : {R : Type 0} → (R → Bytes) → Bytes → ℕ → Out R Bytes → Type 0
Delivers rest whole len (ready r' bs) =
    (whole ≡ bs ++ rest r') × (length bs ≤ len) × (bs ≡ [] → (whole ≡ []) ⊎ (len ≡ 0))
Delivers rest whole len (failed r' e) = rest r' ≡ whole
Delivers rest whole len (pending r') = rest r' ≡ whole
Delivers rest whole len panicked = ⊥

-- The contract of `read_mem`: a call returns a prefix of at most `len` bytes of what is left, and
-- an empty one only at the end or where nothing was asked for.
pub record ReadLaws {R : Type 0} (m : MemRead R) : Type 0 where
  pub rest : R → Bytes
  pub delivers : (r : R) (len : ℕ) → Delivers rest (rest r) len (m.read_mem r len)

abbrev pub IsReady : {S A : Type 0} → Out S A → Type 0
IsReady (ready s a) = Unit
IsReady _ = ⊥

-- A reader that has all its bytes at hand: it never fails and is never pending.
abbrev pub IsSteady : {R : Type 0} → MemRead R → Type 0
IsSteady {R} m = (r : R) (len : ℕ) → IsReady (m.read_mem r len)
