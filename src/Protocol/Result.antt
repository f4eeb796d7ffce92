-- ===== src/Protocol/Result.antt =====
-- `wlh_wire_result_t` of protocol/include/wlh/protocol/wire.h, and the shape of the wire functions:
-- a result code with outputs that only WLH_WIRE_OK fills.
use wl_hosted_core.Prelude.{ℕ, length, Bool, true, false, List, [], ◌!=◌, ◌≡◌, ◌⊎◌, refl, inl, inr}

pub data WireResult : Type 0 where
  end ok invalid_argument buffer_too_small truncated invalid_magic unsupported_version : WireResult
  invalid_header_size invalid_flags invalid_length checksum_mismatch invalid_rpc : WireResult

-- `accept a` returns WLH_WIRE_OK with the outputs `a`; `reject e` returns the code `e`, with the
-- size outputs 0 and the pointer outputs NULL.
pub data Wire (A : Type 0) : Type 0 where
  accept : A → Wire A
  reject : WireResult → Wire A

infixl 5 ◌>>=◌ ◌>>◌
abbrev pub ◌>>=◌ : {A B : Type 0} → Wire A → (A → Wire B) → Wire B
accept a >>= f = f a
reject e >>= f = reject e

abbrev pub ◌>>◌ : {B : Type 0} → Wire (Unit {0}) → Wire B → Wire B
m >> k = m >>= λ _. k

-- `if (test) return code;`
abbrev pub fail_if : Bool → WireResult → Wire (Unit {0})
fail_if true e = reject e
fail_if false e = accept tt

-- `if (result != WLH_WIRE_OK) return result;`
abbrev pub check : WireResult → Wire (Unit {0})
check WireResult.ok = accept tt
check e = reject e

-- A pointer and a size: NULL with the size that the caller claims, or the bytes that it points to.
pub data Span : Type 0 where
  null : ℕ → Span
  bytes : List ℕ → Span

abbrev pub span_bytes : Span → List ℕ
span_bytes (null n) = []
span_bytes (bytes bs) = bs

abbrev pub span_size : Span → ℕ
span_size (null n) = n
span_size (bytes bs) = length bs

-- `payload == NULL && payload_size != 0u`
abbrev pub is_missing : Span → Bool
is_missing (null n) = n != 0
is_missing (bytes bs) = false

-- To split on a call and keep the equation.
pub Wire-cases :
    {A : Type 0} (w : Wire A) → ((a : A) × (w ≡ accept a)) ⊎ ((e : WireResult) × (w ≡ reject e))
Wire-cases (accept a) = inl (a, refl)
Wire-cases (reject e) = inr (e, refl)

-- Inversion of a chain that accepts.
pub >>=-eq-accept :
    {A B : Type 0} (w : Wire A) (f : A → Wire B) {b : B}
    → (w >>= f) ≡ accept b
    → (a : A) × (w ≡ accept a) × (f a ≡ accept b)
>>=-eq-accept (accept a) f h = (a, refl, h)
>>=-eq-accept (reject e) f h = cc
