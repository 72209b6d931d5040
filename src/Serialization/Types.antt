-- ===== src/Serialization/Types.antt =====
-- The types that `Serializer` tells apart, and their values. An enumeration has a width and says whether
-- its underlying type has a sign; a number is its bit pattern, and a `bool` among the members its byte.
use new_rpc.Base.{ℕ, Bool, List, [], Option, none}

mutual
  pub data Ty : Type 0 where
    pointer : Ty → Ty
    enumeration : (signed : Bool) (width : ℕ) → Ty
    fundamental : ℕ → Ty
    string : Ty
    range : Ty → Ty
    reflected : Members → Ty
    error : Ty
    expected : Ty → Ty

  pub data Members : Type 0 where
    no_members : Members
    member : Ty → Members → Members

-- `std::expected<T, Error>`, an `Error` being its `error_no_`.
pub data Expected {ℓ} (A : Type ℓ) : Type ℓ where
  value : A → Expected A
  unexpected : ℕ → Expected A

abbrev mutual
  pub Val : Ty → Type 0
  Val (pointer t) = Option (Val t)
  Val (enumeration signed w) = ℕ
  Val (fundamental n) = ℕ
  Val string = List ℕ
  Val (range t) = List (Val t)
  Val (reflected ms) = Vals ms
  Val error = ℕ
  Val (expected t) = Expected (Val t)

  pub Vals : Members → Type 0
  Vals no_members = Unit {0}
  Vals (member t ms) = Val t × Vals ms

-- The value that `T data;` or `new T()` starts from; an uninitialised number is shown as 0.
unfoldable mutual
  pub default_val : (t : Ty) → Val t
  default_val (pointer t) = none
  default_val (enumeration signed w) = 0
  default_val (fundamental n) = 0
  default_val string = []
  default_val (range t) = []
  default_val (reflected ms) = default_vals ms
  default_val error = 0
  default_val (expected t) = value (default_val t)

  pub default_vals : (ms : Members) → Vals ms
  default_vals no_members = tt
  default_vals (member t ms) = (default_val t, default_vals ms)
