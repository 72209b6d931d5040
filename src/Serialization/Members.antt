-- ===== src/Serialization/Members.antt =====
-- `for_each_tuple` of coroutine_framework/utils.h, and `reflect_for_each` of
-- mechanism/static_reflection.hpp: a function that is called on one member after the other.
use new_rpc.Base.{ℕ, ◌≡◌, refl}
use new_rpc.Serialization.Memory.{Result, ok, thrown, undefined, aborted, ◌>>=◌, Endian, Cursor}
use new_rpc.Serialization.Types.{Ty, Members, no_members, member, Val, Vals}
use new_rpc.Serialization.Serialize.{serialize, serialize_members}

-- What the function changes is passed along.
unfoldable pub for_each_tuple {ℓ} :
    {S : Type ℓ} → ((t : Ty) → Val t → S → Result S) → (ms : Members) → Vals ms → S → Result S
for_each_tuple func no_members vs s = ok s
for_each_tuple func (member t ms) (v, vs) s = func t v s >>= for_each_tuple func ms vs

-- The members of an object are those of the tuple `MemberType`, in the order of `STATIC_REFLECT`.
unfoldable pub reflect_for_each {ℓ} :
    {S : Type ℓ} → ((t : Ty) → Val t → S → Result S) → (ms : Members) → Vals ms → S → Result S
unfolding for_each_tuple
reflect_for_each func ms obj s = for_each_tuple func ms obj s

-- `serialize` of the members of an object, or of the arguments of a call, is such a walk.
pub serialize_members-for_each_tuple :
    (e : Endian) (ms : Members) (vs : Vals ms) (buffer_len : ℕ) (c : Cursor)
    → serialize_members e ms vs buffer_len c
      ≡ for_each_tuple (λ t v c'. serialize e t v buffer_len c') ms vs c
unfolding serialize for_each_tuple
serialize_members-for_each_tuple e no_members vs buffer_len c = refl
serialize_members-for_each_tuple e (member t ms) (v, vs) buffer_len c =
    after (λ c'. serialize_members-for_each_tuple e ms vs buffer_len c')
      (serialize e t v buffer_len c)
  where
    after :
        {f g : Cursor → Result Cursor}
        → ((c' : Cursor) → f c' ≡ g c')
        → (o : Result Cursor) → (o >>= f) ≡ (o >>= g)
    after ih (ok c') = ih c'
    after ih (thrown x) = refl
    after ih undefined = refl
    after ih aborted = refl
