-- ===== src/Net/EndPoint.antt =====
-- `EndPoint` of net_module/net_define.h and net_define.cpp, and `FinishCondition`.
use Prim.Native.Nat.{bit_and, bit_or}
use new_rpc.Serialization.Memory.{Result, ok, aborted}
use new_rpc.Base.{
  ℕ, ◌%◌, Bool, true, false, ◌&&◌, ◌||◌, List, [], ◌∷◌, take, drop, if◌then◌else◌, ◌==◌,
}

-- `IP_TYPE_MASK`: the source spells a binary literal, but `0x…11b` is the hexadecimal 0x11b.
abbrev pub ip_type_mask : ℕ
ip_type_mask = 0x11b

-- `enum class IPType : uint32_t`.
pub data IpType : Type 0 where
  invalid_0 ipv4 ipv6 invalid_1 : IpType

abbrev pub ip_type_value : IpType → ℕ
ip_type_value invalid_0 = 0
ip_type_value ipv4 = 1
ip_type_value ipv6 = 2
ip_type_value invalid_1 = 3

-- `union IP`: the 16 bytes, of which an IPV4 uses the first four. An IPV6 is compared as its eight
-- 16-bit words, that is as its bytes.
pub record EndPoint : Type 0 where
  pub ip : List ℕ
  pub port : ℕ
  pub flags : ℕ

-- The zeros that the union's constructor leaves behind an IPV4.
abbrev pub ipv4_bytes : (a b c d : ℕ) → List ℕ
ipv4_bytes a b c d = a ∷ b ∷ c ∷ d ∷ 0 ∷ 0 ∷ 0 ∷ 0 ∷ 0 ∷ 0 ∷ 0 ∷ 0 ∷ 0 ∷ 0 ∷ 0 ∷ 0 ∷ []

unfoldable pub bytes_eq : List ℕ → List ℕ → Bool
bytes_eq [] [] = true
bytes_eq (x ∷ xs) (y ∷ ys) = x == y && bytes_eq xs ys
bytes_eq xs ys = false

-- `EndPoint(const IPV4 &, uint16_t)`.
unfoldable pub make_ipv4 : (a b c d port : ℕ) → EndPoint
make_ipv4 a b c d port = record {
  ip = ipv4_bytes a b c d;
  port = port;
  flags = bit_or 0 (ip_type_value ipv4);
}

unfoldable pub ip_type : EndPoint → ℕ
ip_type x = bit_and x.flags ip_type_mask

unfoldable pub is_valid : EndPoint → Bool
unfolding ip_type
is_valid x = ip_type x == ip_type_value ipv4 || ip_type x == ip_type_value ipv6

-- `EndPoint::operator==`: the type of the left side decides what is compared.
unfoldable pub endpoint_eq : EndPoint → EndPoint → Bool
unfolding bytes_eq ip_type
endpoint_eq x y =
    if ip_type x == ip_type_value ipv4
    then bytes_eq (take 4 x.ip) (take 4 y.ip) && x.port == y.port
    else if ip_type x == ip_type_value ipv6
    then bytes_eq x.ip y.ip && x.port == y.port
    else false

unfoldable pub set_port : EndPoint → ℕ → EndPoint
set_port x port = record x { port = port }

-- `from_asio_end_point` for an address of version 4: the bytes, the flags and the port.
unfoldable pub from_asio_end_point : EndPoint → (a b c d port : ℕ) → EndPoint
from_asio_end_point x a b c d port = record {
  ip = a ∷ b ∷ c ∷ d ∷ drop 4 x.ip;
  port = port;
  flags = bit_or 0 (ip_type_value ipv4);
}

pub data FinishCondition : Type 0 where
  invalid when_any when_all when_majority : FinishCondition

-- `IPV4()` and `IPV4(uint8_t[4])`; and the constructor from a list, which must have four numbers, of
-- which the low byte is kept.
unfoldable pub default_ipv4 : List ℕ
default_ipv4 = 0 ∷ 0 ∷ 0 ∷ 0 ∷ []

unfoldable pub ipv4_of_array : List ℕ → List ℕ
ipv4_of_array addr = take 4 addr

unfoldable pub ipv4_of_list : List ℕ → Result (List ℕ)
ipv4_of_list (a ∷ b ∷ c ∷ d ∷ []) = ok ((a % 256) ∷ (b % 256) ∷ (c % 256) ∷ (d % 256) ∷ [])
ipv4_of_list xs = aborted

-- `EndPoint()`: the flags are not initialised, so they are an argument.
unfoldable pub default_end_point : (flags : ℕ) → EndPoint
default_end_point flags = record { ip = ipv4_bytes 0 0 0 0; port = 0; flags = flags }
