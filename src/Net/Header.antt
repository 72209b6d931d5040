-- ===== src/Net/Header.antt =====
-- `PackageHeader` of net_module/rpc_struct.h and its reflection.
use Prim.Native.Nat.{bit_and, bit_or}
use new_rpc.Base.{ℕ, ◌%◌, ◌^◌, Bool, ◌&&◌, ◌==◌}
use new_rpc.Serialization.Memory.{Result, ok, ◌>>◌, check}
use new_rpc.Serialization.Types.{Ty, Members, fundamental, reflected, no_members, member, Vals}

pub record PackageHeader : Type 0 where
  pub version : ℕ
  pub reserved : ℕ
  pub server_port : ℕ
  pub flags : ℕ
  pub rpc_id : ℕ
  pub process_restart_counter : ℕ
  pub rpc_type : ℕ
  pub checksum : ℕ
  pub payload_len : ℕ

abbrev pub magic_number : ℕ
magic_number = 0xaabbccdd

-- As for `IP_TYPE_MASK`, the literal is the hexadecimal 0x11b.
abbrev pub mask_message_type_bits : ℕ
mask_message_type_bits = 0x11b

-- `enum class MessageType : uint32_t`.
pub data MessageType : Type 0 where
  not_used_1 request response not_used_2 : MessageType

abbrev pub message_type_value : MessageType → ℕ
message_type_value not_used_1 = 0
message_type_value request = 1
message_type_value response = 2
message_type_value not_used_2 = 3

-- `PackageHeader()`.
unfoldable pub empty_header : PackageHeader
empty_header = record {
  version = 0;
  reserved = 0;
  server_port = 0;
  flags = 0;
  rpc_id = 0;
  process_restart_counter = 0;
  rpc_type = 0;
  checksum = magic_number;
  payload_len = 0;
}

-- The constructor with arguments.
unfoldable pub make_header : (counter rpc_type rpc_id server_port payload_len : ℕ) → PackageHeader
make_header counter rpc_type rpc_id server_port payload_len = record {
  version = 1;
  reserved = 0;
  server_port = server_port;
  flags = 0;
  rpc_id = rpc_id;
  process_restart_counter = counter;
  rpc_type = rpc_type;
  checksum = magic_number;
  payload_len = payload_len;
}

-- `PackageHeader::operator==`, which compares neither the port nor the checksum.
unfoldable pub header_eq : PackageHeader → PackageHeader → Bool
header_eq x y =
    x.version == y.version
    && x.reserved == y.reserved
    && x.flags == y.flags
    && x.rpc_id == y.rpc_id
    && x.process_restart_counter == y.process_restart_counter
    && x.rpc_type == y.rpc_type
    && x.payload_len == y.payload_len

-- `flags_` has 16 bits.
unfoldable pub set_message_type : PackageHeader → MessageType → Result PackageHeader
set_message_type x type = do
  check (bit_and x.flags mask_message_type_bits == 0)
  ok (record x { flags = bit_or x.flags (message_type_value type) % 2 ^ 16 })

unfoldable pub get_message_type : PackageHeader → ℕ
get_message_type x = bit_and x.flags mask_message_type_bits

-- `STATIC_REFLECT(ToE::PackageHeader, …)`: the members in the order in which they are serialized.
abbrev pub header_members : Members
header_members = member (fundamental 2) (
    member (fundamental 2) (
      member (fundamental 2) (
        member (fundamental 2) (
          member (fundamental 8) (
            member (fundamental 2) (
              member (fundamental 2)
                (member (fundamental 8) (member (fundamental 4) no_members))))))))

abbrev pub header_type : Ty
header_type = reflected header_members

abbrev pub header_vals : PackageHeader → Vals header_members
header_vals x = (
  x.version,
  (
    x.reserved,
    (
      x.server_port,
      (
        x.flags,
        (x.rpc_id, (x.process_restart_counter, (x.rpc_type, (x.payload_len, (x.checksum, tt))))),
      ),
    ),
  ),
)

abbrev pub header_of_vals : Vals header_members → PackageHeader
header_of_vals
      (
        version,
        (
          reserved,
          (server_port, (flags, (rpc_id, (counter, (rpc_type, (payload_len, (checksum, rest))))))),
        ),
      ) =
    record {
      version = version;
      reserved = reserved;
      server_port = server_port;
      flags = flags;
      rpc_id = rpc_id;
      process_restart_counter = counter;
      rpc_type = rpc_type;
      checksum = checksum;
      payload_len = payload_len;
    }
