-- ===== src/SteamClient/Mask.antt =====
-- The protobuf bit of a 32-bit message type: set, tested and cleared.
use steamstacks.Prelude.{ℕ, ◌+◌, ◌*◌, ◌/◌, ◌%◌, ◌^◌, ◌<◌, ◌≡◌, bit_and, bit_or, arith}
use steamstacks.Prelude.Bits.{
  bit_and_split, bit_or_split, bit_and_mask, bit_and-zero, bit_or-zero, zero-bit_or,
}
use steamstacks.SteamClient.Protocol.{proto_mask, clear_proto_mask}

pub set_mask : (e : ℕ) → e < 2 ^ 31 → bit_or e proto_mask ≡ e + 2 ^ 31
set_mask e h = ground (arith, bit_or_split 31 0 e 1 0, zero-bit_or 1, bit_or-zero e)

pub test_mask : (raw : ℕ) → raw < 2 ^ 32 → bit_and raw proto_mask ≡ raw / 2 ^ 31 * 2 ^ 31
test_mask raw h = ground (
  arith,
  bit_and_split 31 (raw / 2 ^ 31) (raw % 2 ^ 31) 1 0,
  bit_and_mask 1 (raw / 2 ^ 31),
  bit_and-zero (raw % 2 ^ 31),
)

pub clear_mask : (raw : ℕ) → raw < 2 ^ 32 → clear_proto_mask raw ≡ raw % 2 ^ 31
clear_mask raw h = ground (arith, bit_and_mask 31 raw)
