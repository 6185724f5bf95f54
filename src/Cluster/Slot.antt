-- ===== src/Cluster/Slot.antt =====
-- `GetSlotForKey` and `crc16` of internal/cluster/cluster.go. A key is its bytes.
pub mod HashTag
use Prim.Native.Nat.{bit_xor}
use redis_meter.Base.{
  ℕ, zero, suc, ◌+◌, ◌-◌, ◌*◌, ◌%◌, ◌≡◌, refl, Bool, Option, none, some, List, [], ◌∷◌, leb, ltb,
  if◌then◌else◌, take, drop,
}
use redis_meter.Base.Text.{Text, codes, index}

-- One bit of the register, whose top bit is `crc&0x8000`.
abbrev pub shift_bit : ℕ → ℕ
shift_bit crc =
    let shifted = crc * 2 % 65536 in if leb 32768 crc then bit_xor shifted 4129 else shifted

abbrev pub shift_bits : ℕ → ℕ → ℕ
shift_bits zero crc = crc
shift_bits (suc n) crc = shift_bits n (shift_bit crc)

unfoldable pub crc_from : ℕ → Text → ℕ
crc_from crc [] = crc
crc_from crc (b ∷ data_left) = crc_from (shift_bits 8 (bit_xor crc (b * 256))) data_left

unfoldable pub crc16 : Text → ℕ
crc16 bytes = crc_from 0 bytes

-- The part of the key that is hashed: what stands between the first `{` and the first `}` behind
-- it, unless that is nothing.
unfoldable pub hashed_part : Text → Text
hashed_part key = elim (index b'{' key) [
  | none ↦ key
  | some start ↦ elim (index b'}' (drop start key)) [
    | none ↦ key
    | some end ↦ if ltb 1 end then take (end - 1) (drop (suc start) key) else key
  ]
]

unfoldable pub get_slot_for_key : Text → ℕ
get_slot_for_key key = crc16 (hashed_part key) % 16384

-- The check value of CRC-16/XMODEM.
crc16_check : crc16 (codes "123456789") ≡ 12739
unfolding crc16 crc_from
crc16_check = refl

slot_of_tagged :
    get_slot_for_key (codes "{user1000}.following") ≡ get_slot_for_key (codes "user1000")
unfolding get_slot_for_key hashed_part index crc16 crc_from
slot_of_tagged = refl
