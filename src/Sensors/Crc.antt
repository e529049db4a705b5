-- ===== src/Sensors/Crc.antt =====
-- `crc8_sensirion` of main/util.h.
use Prim.Native.Nat.{bit_xor}
use van_child_safety.Base.{ℕ, zero, suc, ◌*◌, ◌%◌, List, [], ◌∷◌, leb, if◌then◌else◌}

-- One shift. The checksum is a byte, so that its bit 0x80 is set from 128 on.
unfoldable pub crc_bit : ℕ → ℕ
crc_bit crc = if leb 128 crc then bit_xor (crc * 2) 0x31 % 256 else crc * 2 % 256

abbrev pub crc_bits : ℕ → ℕ → ℕ
crc_bits zero crc = crc
crc_bits (suc k) crc = crc_bits k (crc_bit crc)

unfoldable pub crc_from : ℕ → List ℕ → ℕ
crc_from crc [] = crc
crc_from crc (b ∷ bs) = crc_from (crc_bits 8 (bit_xor crc b % 256)) bs

unfoldable pub crc8_sensirion : List ℕ → ℕ
unfolding crc_from
crc8_sensirion data_bytes = crc_from 0xFF data_bytes
