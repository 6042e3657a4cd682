-- ===== src/Tests/Sums.antt =====
-- The checksum, run at concrete inputs.
use http.Base.{◌≡◌, refl, ◌++◌, codes}
use http.Crc32.{complement, crc32}
use http.Crc32.Streaming.{crc32-append}
use http.Crc32.Register.{divide, bits_of, crc32-divide}

-- The check value of the IEEE 802.3 polynomial.
check_value : crc32 (codes "123456789") 0 ≡ 0xCBF43926
unfolding crc32 http.Crc32.crc_loop http.Crc32.crc_step http.Crc32.entry http.Crc32.make_table
    http.Crc32.crc_bits http.Crc32.crc_bit
check_value = refl

crc32-append_example :
    crc32 (codes "12345" ++ codes "6789") 0 ≡ crc32 (codes "6789") (crc32 (codes "12345") 0)
crc32-append_example = crc32-append (codes "12345") (codes "6789") 0

crc32-divide_example :
    crc32 (codes "a") 7 ≡ complement (divide (complement 7) (bits_of (codes "a")))
crc32-divide_example = crc32-divide (codes "a") 7
