-- ===== src/Tests/Memory.antt =====
-- Word accesses at the default configuration.
use open_gpu.Prelude.{◌%◌, ◌^◌, ◌≡◌, refl, inr, some, arith}
use open_gpu.Memory.{Bytes, load_le, store_le, paddr_read, paddr_write}
use open_gpu.Memory.Words.{paddr_read-paddr_write, paddr_read-paddr_write_apart}
use open_gpu.Tests.Fixture.{default_config, default-IsSupported, zeros}

-- The memory after 0x11223344 is stored at 0x80000010.
abbrev stored : Bytes
stored = store_le zeros 16 4 0x11223344

accepted : paddr_write default_config (some zeros) 0x80000010 4 0x11223344 ≡ some (some stored)
unfolding paddr_write
accepted = refl

reads_half : paddr_read default_config (some stored) 0x80000012 2 ≡ some 0x1122
unfolding paddr_read store_le load_le
reads_half = refl

paddr_read-paddr_write_example :
    paddr_read default_config (some stored) 0x80000010 4 ≡ some (0x11223344 % 256 ^ 4)
paddr_read-paddr_write_example =
    paddr_read-paddr_write default_config default-IsSupported zeros stored 0x80000010 4 0x11223344
      (omega arith) (omega arith) (omega arith) accepted

paddr_read-paddr_write_apart_example :
    paddr_read default_config (some stored) 0x80000014 2
    ≡ paddr_read default_config (some zeros) 0x80000014 2
paddr_read-paddr_write_apart_example =
    paddr_read-paddr_write_apart default_config default-IsSupported zeros stored 0x80000010 4
      0x11223344 0x80000014 2 (omega arith) (omega arith) (omega arith) (omega arith) (omega arith)
      (omega arith) (inr (omega arith)) accepted
