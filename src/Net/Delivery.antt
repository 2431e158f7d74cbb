-- ===== src/Net/Delivery.antt =====
-- What net/udp.c sends is received.
use asm_os.Net.{Net}
