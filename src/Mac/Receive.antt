-- ===== src/Mac/Receive.antt =====
-- The receiving side of liteeth/mac/core.py at 8 bits: the preamble checker and the CRC checker.
pub mod Stream
pub mod AnyFifo
pub mod Queue
pub mod Body
pub mod Frame
pub mod Packets
pub mod Good
pub mod Buffered
use liteeth.Prelude.{ℕ}
use liteeth.Stream.{Beat, Step}
use liteeth.Stream.Buffer.{Buffer}
use liteeth.Stream.Fifo.{Fifo}
use liteeth.Stream.Compose.{compose}
use liteeth.Mac.Preamble.{CheckerState, check_step}
use liteeth.Mac.Crc.Checker as Checker
use liteeth.Mac.Crc.Checker.{CrcChecker}

-- The two checkers, one on the other.
abbrev pub chained_step : (k : Fifo Beat) → Step (CheckerState × CrcChecker k.Carrier) Beat Beat
chained_step k = compose check_step (Checker.check_step 8 k)

-- `self.rx_pipeline` up to the CRC checker, with the buffer that `BufferizeEndpoints` puts at its
-- sink.
abbrev pub receive_step :
    (b : Buffer Beat) (k : Fifo Beat)
    → Step (CheckerState × (b.Carrier × CrcChecker k.Carrier)) Beat Beat
receive_step b k = compose check_step (compose b.clock (Checker.check_step 8 k))
