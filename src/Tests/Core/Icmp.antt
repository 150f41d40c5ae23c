-- ===== src/Tests/Core/Icmp.antt =====
-- ICMP and UDP on concrete messages.
use liteeth.Prelude.{ℕ, true, false, ◌≡◌, refl, arith, List, [], ◌∷◌, map}
use liteeth.Stream.{Cycle, line, run, willing_count}
use liteeth.Stream.Packets.{concat}
use liteeth.Core.Icmp as Icmp
use liteeth.Core.Icmp.Echo.{message, IsValid, echo-IsValid}
use liteeth.Core.Udp.{Incoming, rx_step, rx_length}
use liteeth.Core.Udp.Trim.{idle_rx}
use liteeth.Core.Udp.Datagram.{Packet, arriving, datagram, uncut, run-datagram, run-unaligned}
use liteeth.Tests.Data.{beat, stalling}

echo-IsValid_example :
    IsValid (message Icmp.echo_msgtype 0 (Icmp.echo_checksum 0xf7fc) (1 ∷ 2 ∷ []))
echo-IsValid_example = echo-IsValid 0 0xf7fc (1 ∷ 2 ∷ []) (omega arith) (refl, omega arith)

-- Two bytes of payload and one of padding.
abbrev padded : Packet
padded = record {
  beats = beat false 1 ∷ beat false 2 ∷ beat true 0 ∷ [];
  length = 10;
  protocol = 0x11;
}

abbrev tcp : Packet
tcp = record { beats = beat true 1 ∷ []; length = 9; protocol = 6 }

abbrev incoming : ℕ → List (Cycle Incoming)
incoming = stalling (record { beat = beat false 0; length = 0; protocol = 0 })

run-datagram_example :
    run (rx_step 1) (line idle_rx (concat (map arriving (padded ∷ tcp ∷ [])))) (incoming 6)
    ≡ concat (map (datagram 1) (padded ∷ tcp ∷ []))
unfolding willing_count rx_length
run-datagram_example =
    run-datagram 1 (padded ∷ tcp ∷ []) (incoming 6) (omega arith)
      (
        ((refl, (refl, refl)), refl, omega arith, omega arith),
        ((refl, refl, omega arith, omega arith), tt),
      )
      (omega arith)

run-unaligned_example :
    run (rx_step 4) (line idle_rx (arriving padded)) (incoming 4) ≡ uncut padded.beats
unfolding willing_count rx_length
run-unaligned_example =
    run-unaligned padded (incoming 4) (refl, (refl, refl)) refl (omega arith) (omega arith)
