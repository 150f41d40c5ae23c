-- ===== src/Tests/Core/Ip.antt =====
-- The IP layer on concrete headers.
use liteeth.Prelude.{
  true, false, ◌+◌, ◌&&◌, ◌==◌, ◌%◌, ◌<◌, ◌≡◌, ◌↔◌, refl, arith, [], ◌∷◌, replicate, if◌then◌else◌,
}
use liteeth.Stream.{run, run_end}
use liteeth.Core.Gate.{receive, drop}
use liteeth.Core.Ip.Checksum.{done, value, last_stage, ticks, summed_words, swap16}
use liteeth.Core.Ip.Checksum.Sum.{AllWords, sum, canonical}
use liteeth.Core.Ip.Checksum.Settle.{start, words}
use liteeth.Core.Ip.Checksum.Accept.{
  Others, others, with_checksum, tx_checksum, rx_checksum, rx-tx-checksum, rx_checksum_iff,
  settled_sum,
}
use liteeth.Core.Ip.Rx.{Header, rx_step}
use liteeth.Core.Ip.Rx.Decide as Decide
use liteeth.Tests.Data.{beat, schedule}

-- A datagram of 28 bytes from 192.168.1.50 to 192.168.1.100.
abbrev header : Others
header = record {
  w0 = 0x4500;
  w1 = 0x001c;
  w2 = 0;
  w3 = 0;
  w4 = 0x8011;
  w6 = 0xc0a8;
  w7 = 0x0132;
  w8 = 0xc0a8;
  w9 = 0x0164;
}

in_words : AllWords (words true (with_checksum header 0))
unfolding summed_words
in_words = (
  omega arith,
  (
    omega arith,
    (
      omega arith,
      (omega arith, (omega arith, (omega arith, (omega arith, (omega arith, (omega arith, tt)))))),
    ),
  ),
)

settled_sum_example :
    let c = ticks true 9 (with_checksum header 0) (start (replicate 9 0)) in
    (done true c ≡ true)
    × (last_stage 0 c.stages ≡ canonical (sum (words true (with_checksum header 0))))
unfolding summed_words
settled_sum_example = settled_sum true (with_checksum header 0) 9 (replicate 9 0) in_words refl refl

rx-tx-checksum_example :
    let tx = tx_checksum (replicate 9 7) (with_checksum header 0xbeef) in
    let rx = rx_checksum (replicate 10 9) (with_checksum header (swap16 (value tx))) in
    (done true tx ≡ true) × (done false rx ≡ true) × (value rx ≡ 0)
rx-tx-checksum_example =
    rx-tx-checksum header 0xbeef (replicate 9 7) (replicate 10 9) (omega arith) refl refl

rx_checksum_iff_example :
    (value (rx_checksum (replicate 10 9) (with_checksum header 0x1234)) ≡ 0)
    ↔ (((sum (others header) + 0x1234) % 65535 ≡ 0) × (0 < sum (others header) + 0x1234))
rx_checksum_iff_example =
    rx_checksum_iff header 0x1234 (replicate 10 9) (omega arith) (omega arith) refl

abbrev ip_header : Header
ip_header = record {
  version = 4;
  ihl = 5;
  total_length = 28;
  sender_ip = 0xc0a80132;
  target_ip = 0xc0a80164;
  words = with_checksum header 0x3701;
}

decides-rx_step_example :
    let step = rx_step 0xc0a80164 ip_header in
    let at =
      Decide.at 0xc0a80164 ip_header (beat false 8) (beat true 9 ∷ []) (start (replicate 10 3)) in
    (run step at (schedule 4) ≡ [])
    × ((run_end step at (schedule 4)).left ≡ beat false 8 ∷ beat true 9 ∷ [])
    × ((run_end step at (schedule 4)).regs.fsm ≡ (
        if ip_header.target_ip == 0xc0a80164
          && ip_header.version == 4
          && ip_header.ihl == 5
          && value (rx_checksum (replicate 10 3) ip_header.words) == 0
        then receive
        else drop))
decides-rx_step_example =
    Decide.decides-rx_step 0xc0a80164 ip_header (beat false 8) (beat true 9 ∷ []) (replicate 10 3)
      (schedule 4) refl refl refl
