-- ===== src/Core/Udp/Datagram.antt =====
-- What the receiver makes of IP packets: the datagrams of those that carry UDP.
use native.Mathlib.Nat.{mod-eq_of_lt}
use liteeth.Prelude.{
  ℕ, zero, suc, Bool, true, false, ◌+◌, ◌-◌, ◌*◌, ◌/◌, ◌%◌, ◌^◌, ◌≤◌, ◌<◌, ◌≡◌, ◌≢◌, ◌==◌, refl,
  arith, ap, ◌∙◌,
}
use liteeth.Prelude.{List, [], ◌∷◌, ◌++◌, length, map, if◌then◌else◌}
use liteeth.Prelude.{Bool-cases, inl, inr}
use liteeth.Stream.{Beat, Cycle, line, willing_count, run}
use liteeth.Stream.Packets.{IsPacket, concat}
use liteeth.Core.Udp.{Incoming, idle, receive, drop, rx_step, rx_length, udp_protocol}
use liteeth.Core.Udp.Trim.{trimmed, cost, idle_rx, trim_complete}

-- An IP packet: its beats after the UDP header, that header's length and the protocol.
pub record Packet : Type 0 where
  pub beats : List Beat
  pub length : ℕ
  pub protocol : ℕ

abbrev pub tagged : ℕ → ℕ → List Beat → List Incoming
tagged len protocol [] = []
tagged len protocol (x ∷ xs) =
    record { beat = x; length = len; protocol = protocol } ∷ tagged len protocol xs

abbrev pub arriving : Packet → List Incoming
arriving p = tagged p.length p.protocol p.beats

-- A beat as it leaves: the receiver has no `last_be` of its own.
abbrev pub sent : Bool → Beat → Beat
sent last x = record { last = last; data_word = x.data_word; last_be = 0; error = x.error }

-- The first `m` beats of a packet, as a packet.
abbrev pub clipped : ℕ → List Beat → List Beat
clipped zero xs = []
clipped (suc m) [] = []
clipped (suc zero) (x ∷ xs) = sent true x ∷ []
clipped (suc (suc m)) (x ∷ xs) = sent false x ∷ clipped (suc m) xs

trimmed-idle :
    (bytes n : ℕ) (ys : List Incoming) → trimmed bytes idle n ys ≡ trimmed bytes idle 0 ys
trimmed-idle bytes n [] = refl
trimmed-idle bytes n (y ∷ ys) = refl

trimmed-drop :
    (bytes n len protocol : ℕ) (p : List Beat) (ys : List Incoming)
    → IsPacket p
    → trimmed bytes drop n (tagged len protocol p ++ ys) ≡ trimmed bytes idle 0 ys
trimmed-drop bytes n len protocol [] ys is = absurd is
trimmed-drop bytes n len protocol (x ∷ []) ys is = rw is (trimmed-idle bytes n ys)
trimmed-drop bytes n len protocol (x ∷ y ∷ p) ys is =
    rw is.0 (trimmed-drop bytes n len protocol (y ∷ p) ys is.1)

trimmed-receive :
    (bytes n m len protocol : ℕ) (p : List Beat) (ys : List Incoming)
    → IsPacket p
    → 0 < bytes
    → 0 < m
    → m ≤ length p
    → n + m * bytes ≡ rx_length len
    → trimmed bytes receive n (tagged len protocol p ++ ys) ≡ clipped m p ++ trimmed bytes idle 0 ys
unfolding rx_length
trimmed-receive bytes n m len protocol [] ys is some pos fits e = absurd is
trimmed-receive bytes n zero len protocol (x ∷ p) ys is some pos fits e = absurd (omega arith)
trimmed-receive bytes n (suc zero) len protocol (x ∷ []) ys is some pos fits e =
    rw is (ap (λ t. sent true x ∷ t) (trimmed-idle bytes _ ys))
trimmed-receive bytes n (suc zero) len protocol (x ∷ y ∷ p) ys is some pos fits e =
    let at_end : (n == ((len + 2 ^ 16 - 8) % 2 ^ 16 + 2 ^ 16 - bytes) % 2 ^ 16) ≡ true =
      ground arith in
    rw (is.0, at_end)
      (ap (λ t. sent true x ∷ t) (trimmed-drop bytes _ len protocol (y ∷ p) ys is.1))
trimmed-receive bytes n (suc (suc m)) len protocol (x ∷ []) ys is some pos fits e =
    absurd (omega arith)
trimmed-receive bytes n (suc (suc m)) len protocol (x ∷ y ∷ p) ys is some pos fits e =
    let split : n + bytes + suc m * bytes ≡ rx_length len = omega arith in
    let less : bytes ≤ suc m * bytes = grind arith in
    let going : (n == ((len + 2 ^ 16 - 8) % 2 ^ 16 + 2 ^ 16 - bytes) % 2 ^ 16) ≡ false =
      ground arith in
    let no_wrap : (n + bytes) % 2 ^ 16 ≡ n + bytes = mod-eq_of_lt (omega arith) in
    rw (is.0, going, no_wrap)
      (ap (λ t. sent false x ∷ t)
        (trimmed-receive bytes (n + bytes) (suc m) len protocol (y ∷ p) ys is.1 some (omega arith)
          (omega arith) split))

-- The datagram that a packet carries, as long as its header says.
abbrev pub datagram : ℕ → Packet → List Beat
datagram bytes p =
    if p.protocol == udp_protocol then clipped (rx_length p.length / bytes) p.beats else []

-- A packet that is at least as long as its header says, in whole beats.
abbrev pub IsWhole : ℕ → Packet → Type 0
IsWhole bytes p =
    IsPacket p.beats
    × (rx_length p.length / bytes * bytes ≡ rx_length p.length)
    × (0 < rx_length p.length / bytes)
    × (rx_length p.length / bytes ≤ length p.beats)

abbrev pub AreWhole : ℕ → List Packet → Type 0
AreWhole bytes [] = Unit
AreWhole bytes (p ∷ ps) = IsWhole bytes p × AreWhole bytes ps

entered-receive :
    (bytes n len protocol : ℕ) (p : List Beat) (ys : List Incoming)
    → IsPacket p
    → (protocol == udp_protocol) ≡ true
    → trimmed bytes idle n (tagged len protocol p ++ ys)
      ≡ trimmed bytes receive 0 (tagged len protocol p ++ ys)
entered-receive bytes n len protocol [] ys is e = absurd is
entered-receive bytes n len protocol (x ∷ p) ys is e = rw e refl

entered-drop :
    (bytes n len protocol : ℕ) (p : List Beat) (ys : List Incoming)
    → IsPacket p
    → (protocol == udp_protocol) ≡ false
    → trimmed bytes idle n (tagged len protocol p ++ ys)
      ≡ trimmed bytes drop 0 (tagged len protocol p ++ ys)
entered-drop bytes n len protocol [] ys is e = absurd is
entered-drop bytes n len protocol (x ∷ p) ys is e = rw e refl

trimmed_packet :
    (bytes : ℕ) (p : Packet) (ys : List Incoming)
    → 0 < bytes
    → IsWhole bytes p
    → trimmed bytes idle 0 (arriving p ++ ys) ≡ datagram bytes p ++ trimmed bytes idle 0 ys
trimmed_packet bytes p ys some whole = elim (Bool-cases (p.protocol == udp_protocol)) [
  | inl e ↦ rw e (
      entered-receive bytes 0 p.length p.protocol p.beats ys whole.0 e
      ∙ trimmed-receive bytes 0 (rx_length p.length / bytes) p.length p.protocol p.beats ys whole.0
          some whole.2 whole.3 (omega (arith, whole.1)))
  | inr e ↦ rw e (
      entered-drop bytes 0 p.length p.protocol p.beats ys whole.0 e
      ∙ trimmed-drop bytes 0 p.length p.protocol p.beats ys whole.0)
]

trimmed_packets :
    (bytes : ℕ) (ps : List Packet)
    → 0 < bytes
    → AreWhole bytes ps
    → trimmed bytes idle 0 (concat (map arriving ps)) ≡ concat (map (datagram bytes) ps)
trimmed_packets bytes [] some are = refl
trimmed_packets bytes (p ∷ ps) some are =
    trimmed_packet bytes p (concat (map arriving ps)) some are.0
    ∙ ap (λ t. datagram bytes p ++ t) (trimmed_packets bytes ps some are.1)

-- Of packets that are at least as long as their UDP header says, in whole beats and one beat at
-- least, the UDP receiver passes on the datagrams of that length of those that carry UDP, each
-- ended by `last`, and nothing of the rest, whatever the stalls, when there are as many willing
-- cycles as beats and packets.
pub run-datagram :
    (bytes : ℕ) (ps : List Packet) (cs : List (Cycle Incoming))
    → 0 < bytes
    → AreWhole bytes ps
    → cost false (concat (map arriving ps)) ≤ willing_count cs
    → run (rx_step bytes) (line idle_rx (concat (map arriving ps))) cs
      ≡ concat (map (datagram bytes) ps)
run-datagram bytes ps cs some are enough =
    trim_complete bytes (concat (map arriving ps)) cs enough ∙ trimmed_packets bytes ps some are

entered-receive_all :
    (bytes n len protocol : ℕ) (p : List Beat)
    → IsPacket p
    → (protocol == udp_protocol) ≡ true
    → trimmed bytes idle n (tagged len protocol p) ≡ trimmed bytes receive 0 (tagged len protocol p)
entered-receive_all bytes n len protocol [] is e = absurd is
entered-receive_all bytes n len protocol (x ∷ p) is e = rw e refl

-- A packet as it is passed on uncut.
abbrev pub uncut : List Beat → List Beat
uncut [] = []
uncut (x ∷ xs) = sent x.last x ∷ uncut xs

trimmed-uncut :
    (n len protocol : ℕ) (p : List Beat)
    → IsPacket p
    → n % 4 ≡ 0
    → rx_length len % 4 ≢ 0
    → trimmed 4 receive n (tagged len protocol p) ≡ uncut p
unfolding rx_length
trimmed-uncut n len protocol [] is four odd = absurd is
trimmed-uncut n len protocol (x ∷ []) is four odd = rw is refl
trimmed-uncut n len protocol (x ∷ y ∷ p) is four odd =
    let going : (n == ((len + 2 ^ 16 - 8) % 2 ^ 16 + 2 ^ 16 - 4) % 2 ^ 16) ≡ false = ground arith in
    rw (is.0, going)
      (ap (λ t. sent false x ∷ t)
        (trimmed-uncut ((n + 4) % 2 ^ 16) len protocol (y ∷ p) is.1 (omega arith) odd))

-- At 32 bits of data, a UDP packet whose length is not a multiple of four bytes is passed on as it
-- arrives, to the last beat of the IP packet, whatever the stalls, when there are enough willing
-- cycles: no beat before it is marked as the datagram's last.
pub run-unaligned :
    (p : Packet) (cs : List (Cycle Incoming))
    → IsPacket p.beats
    → p.protocol ≡ udp_protocol
    → rx_length p.length % 4 ≢ 0
    → cost false (arriving p) ≤ willing_count cs
    → run (rx_step 4) (line idle_rx (arriving p)) cs ≡ uncut p.beats
run-unaligned p cs is udp odd enough =
    trim_complete 4 (arriving p) cs enough
    ∙ entered-receive_all 4 0 p.length p.protocol p.beats is (ground arith)
    ∙ trimmed-uncut 0 p.length p.protocol p.beats is refl odd
