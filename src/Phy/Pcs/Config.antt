-- ===== src/Phy/Pcs/Config.antt =====
-- Configuration words through the two paths of liteeth/phy/pcs_1000basex.py.
use liteeth.Prelude.{
  ℕ, Bool, true, false, ◌+◌, ◌*◌, ◌/◌, ◌%◌, ◌≡◌, refl, ap, ◌∙◌, not, if◌then◌else◌,
}
use liteeth.Prelude.{List, [], ◌∷◌, ◌++◌, map, arith}
use liteeth.Machine.{ticks, outs}
use liteeth.Phy.Pcs.{comma, config_1, config_2}
use liteeth.Phy.Pcs.Transmit
use liteeth.Phy.Pcs.Receive
use liteeth.Phy.Pcs.Transmit.{Output, output, tx_step}
use liteeth.Phy.Pcs.Receive.{Rx, rx_next}

-- The four cycles of a word: `config_stb` and `config_reg` count in the first, nothing after it.
pub record Word : Type 0 where
  pub reg : ℕ
  pub first : Transmit.Inputs
  pub second : Transmit.Inputs
  pub third : Transmit.Inputs
  pub fourth : Transmit.Inputs

abbrev pub word_in : Word → List Transmit.Inputs
word_in w =
    record w.first { config_stb = true; config_reg = w.reg }
    ∷ (w.second ∷ (w.third ∷ (w.fourth ∷ [])))

abbrev pub words_in : List Word → List Transmit.Inputs
words_in [] = []
words_in (w ∷ ws) = word_in w ++ words_in ws

abbrev pub word_out : Bool → ℕ → List Output
word_out c_type reg =
    output true true comma
    ∷ (output false false (if c_type then config_2 else config_1)
        ∷ (output false false (reg % 256) ∷ (output false false (reg / 256) ∷ [])))

-- The two kinds of word alternate.
abbrev pub words_out : Bool → List Word → List Output
words_out c_type [] = []
words_out c_type (w ∷ ws) = word_out c_type w.reg ++ words_out (not c_type) ws

-- The words that the receiver reports: `config_reg` while `seen_config_reg` is high.
abbrev pub reported : Rx → List ℕ
reported s = if s.seen_config_reg then s.config_reg ∷ [] else []

abbrev pub report_step : Rx → Receive.Inputs → Rx × List ℕ
report_step s i = (rx_next s i, reported s)

abbrev pub rx_at : Receive.State → ℕ → ℕ → Bool → ℕ → Rx
rx_at s lsb reg seen timer = record {
  fsm = s;
  lsb = lsb;
  config_reg = reg;
  seen_config_reg = seen;
  timer = timer;
}

words_sent :
    (ws : List Word) (p c : Bool) (b t : ℕ)
    → outs tx_step (Transmit.at Transmit.start p c b t) (words_in ws) ≡ words_out c ws
unfolding tx_step ticks outs
words_sent [] p c b t = refl
words_sent (w ∷ ws) p c b t =
    let n = ticks tx_step (Transmit.at Transmit.start p c b t) (word_in w) in
    ap (λ r. word_out c w.reg ++ r) (words_sent ws n.parity (not c) w.reg n.timer)

abbrev pub heard : ℕ → Output → Receive.Inputs
heard speed o = record { decoder = o.symbol; sgmii_speed = speed }

-- What is reported over a schedule, with the word that the last cycle has loaded.
abbrev pub reports : Rx → List Receive.Inputs → List ℕ
reports s is = outs report_step s is ++ reported (ticks report_step s is)

whole : (reg : ℕ) → reg % 256 + 256 * (reg / 256) ≡ reg
whole reg = omega arith

-- The receiver takes the four symbols of a word, of either kind.
word_heard :
    (word : ℕ) (more : List Output) (c : Bool) (speed lsb reg t : ℕ) (seen : Bool)
    → (t' : ℕ) × (reports
          (rx_at Receive.start lsb reg seen t)
          (map (heard speed) (word_out c word ++ more))
        ≡ (if seen then reg ∷ [] else [])
          ++ reports
              (rx_at Receive.start (word % 256) (word % 256 + 256 * (word / 256)) true t')
              (map (heard speed) more))
unfolding rx_next ticks outs
word_heard word more true speed lsb reg t true = (_, refl)
word_heard word more true speed lsb reg t false = (_, refl)
word_heard word more false speed lsb reg t true = (_, refl)
word_heard word more false speed lsb reg t false = (_, refl)

words_heard :
    (ws : List Word) (c : Bool) (speed lsb reg t : ℕ) (seen : Bool)
    → reports (rx_at Receive.start lsb reg seen t) (map (heard speed) (words_out c ws))
      ≡ (if seen then reg ∷ [] else []) ++ map (λ w. w.reg) ws
unfolding ticks outs
words_heard [] c speed lsb reg t true = refl
words_heard [] c speed lsb reg t false = refl
words_heard (w ∷ ws) c speed lsb reg t seen =
    let step = word_heard w.reg (words_out (not c) ws) c speed lsb reg t seen in
    let rest =
      words_heard ws (not c) speed (w.reg % 256) (w.reg % 256 + 256 * (w.reg / 256)) step.0 true in
    step.1
    ∙ ap (λ r. (if seen then reg ∷ [] else []) ++ r)
        (rest ∙ ap (λ v. v ∷ map (λ x. x.reg) ws) (whole w.reg))

-- From START on both sides, the receiver reports exactly the configuration words that the
-- transmitter is given at the first cycle of each four, in order, whatever the other inputs are.
pub reports-tx_step :
    (ws : List Word) (p c : Bool) (buffer t speed lsb reg t' : ℕ)
    → reports
        (rx_at Receive.start lsb reg false t')
        (map (heard speed) (outs tx_step (Transmit.at Transmit.start p c buffer t) (words_in ws)))
      ≡ map (λ w. w.reg) ws
reports-tx_step ws p c buffer t speed lsb reg t' =
    rw (words_sent ws p c buffer t) (words_heard ws c speed lsb reg t' false)
