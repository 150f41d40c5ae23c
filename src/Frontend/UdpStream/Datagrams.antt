-- ===== src/Frontend/UdpStream/Datagrams.antt =====
-- The datagrams of LiteEthStream2UDPTX in liteeth/frontend/stream.py.
use mathlib.Core.List.{append_assoc, append-nil}
use native.Mathlib.Nat.{mod-eq_of_lt}
use liteeth.Prelude.{ℕ, Bool, true, false, suc, ◌+◌, ◌%◌, ◌^◌, ◌≤◌, ◌<◌, ◌≡◌, refl, ap, sym, ◌∙◌}
use liteeth.Prelude.{◌==◌, leb, if◌then◌else◌, arith, ==_iff}
use liteeth.Prelude.{List, [], ◌∷◌, ◌++◌, length, length-append}
use liteeth.Stream.Packets.{concat}
use liteeth.Frontend.UdpStream.{State, idle, send, UserBeat, Config, send_beat}

module _ (g : Config) where
  -- The beats of bytes of a datagram of `level` bytes, from the one at `counter` on.
  abbrev pub beats : ℕ → ℕ → List ℕ → List UserBeat
  beats level counter [] = []
  beats level counter (x ∷ xs) = send_beat g level counter x ∷ beats level (counter + 1) xs

  abbrev pub datagrams : List (List ℕ) → List UserBeat
  datagrams [] = []
  datagrams (d ∷ ds) = beats (length d) 0 d ++ datagrams ds

  abbrev pub Sized : List (List ℕ) → Type 0
  Sized [] = Unit
  Sized (d ∷ ds) = (g.send_level ≤ length d) × (length d ≤ g.fifo_depth) × Sized ds

  pub beats-append :
      (level counter : ℕ) (xs ys : List ℕ)
      → beats level counter (xs ++ ys)
        ≡ beats level counter xs ++ beats level (counter + length xs) ys
  beats-append level counter [] ys =
      let same : counter ≡ counter + 0 = omega arith in ap (λ c. beats level c ys) same
  beats-append level counter (x ∷ xs) ys =
      let same : counter + 1 + length xs ≡ counter + suc (length xs) = omega arith in
      ap (λ t. send_beat g level counter x ∷ t)
        (beats-append level (counter + 1) xs ys
          ∙ ap (λ c. beats level (counter + 1) xs ++ beats level c ys) same)

  datagrams-append : (ds es : List (List ℕ)) → datagrams (ds ++ es) ≡ datagrams ds ++ datagrams es
  datagrams-append [] es = refl
  datagrams-append (d ∷ ds) es =
      rw append_assoc (ap (λ t. beats (length d) 0 d ++ t) (datagrams-append ds es))

  Sized-append : (ds es : List (List ℕ)) → Sized ds → Sized es → Sized (ds ++ es)
  Sized-append [] es h k = k
  Sized-append (d ∷ ds) es h k = (h.0, h.1, Sized-append ds es h.2 k)

concat-append : (ds es : List (List ℕ)) → concat (ds ++ es) ≡ concat ds ++ concat es
concat-append [] es = refl
concat-append (d ∷ ds) es = rw append_assoc (ap (λ t. d ++ t) (concat-append ds es))

kept_longer :
    {acc : List ℕ} (q t : List ℕ) (ds : List (List ℕ)) (part : List ℕ)
    → acc ≡ concat ds ++ (part ++ q)
    → acc ++ t ≡ concat ds ++ (part ++ (q ++ t))
kept_longer q t ds part e =
    ap (λ a. a ++ t) e
    ∙ append_assoc (concat ds) (part ++ q) t
    ∙ ap (λ a. concat ds ++ a) (append_assoc part q t)

kept_sent :
    {acc : List ℕ} (x : ℕ) (q t : List ℕ) (ds : List (List ℕ)) (part : List ℕ)
    → acc ≡ concat ds ++ (part ++ (x ∷ q))
    → acc ++ t ≡ concat ds ++ ((part ++ (x ∷ [])) ++ (q ++ t))
kept_sent x q t ds part e =
    kept_longer (x ∷ q) t ds part e
    ∙ ap (λ a. concat ds ++ a) (sym (append_assoc part (x ∷ []) (q ++ t)))

concat_whole :
    (ds : List (List ℕ)) (d q : List ℕ) → concat ds ++ (d ++ q) ≡ concat (ds ++ (d ∷ [])) ++ q
concat_whole ds d q =
    sym (append_assoc (concat ds) d q)
    ∙ ap (λ a. a ++ q)
        (ap (λ a. concat ds ++ a) (sym (append-nil d)) ∙ sym (concat-append ds (d ∷ [])))

module _ (g : Config) where
  pub parts_sent :
      {sent : List UserBeat} (level counter x : ℕ) (ds : List (List ℕ)) (part : List ℕ)
      → length part ≡ counter
      → sent ≡ datagrams g ds ++ beats g level 0 part
      → sent ++ (send_beat g level counter x ∷ [])
        ≡ datagrams g ds ++ beats g level 0 (part ++ (x ∷ []))
  parts_sent level counter x ds part l e =
      let at_counter : counter ≡ 0 + length part = omega (arith, l) in
      ap (λ a. a ++ (send_beat g level counter x ∷ [])) e
      ∙ append_assoc (datagrams g ds) (beats g level 0 part) (send_beat g level counter x ∷ [])
      ∙ ap (λ a. datagrams g ds ++ a)
          (ap (λ c. beats g level 0 part ++ beats g level c (x ∷ [])) at_counter
            ∙ sym (beats-append g level 0 part (x ∷ [])))

  datagrams_whole :
      (ds : List (List ℕ)) (d : List ℕ)
      → datagrams g ds ++ beats g (length d) 0 d ≡ datagrams g (ds ++ (d ∷ []))
  datagrams_whole ds d =
      ap (λ a. datagrams g ds ++ a) (sym (append-nil (beats g (length d) 0 d)))
      ∙ sym (datagrams-append g ds (d ∷ []))

module _ (g : Config) where
  abbrev pub Midway : State → ℕ → ℕ → List ℕ → ℕ → Type 0
  Midway idle level counter part queue = part ≡ []
  Midway send level counter part queue =
      (length part ≡ counter)
      × (counter < level)
      × (level ≤ counter + queue)
      × (g.send_level ≤ level)
      × (level ≤ g.fifo_depth)

  -- What was accepted is what was sent, in whole datagrams and a part of one, and the queue.
  pub record Sending (acc : List ℕ) (sent : List UserBeat) (s : State) (level counter : ℕ)
      (q : List ℕ) : Type 0 where
    pub whole : List (List ℕ)
    pub part : List ℕ
    pub sized : Sized g whole
    pub parts : sent ≡ datagrams g whole ++ beats g level 0 part
    pub kept : acc ≡ concat whole ++ (part ++ q)
    pub midway : Midway s level counter part (length q)
    pub fits : length q ≤ g.fifo_depth

  module _ {acc : List ℕ} {sent : List UserBeat} {level counter : ℕ} {q : List ℕ} (t : List ℕ)
      (wide : g.fifo_depth < 2 ^ g.width) (some_level : 0 < g.send_level) where
    pub idle_step :
        (n : ℕ) (b : Bool)
        → n ≡ length q
        → leb g.send_level n ≡ b
        → length (q ++ t) ≤ g.fifo_depth
        → Sending acc sent idle level counter q
        → Sending
            (acc ++ t)
            (sent ++ [])
            (if b then send else idle)
            (if b then n % 2 ^ g.width else level)
            (if b then 0 else counter)
            (q ++ t)
    idle_step n true e l f h = record {
      whole = h.whole;
      part = [];
      sized = h.sized;
      parts =
          append-nil sent ∙ h.parts ∙ ap (λ p. datagrams g h.whole ++ beats g level 0 p) h.midway;
      kept = kept_longer q t h.whole [] (h.kept ∙ ap (λ p. concat h.whole ++ (p ++ q)) h.midway);
      midway =
          let small : n % 2 ^ g.width ≡ n = mod-eq_of_lt (omega (arith, h.fits, wide)) in
          let more : length (q ++ t) ≡ length q + length t = length-append q t in
          let enough : g.send_level ≤ n = ground arith in
          (refl, omega arith, omega arith, omega arith, omega (arith, h.fits));
      fits = f;
    }
    idle_step n false e l f h = record {
      whole = h.whole;
      part = h.part;
      sized = h.sized;
      parts = append-nil sent ∙ h.parts;
      kept = kept_longer q t h.whole h.part h.kept;
      midway = h.midway;
      fits = f;
    }

    pub wait_step :
        length (q ++ t) ≤ g.fifo_depth
        → Sending acc sent send level counter q
        → Sending (acc ++ t) (sent ++ []) send level counter (q ++ t)
    wait_step f h = record {
      whole = h.whole;
      part = h.part;
      sized = h.sized;
      parts = append-nil sent ∙ h.parts;
      kept = kept_longer q t h.whole h.part h.kept;
      midway =
          let more : length (q ++ t) ≡ length q + length t = length-append q t in
          (h.midway.0, h.midway.1, omega (arith, h.midway.2), h.midway.3, h.midway.4);
      fits = f;
    }

  module _ {acc : List ℕ} {sent : List UserBeat} {level counter : ℕ} {x : ℕ} {q : List ℕ}
      (t : List ℕ) (wide : g.fifo_depth < 2 ^ g.width) where
    pub send_step :
        (b : Bool)
        → (counter + 1 == level) ≡ b
        → length (q ++ t) ≤ g.fifo_depth
        → Sending acc sent send level counter (x ∷ q)
        → Sending
            (acc ++ t)
            (sent ++ (send_beat g level counter x ∷ []))
            (if b then idle else send)
            level
            ((counter + 1) % 2 ^ g.width)
            (q ++ t)
    send_step true l f h =
        let d : List ℕ = h.part ++ (x ∷ []) in
        let full : length d ≡ level =
          omega
            (arith, (==_iff (counter + 1) level).0 l, h.midway.0, length-append h.part (x ∷ [])) in
        record {
          whole = h.whole ++ (d ∷ []);
          part = [];
          sized =
              Sized-append g h.whole (d ∷ []) h.sized
                (omega (arith, h.midway.3), omega (arith, h.midway.4), tt);
          parts =
              parts_sent g level counter x h.whole h.part h.midway.0 h.parts
              ∙ ap (λ n. datagrams g h.whole ++ beats g n 0 d) (sym full)
              ∙ datagrams_whole g h.whole d
              ∙ sym (append-nil _);
          kept = kept_sent x q t h.whole h.part h.kept ∙ concat_whole h.whole d (q ++ t);
          midway = refl;
          fits = f;
        }
    send_step false l f h = record {
      whole = h.whole;
      part = h.part ++ (x ∷ []);
      sized = h.sized;
      parts = parts_sent g level counter x h.whole h.part h.midway.0 h.parts;
      kept = kept_sent x q t h.whole h.part h.kept;
      midway =
          let small : (counter + 1) % 2 ^ g.width ≡ counter + 1 =
            mod-eq_of_lt (omega (arith, h.midway.1, h.midway.4)) in
          let more : length (q ++ t) ≡ length q + length t = length-append q t in
          let longer = length-append h.part (x ∷ []) in
          let go_on : counter + 1 < level = ground arith in
          (
            omega (arith, h.midway.0),
            omega (arith, go_on),
            omega (arith, h.midway.2),
            h.midway.3,
            h.midway.4,
          );
      fits = f;
    }
