-- ===== src/Stream/Fifo.antt =====
-- `stream.SyncFIFO` of LiteX as the cores see it: an interface, its laws, and an instance.
use liteeth.Prelude.{ℕ, Bool, ◌&&◌, ◌≡◌, refl, ap, ltb, if◌then◌else◌}
use liteeth.Prelude.{List, [], ◌∷◌, ◌++◌, length}

-- `clock reset valid beat ready`: a clock edge at these inputs of the sink and of the source.
pub record Fifo (A : Type 0) : Type 1 where
  pub Carrier : Type 0
  pub level : Carrier → ℕ
  pub payload : Carrier → A
  pub clock : Bool → Bool → A → Bool → Carrier → Carrier

abbrev pub popped : {A : Type 0} → Bool → List A → List A
popped ready [] = []
popped ready (x ∷ xs) = if ready then xs else x ∷ xs

abbrev pub first : {A : Type 0} → A → List A → A
first default [] = default
first default (x ∷ xs) = x

-- What the queue holds after an edge: a beat enters where there is room.
abbrev pub queued : {A : Type 0} → ℕ → Bool → Bool → A → Bool → List A → List A
queued depth reset valid x ready xs =
    if reset
    then []
    else if valid && ltb (length xs) depth
    then popped ready xs ++ (x ∷ [])
    else popped ready xs

-- The payload is the oldest beat when there is one.
pub record FifoLaws {A : Type 0} (depth : ℕ) (k : Fifo A) : Type 0 where
  pub contents : k.Carrier → List A
  pub level-contents : (c : k.Carrier) → k.level c ≡ length (contents c)
  pub payload-contents :
      (c : k.Carrier) (x : A) (xs : List A) → contents c ≡ x ∷ xs → k.payload c ≡ x
  pub contents-clock :
      (c : k.Carrier) (reset valid : Bool) (x : A) (ready : Bool)
      → contents (k.clock reset valid x ready c) ≡ queued depth reset valid x ready (contents c)

abbrev pub list_fifo : {A : Type 0} → ℕ → A → Fifo A
list_fifo {A} depth default = record {
  Carrier = List A;
  level = length;
  payload = first default;
  clock = queued depth;
}

-- The queue itself is one.
abbrev pub list_fifo_laws :
    {A : Type 0} (depth : ℕ) (default : A) → FifoLaws depth (list_fifo depth default)
list_fifo_laws depth default = record {
  contents = λ c. c;
  level-contents = λ c. refl;
  payload-contents = λ c x xs e. ap (first default) e;
  contents-clock = λ c reset valid x ready. refl;
}
