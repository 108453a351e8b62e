-- ===== src/TcpServer/Connections.antt =====
-- One connection after the other: `main` of example_modbus_tcp.c.
use regtable.Prelude.{ℕ, ◌<◌, ◌≡◌, ◌∙◌, ap, refl, false}
use regtable.Prelude.{Option, some, List, [], ◌∷◌, ◌++◌, length, replicate, ◌>>=◌}
use regtable.Core.Types.{Device}
use regtable.Core.Dirty.{dirty_words}
use regtable.Modbus.Map.{RegModbus}
use regtable.TcpServer.{Socket}
use regtable.TcpServer.Stream.{IsStream}
use regtable.TcpServer.Serve.{AllAdus, joined, answers, serve-Answered}
use regtable.TcpServer.Demo.{Layout, registry, serve_all, main, main_lem}

-- The replies to the ADUs of each connection.
pub answers_all : RegModbus → List (List (List ℕ)) → Device → Option (List (List ℕ) × Device)
answers_all mb [] d = some ([], d)
answers_all mb (a ∷ as') d = do
  (replies, d') ← answers mb a d
  (rest, d'') ← answers_all mb as' d'
  some (replies ∷ rest, d'')

-- The slave that `main` sets up.
abbrev pub demo : Layout → (Device → ℕ) → RegModbus
demo l elapsed = record {
  table = record { base = l.registry; entries = registry l elapsed; count = 4 };
  addr = 1;
  word_swap = false;
}

module _ {ℓ} {S : Type ℓ} (sock : Socket S) (coming sent : S → List ℕ)
    (ok : IsStream sock coming sent) where
  -- Each connection is a stream of ADUs, fewer than `fuel`.
  abbrev pub AllStreams : ℕ → List S → List (List (List ℕ)) → Type 0
  AllStreams fuel [] [] = Unit
  AllStreams fuel (s ∷ ss) (a ∷ as') =
      (length a < fuel) × AllAdus a × (coming s ≡ joined a) × AllStreams fuel ss as'
  AllStreams fuel _ _ = ⊥

  -- What was sent on each connection.
  abbrev pub AllSent : List S → List S → List (List ℕ) → Type 0
  AllSent [] [] [] = Unit
  AllSent (s ∷ ss) (s' ∷ ss') (r ∷ rs) = (sent s' ≡ sent s ++ r) × AllSent ss ss' rs
  AllSent _ _ _ = ⊥

  pub record AllAnswered (mb : RegModbus) (ss : List S) (adus : List (List (List ℕ))) (d : Device)
      (o : Option (List S × Device)) : Type ℓ where
    pub result : List S × Device
    pub replies : List (List ℕ)
    pub answered : answers_all mb adus d ≡ some (replies, result.1)
    pub ended : o ≡ some result
    pub out : AllSent ss result.0 replies

  serve_all-AllAnswered :
      (mb : RegModbus) (fuel : ℕ) (ss : List S) (adus : List (List (List ℕ))) (d : Device)
      → AllStreams fuel ss adus
      → AllAnswered mb ss adus d (serve_all sock mb fuel ss d)
  unfolding serve_all answers_all
  serve_all-AllAnswered mb fuel [] [] d h = record {
    result = ([], d);
    replies = [];
    answered = refl;
    ended = refl;
    out = tt;
  }
  serve_all-AllAnswered mb fuel (s ∷ ss) (a ∷ adus) d h =
      let first = serve-Answered sock coming sent ok mb fuel a s d h.0 h.1 h.2 in
      let (s', d') = first.result in
      let rest = serve_all-AllAnswered mb fuel ss adus d' h.3 in
      record {
        result = (s' ∷ rest.result.0, rest.result.1);
        replies = first.replies ∷ rest.replies;
        answered =
            ap (λ x. x >>= (λ y. answers_all mb adus y.1 >>= (λ z. some (y.0 ∷ z.0, z.1))))
              first.answered
            ∙ ap (λ x. x >>= (λ z. some (first.replies ∷ z.0, z.1))) rest.answered;
        ended =
            ap (λ x. x >>= (λ y. serve_all sock mb fuel ss y.1 >>= (λ z. some (y.0 ∷ z.0, z.1))))
              first.ended
            ∙ ap (λ x. x >>= (λ z. some (s' ∷ z.0, z.1))) rest.ended;
        out = (first.out, rest.out);
      }
  serve_all-AllAnswered mb fuel _ _ d h = absurd h

  -- Wherever the variables lie, and whatever results of the set-up are passed over: `main` answers
  -- every ADU on each of the connections that it accepts, in order, from the four registers and a
  -- cleared bitmap, where each connection is a stream of fewer than `fuel` ADUs and ends.
  pub main-AllAnswered :
      (l : Layout) (elapsed : Device → ℕ) (mb : RegModbus) (fuel : ℕ) (ss : List S)
      (adus : List (List (List ℕ))) (d : Device)
      → AllStreams fuel ss adus
      → let cleared = record d { dirty = replicate dirty_words 0 } in
        AllAnswered (demo l elapsed) ss adus cleared (main sock l elapsed mb fuel ss d)
  main-AllAnswered l elapsed mb fuel ss adus d h =
      let cleared = record d { dirty = replicate dirty_words 0 } in
      let all = serve_all-AllAnswered (demo l elapsed) fuel ss adus cleared h in
      record {
        result = all.result;
        replies = all.replies;
        answered = all.answered;
        ended = main_lem sock l elapsed mb fuel ss d ∙ all.ended;
        out = all.out;
      }
