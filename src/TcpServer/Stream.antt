-- ===== src/TcpServer/Stream.antt =====
-- A socket as a stream of bytes: what `read_exact` and `send_all` do with it.
use regtable.Prelude.{ℕ, zero, suc, ◌-◌, ◌≤◌, ◌≡◌, ◌∙◌, sym, ap, refl, arith}
use regtable.Prelude.{Bool, true, ◌==◌, Option, none, some, List, [], ◌∷◌, ◌++◌, length, take, drop}
use regtable.Prelude.{length-append, take-append-drop, length-drop}
use regtable.Prelude.{if_cases}
use std.Path.{subst}
use mathlib.Core.List.{append-nil, append_assoc}
use regtable.TcpServer.{Socket, got_part, send_all, read_exact}

-- A connected stream socket: `coming` are the bytes that the peer has still to be heard of, before
-- it closes its end, and `sent` those that were sent to it. A call moves one byte at least.
pub record IsStream {ℓ} {S : Type ℓ} (sock : Socket S) (coming sent : S → List ℕ) : Type ℓ where
  pub recv_some :
      (n : ℕ) (s : S)
      → 1 ≤ n
      → 1 ≤ length (coming s)
      → let (bytes, s') = sock.recv n s in
        (1 ≤ length bytes) × (length bytes ≤ n) × (coming s ≡ bytes ++ coming s')
  pub recv_end : (n : ℕ) (s : S) → coming s ≡ [] → (sock.recv n s).0 ≡ []
  pub recv_sent : (n : ℕ) (s : S) → sent (sock.recv n s).1 ≡ sent s
  pub send_some :
      (bytes : List ℕ) (s : S)
      → 1 ≤ length bytes
      → let (r, s') = sock.send bytes s in
        (1 ≤ r) × (r ≤ length bytes) × (sent s' ≡ sent s ++ take r bytes) × (coming s' ≡ coming s)

split_front :
    (b v a r : List ℕ)
    → b ++ v ≡ a ++ r
    → length b ≤ length a
    → (a' : List ℕ) × (a ≡ b ++ a') × (v ≡ a' ++ r)
split_front [] v a r e h = (a, refl, e)
split_front (x ∷ b) v [] r e h = absurd (omega arith)
split_front (x ∷ b) v (y ∷ a) r e h =
    let (a', e1, e2) = split_front b v a r (cc e) (omega arith) in
    let same : x ≡ y = cc e in (a', (λ i. sym same i ∷ e1 i), e2)

module _ {ℓ} {S : Type ℓ} (sock : Socket S) (coming sent : S → List ℕ)
    (ok : IsStream sock coming sent) where
  pub record HasRead (s : S) (bytes rest : List ℕ) (o : Option (List ℕ) × S) : Type ℓ where
    pub got : o.0 ≡ some bytes
    pub left : coming o.1 ≡ rest
    pub still : sent o.1 ≡ sent s

  got_part-HasRead :
      (s s' : S) (part bytes rest : List ℕ) (o : Option (List ℕ) × S)
      → sent s' ≡ sent s
      → HasRead s' bytes rest o
      → HasRead s (part ++ bytes) rest (got_part part o)
  got_part-HasRead s s' part bytes rest (none, s'') e r = absurd (cc r.got)
  got_part-HasRead s s' part bytes rest (some x, s'') e r = record {
    got = let same : x ≡ bytes = cc r.got in λ i. some (part ++ same i);
    left = r.left;
    still = r.still ∙ e;
  }

  pub read_exact-HasRead :
      (fuel : ℕ) (bytes rest : List ℕ) (s : S)
      → length bytes ≤ fuel
      → coming s ≡ bytes ++ rest
      → HasRead s bytes rest (read_exact sock fuel (length bytes) s)
  unfolding read_exact
  read_exact-HasRead fuel [] rest s h e = record { got = refl; left = e; still = refl }
  read_exact-HasRead zero (b ∷ bytes) rest s h e = absurd (omega arith)
  read_exact-HasRead (suc fuel) (b ∷ bytes) rest s h e =
      let n = suc (length bytes) in
      let (part, s') = sock.recv n s in
      let (some_byte, most, front) =
        ok.recv_some n s (omega arith)
          (omega (arith, ap length e, length-append (b ∷ bytes) rest)) in
      let (bytes', e1, e2) = split_front part (coming s') (b ∷ bytes) rest (sym front ∙ e) most in
      let len = ap length e1 ∙ length-append part bytes' in
      let left : length bytes' ≡ n - length part = omega (arith, len) in
      let rec = read_exact-HasRead fuel bytes' rest s' (omega (arith, len, some_byte, h)) e2 in
      let all = got_part-HasRead s s' part bytes' rest _ (ok.recv_sent n s) rec in
      if_cases (HasRead s (b ∷ bytes) rest) (length part == 0) _ _ (λ none'. absurd (ground arith))
        (λ more.
          subst (λ w. HasRead s w rest (got_part part (read_exact sock fuel (n - length part) s')))
            (sym e1)
            (subst
              (λ m. HasRead s (part ++ bytes') rest (got_part part (read_exact sock fuel m s')))
              left all))

  pub record HasSent (s : S) (bytes : List ℕ) (o : Bool × S) : Type ℓ where
    pub done_all : o.0 ≡ true
    pub all : sent o.1 ≡ sent s ++ bytes
    pub still : coming o.1 ≡ coming s

  pub send_all-HasSent :
      (fuel : ℕ) (bytes : List ℕ) (s : S)
      → length bytes ≤ fuel
      → HasSent s bytes (send_all sock fuel bytes s)
  unfolding send_all
  send_all-HasSent fuel [] s h = record {
    done_all = refl;
    all = sym (append-nil (sent s));
    still = refl;
  }
  send_all-HasSent zero (b ∷ bytes) s h = absurd (omega arith)
  send_all-HasSent (suc fuel) (b ∷ bytes) s h =
      let (r, s') = sock.send (b ∷ bytes) s in
      let (some_byte, most, out, same) = ok.send_some (b ∷ bytes) s (omega arith) in
      let rec =
        send_all-HasSent fuel (drop r (b ∷ bytes)) s'
          (omega (arith, length-drop r (b ∷ bytes), some_byte, h)) in
      if_cases (HasSent s (b ∷ bytes)) (r == 0) _ _ (λ none'. absurd (ground arith))
        (λ more. record {
          done_all = rec.done_all;
          all =
              rec.all
              ∙ ap (λ t. t ++ drop r (b ∷ bytes)) out
              ∙ append_assoc (sent s) (take r (b ∷ bytes)) (drop r (b ∷ bytes))
              ∙ ap (λ t. sent s ++ t) (take-append-drop r (b ∷ bytes));
          still = rec.still ∙ same;
        })

  pub nothing-HasSent : (bytes : List ℕ) (s : S) → length bytes ≡ 0 → HasSent s bytes (true, s)
  nothing-HasSent [] s h = record { done_all = refl; all = sym (append-nil (sent s)); still = refl }
  nothing-HasSent (b ∷ bytes) s h = absurd (omega (arith, h))

  pub read_exact_end :
      (fuel n : ℕ) (s : S)
      → coming s ≡ []
      → read_exact sock (suc fuel) (suc n) s ≡ (none, (sock.recv (suc n) s).1)
  unfolding read_exact
  read_exact_end fuel n s e =
      let (part, s') = sock.recv (suc n) s in
      let none_got : length part ≡ 0 = ap length (ok.recv_end (suc n) s e) in
      if_cases (λ (o : Option (List ℕ) × S). o ≡ (none, s')) (length part == 0) _ _ (λ e. refl)
        (λ more. absurd (ground arith))
