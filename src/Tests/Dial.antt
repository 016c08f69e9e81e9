-- ===== src/Tests/Dial.antt =====
-- Dialing at inputs of its own.
use charo_torrent.Prelude.{◌-◌, ◌≡◌, refl, true, [], ◌∷◌, some, ◌==◌, arith}
use charo_torrent.Swarm.Dial.{Dialer, dial_conns, IsDialed, dial_conns-IsDialed}

abbrev dialer : Dialer
dialer = record { peers = 5 ∷ 6 ∷ 7 ∷ []; half_open = 9 ∷ []; dialed = [] }

dial_conns-IsDialed_example :
    IsDialed
      (λ p. p == 6)
      (λ p. p == 8)
      3
      (dial_conns true (λ n. n - 1) (λ p. p == 6) (λ p. p == 8) 3 dialer)
dial_conns-IsDialed_example =
    dial_conns-IsDialed (λ n. n - 1) (λ n h. omega arith) (λ p. p == 6) (λ p. p == 8) 3 dialer
      (omega arith) refl

-- The connected peer is passed over.
dialing :
    dial_conns true (λ n. n - 1) (λ p. p == 6) (λ p. p == 8) 3 dialer
    ≡ some (record { peers = []; half_open = 5 ∷ 7 ∷ 9 ∷ []; dialed = 5 ∷ 7 ∷ [] })
unfolding dial_conns
dialing = refl
