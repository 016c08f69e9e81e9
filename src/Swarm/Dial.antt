-- ===== src/Swarm/Dial.antt =====
-- torrent/torrent.go: the peers that a torrent knows, and the connections that it sets up. A peer is
-- a number that stands for its address; `half_open` are the keys of the map halfOpen.
use charo_torrent.Prelude.{
  ℕ, zero, suc, ◌+◌, ◌<◌, ◌≤◌, ◌≡◌, ◌⊎◌, inl, inr, refl, ap, Bool, true, false, not, ◌&&◌, ◌||◌,
  List, [], ◌∷◌, ◌++◌, Option, none, some, ltb, if◌then◌else◌, length, get_elem?, take, drop, All,
  arith, length-append, length-take, length-drop, get_elem?-lt, Bool-cases,
}
use charo_torrent.Misc.{contains}

pub record Dialer : Type 0 where
  pub peers : List ℕ
  pub half_open : List ℕ
  pub dialed : List ℕ

-- gotPeers, with `banned` for containsInBlackList.
unfoldable pub add_filtered_peers : (ℕ → Bool) → List ℕ → List ℕ → List ℕ
add_filtered_peers keep [] known = known
add_filtered_peers keep (p ∷ ps) known =
    add_filtered_peers keep ps (if keep p then known ++ (p ∷ []) else known)

unfoldable pub got_peers : (ℕ → Bool) → List ℕ → Dialer → Dialer
unfolding add_filtered_peers
got_peers banned ps d = record d { peers = add_filtered_peers (λ p. not (banned p)) ps d.peers }

-- popPeer; `intn n` is rand.Intn(n). An index out of range is a panic.
unfoldable pub pop_peer : (ℕ → ℕ) → List ℕ → Option (ℕ × List ℕ)
pop_peer intn ps =
    let i = intn (length ps) in
    elim (get_elem? ps i) as (λ o. Option (ℕ × List ℕ)) [
      | none ↦ none
      | some p ↦ some (p, take i ps ++ drop (i + 1) ps)
    ]

-- halfOpen[peer] = peer
abbrev pub add_key : ℕ → List ℕ → List ℕ
add_key p ps = if contains ps p then ps else p ∷ ps

-- The rest of the loop's body for the peer that was popped. `active` is peerInActiveConns.
unfoldable pub dial_peer : (ℕ → Bool) → (ℕ → Bool) → ℕ → Dialer → Dialer
unfolding contains
dial_peer active banned p d =
    if active p || banned p
    then d
    else record d { half_open = add_key p d.half_open; dialed = p ∷ d.dialed }

-- Each turn of the loop takes a peer away, so that their number is enough fuel.
unfoldable pub dial_loop : ℕ → (ℕ → ℕ) → (ℕ → Bool) → (ℕ → Bool) → ℕ → Dialer → Option Dialer
unfolding pop_peer dial_peer
dial_loop zero intn active banned max_half_open d = some d
dial_loop (suc f) intn active banned max_half_open d =
    let turn = elim (pop_peer intn d.peers) as (λ o. Option Dialer) [
      | none ↦ none
      | some r ↦
          dial_loop f intn active banned max_half_open
            (dial_peer active banned r.0 (record d { peers = r.1 }))
    ] in
    if ltb 0 (length d.peers) && ltb (length d.half_open) max_half_open then turn else some d

-- dialConns; `wanted` is wantConns.
unfoldable pub dial_conns : Bool → (ℕ → ℕ) → (ℕ → Bool) → (ℕ → Bool) → ℕ → Dialer → Option Dialer
unfolding dial_loop
dial_conns wanted intn active banned max_half_open d =
    if not wanted then some d else dial_loop (length d.peers) intn active banned max_half_open d

-- What dialing leaves: never more half open connections than allowed, nobody dialed who is banned
-- or connected, and no room for one that could still be dialed.
abbrev pub IsDialed : (ℕ → Bool) → (ℕ → Bool) → ℕ → Option Dialer → Type 0
IsDialed active banned max_half_open none = ⊥
IsDialed active banned max_half_open (some d) =
    (length d.half_open ≤ max_half_open)
    × All (λ p. (active p || banned p) ≡ false) d.dialed
    × ((length d.peers ≡ 0) ⊎ (length d.half_open ≡ max_half_open))

module _ (intn : ℕ → ℕ) (in_range : (n : ℕ) → 0 < n → intn n < n) (active banned : ℕ → Bool)
    (max_half_open : ℕ) where
  pop_peer_lem :
      (ps : List ℕ)
      → 0 < length ps
      → (p : ℕ) × (rest : List ℕ) × (pop_peer intn ps ≡ some (p, rest))
        × (length rest + 1 ≡ length ps)
  unfolding pop_peer
  pop_peer_lem ps h =
      let i = intn (length ps) in
      let (p, e) = get_elem?-lt ps i (in_range (length ps) h) in
      (p, take i ps ++ drop (i + 1) ps, rw (pop_peer, e) refl, size i (in_range (length ps) h))
    where
      size : (i : ℕ) → i < length ps → length (take i ps ++ drop (i + 1) ps) + 1 ≡ length ps
      size i less = ground (
        arith,
        length-append (take i ps) (drop (i + 1) ps),
        length-take i ps,
        length-drop (i + 1) ps,
      )

  dial_peer_lem :
      (p : ℕ) (d : Dialer)
      → length d.half_open < max_half_open
      → All (λ p. (active p || banned p) ≡ false) d.dialed
      → let d' = dial_peer active banned p d in
        (length d'.half_open ≤ max_half_open)
        × All (λ p. (active p || banned p) ≡ false) d'.dialed
        × (d'.peers ≡ d.peers)
  unfolding dial_peer
  dial_peer_lem p d room h = elim (Bool-cases (active p || banned p)) [
    | inl e ↦ rw e (omega arith, h, refl)
    | inr e ↦ rw e (ground arith, (e, h), refl)
  ]

  dial_loop_lem :
      (f : ℕ) (d : Dialer)
      → length d.peers ≤ f
      → length d.half_open ≤ max_half_open
      → All (λ p. (active p || banned p) ≡ false) d.dialed
      → IsDialed active banned max_half_open (dial_loop f intn active banned max_half_open d)
  unfolding dial_loop
  dial_loop_lem zero d enough room h = (room, h, inl (omega arith))
  dial_loop_lem (suc f) d enough room h =
      elim (Bool-cases (ltb 0 (length d.peers) && ltb (length d.half_open) max_half_open)) [
        | inl e ↦
            let (p, rest, popped, size) = pop_peer_lem d.peers (ground (arith, e)) in
            let (few, allowed, same) =
              dial_peer_lem p (record d { peers = rest }) (ground (arith, e)) h in
            rw (e, popped)
              (dial_loop_lem f (dial_peer active banned p (record d { peers = rest }))
                (omega (arith, ap length same, size, enough)) few allowed)
        | inr e ↦ rw e (
          room,
          h,
          elim (Bool-cases (ltb 0 (length d.peers))) [
            | inl some_ ↦ inr (ground (arith, e, some_, room))
            | inr none_ ↦ inl (ground (arith, none_))
          ],
        )
      ]

  -- Where connections are wanted, rand.Intn gives numbers below its argument, no more connections are
  -- half open than allowed and nobody was dialed so far, dialConns ends without a panic, leaves no
  -- more connections half open than allowed, dials only peers that are neither connected nor banned,
  -- and stops only when no peer is left or no more connections may be half open.
  pub dial_conns-IsDialed :
      (d : Dialer)
      → length d.half_open ≤ max_half_open
      → d.dialed ≡ []
      → IsDialed active banned max_half_open (dial_conns true intn active banned max_half_open d)
  unfolding dial_conns
  dial_conns-IsDialed d room fresh =
      dial_loop_lem (length d.peers) d (omega arith) room (rw fresh tt)
