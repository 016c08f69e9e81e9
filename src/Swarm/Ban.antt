-- ===== src/Swarm/Ban.antt =====
-- torrent/torrent.go and client.go: whom a torrent bans after a piece that was not right. An address
-- is a number.
use charo_torrent.Prelude.{
  ℕ, ◌+◌, ◌^◌, ◌≤◌, ◌≡◌, ◌⊎◌, inl, inr, refl, sym, ap, ◌∙◌, Bool, true, false, not, ◌||◌, List, [],
  ◌∷◌, ◌++◌, Option, none, some, ltb, ◌==◌, if◌then◌else◌, All, arith, ltb→lt, Bool-cases,
}
use mathlib.Core.Path.{subst}

-- A connection as the ban sees it: `bad` and `good` count the pieces that it took part in, and
-- `gone` is whether its goroutine has ended.
pub record Suspect : Type 0 where
  pub ip : ℕ
  pub bad : ℕ
  pub good : ℕ
  pub gone : Bool
  pub told_to_drop : Bool

-- `m > max` for the differences of bad and good pieces, both as pairs.
abbrev pub worse : ℕ × ℕ → ℕ × ℕ → Bool
worse m max = ltb (max.0 + m.1) (m.0 + max.1)

abbrev pub malliciousness : Suspect → ℕ × ℕ
malliciousness c = (c.bad, c.good)

-- The loop of banPeer, from the maximum and the choice so far.
unfoldable pub find_worst : List Suspect → ℕ × ℕ → Option Suspect → Option Suspect
find_worst [] max to_ban = to_ban
find_worst (c ∷ cs) max to_ban =
    let skip = find_worst cs max to_ban in
    let take_it = find_worst cs (malliciousness c) (some c) in
    if worse (malliciousness c) max then take_it else skip

-- math.MinInt32
abbrev pub min_int32 : ℕ × ℕ
min_int32 = (0, 2 ^ 31)

abbrev pub tell_drop : Suspect → Suspect
tell_drop c = if c.gone then c else record c { told_to_drop = true }

-- The loop of banIP. A connection that is gone is told nothing: sendMsgToConn takes it out of the connections then,
-- and the loop passes over the next one, which is in Swarm/Broadcast and not here.
unfoldable pub drop_ip : ℕ → List Suspect → List Suspect
drop_ip ip [] = []
drop_ip ip (c ∷ cs) = (if c.ip == ip then tell_drop c else c) ∷ drop_ip ip cs

-- Torrent.banIP, with the client's black list; `exempt` is whether the address is the own one or
-- 127.0.0.1.
unfoldable pub ban_ip : (ℕ → Bool) → ℕ → List Suspect × List ℕ → List Suspect × List ℕ
unfolding drop_ip
ban_ip exempt ip (cs, black) =
    if exempt ip then (cs, black) else (drop_ip ip cs, black ++ (ip ∷ []))

unfoldable pub ban_peer : (ℕ → Bool) → List Suspect × List ℕ → List Suspect × List ℕ
unfolding find_worst ban_ip
ban_peer exempt (cs, black) = elim (find_worst cs min_int32 none) as (λ o. List Suspect × List ℕ) [
  | none ↦ (cs, black)
  | some c ↦ ban_ip exempt c.ip (cs, black)
]

-- `m` is at most `n`.
abbrev pub IsAtMost : ℕ × ℕ → ℕ × ℕ → Type 0
IsAtMost m n = m.0 + n.1 ≤ n.0 + m.1

abbrev of_option : Option Suspect → ℕ × ℕ
of_option none = min_int32
of_option (some c) = malliciousness c

find_worst_lem :
    (cs : List Suspect) (max : ℕ × ℕ) (before : Option Suspect)
    → (before ≡ none) ⊎ (of_option before ≡ max)
    → (w : Suspect) → find_worst cs max before ≡ some w
    → IsAtMost max (malliciousness w) × All (λ c. IsAtMost (malliciousness c) (malliciousness w)) cs
unfolding find_worst
find_worst_lem [] max before (inl n) w e = absurd (ground (arith, sym n ∙ e))
find_worst_lem [] max before (inr m) w e =
    let same = sym m ∙ ap of_option e in (omega (arith, ap (λ p. p.0) same, ap (λ p. p.1) same), tt)
find_worst_lem (c ∷ cs) max before from w e = elim (Bool-cases (worse (malliciousness c) max)) [
  | inl more ↦
      let (above, all) =
        find_worst_lem cs (malliciousness c) (some c) (inr refl) w (rw more at e) in
      (omega (arith, ltb→lt (max.0 + c.good) (c.bad + max.1) more, above), (above, all))
  | inr less ↦
      let (above, all) = find_worst_lem cs max before from w (rw less at e) in
      (above, (ground (arith, less, above), all))
]

-- Whoever has the address is told to drop.
abbrev pub IsDropped : ℕ → Suspect → Type 0
IsDropped ip c = (not (c.ip == ip) || c.told_to_drop) ≡ true

drop_ip-IsDropped :
    (ip : ℕ) (cs : List Suspect) → All (λ c. c.gone ≡ false) cs → All (IsDropped ip) (drop_ip ip cs)
unfolding drop_ip
drop_ip-IsDropped ip [] here = tt
drop_ip-IsDropped ip (c ∷ cs) (stays, here) = (head, drop_ip-IsDropped ip cs here)
  where
    head : IsDropped ip (if c.ip == ip then tell_drop c else c)
    head = elim (Bool-cases (c.ip == ip)) [ inl e ↦ ground arith | inr e ↦ ground arith ]

-- If a piece was not right and banPeer finds a connection to ban whose address is not exempt, while no connection's goroutine has
-- ended, then no connection has a higher difference of bad and good pieces, the address is on the black list
-- afterwards, what was on it stays, and every connection with the address is told to drop.
pub ban_peer_lem :
    (exempt : ℕ → Bool) (cs : List Suspect) (black : List ℕ) (w : Suspect)
    → find_worst cs min_int32 none ≡ some w
    → exempt w.ip ≡ false
    → All (λ c. c.gone ≡ false) cs
    → All (λ c. IsAtMost (malliciousness c) (malliciousness w)) cs
      × ((ban_peer exempt (cs, black)).1 ≡ black ++ (w.ip ∷ []))
      × All (IsDropped w.ip) (ban_peer exempt (cs, black)).0
unfolding ban_peer
ban_peer_lem exempt cs black w e free here =
    let result : ban_peer exempt (cs, black) ≡ (drop_ip w.ip cs, black ++ (w.ip ∷ [])) =
      rw (ban_peer, e, ban_ip, free) refl in
    (
      (find_worst_lem cs min_int32 none (inl refl) w e).1,
      ap (λ r. r.1) result,
      subst (λ r. All (IsDropped w.ip) r.0) (sym result) (drop_ip-IsDropped w.ip cs here),
    )
