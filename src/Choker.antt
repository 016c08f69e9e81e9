-- ===== src/Choker.antt =====
-- torrent/choker.go: which peers a review unchokes. A connection is a number, and `Conns` is the
-- store of what the numbers point to. The random choices and the sort by rates are arguments;
-- rates are quotients of floating point numbers and are not modelled.
pub mod Totals
pub mod Slots
pub mod Ranking
pub mod Bound
use charo_torrent.Prelude.{
  ℕ, zero, suc, ◌+◌, ◌-◌, ◌*◌, ◌/◌, ◌%◌, ◌^◌, ◌<◌, ◌≤◌, ◌≡◌, ◌≢◌, ◌↔◌, ◌⊎◌, inl, inr, refl, sym, ap,
  ◌∙◌, Bool, true, false, not, ◌&&◌, ◌||◌, List, [], ◌∷◌, ◌++◌, map, Option, none, some, ltb, leb,
  ◌==◌, if◌then◌else◌, length, get_elem?, set, take, drop, replicate, All, Outcome, ok, err, panic,
  ◌>>=◌, arith, length-append, length-set, length-replicate, length-take, length-drop, take_all,
  take-append, drop-append, get_elem?-lt, get_elem?-ge, get_elem?-set, All-take, All-append,
  All-imp, length-map, get_elem?-set_self, get_elem?-set_ne, ltb→lt, leb→le, ==→eq, ==_refl,
  Bool-cases, Option-cases,
}
use charo_torrent.Bitmap.{Bitmap}
use charo_torrent.ConnInfo.{
  ConnInfo, View, ConnStats, is_snubbed, peer_seeding, conn_choke, conn_unchoke,
}

pub record Choker : Type 0 where
  pub curr_round : ℕ
  pub optimistic : Option ℕ
  pub enable_optimistic : Bool
  pub max_upload_slots : ℕ

unfoldable pub new_choker : Choker
new_choker = record {
  curr_round = 0;
  optimistic = none;
  enable_optimistic = true;
  max_upload_slots = 4;
}

-- Where a connection stands in a review.
pub data Rank : Type 0 where
  seeding candidate best : Rank

abbrev pub Ranks : Type 0
Ranks = List ℕ × List ℕ

-- Beside the best peers and the candidates that come later in the list.
abbrev pub add_rank : Rank → ℕ → Ranks → Ranks
add_rank seeding i r = r
add_rank candidate i r = (r.0, i ∷ r.1)
add_rank best i r = (i ∷ r.0, r.1)

abbrev pub is_optimistic : Option ℕ → ℕ → Bool
is_optimistic none i = false
is_optimistic (some o) i = o == i

abbrev pub Conns : Type 0 → Type 0
Conns B = ℕ → ConnInfo B

module _ {B : Type 0} ⦃bm : Bitmap B⦄ where
  abbrev pub on_conn : Conns B → ℕ → (ConnInfo B → ConnInfo B) → Conns B
  on_conn cns i f = λ j. if i == j then f (cns i) else cns j

  -- pickOptimisticUnchoke, the loop from position `at` on among `total` connections: the last
  -- three are put in three times.
  unfoldable pub optimistic_candidates : ℕ → Conns B → ℕ → List ℕ → List ℕ
  optimistic_candidates total cns at [] = []
  optimistic_candidates total cns at (i ∷ is) =
      let rest = optimistic_candidates total cns (at + 1) is in
      if (cns i).state.am_choking && (cns i).state.is_interested
      then (if leb total (at + 3) then i ∷ i ∷ i ∷ rest else i ∷ rest)
      else rest

  -- `intn n` is rand.Intn(n), below n.
  unfoldable pub pick_optimistic_unchoke : (ℕ → ℕ) → Conns B → List ℕ → Option ℕ
  unfolding optimistic_candidates
  pick_optimistic_unchoke intn cns ids =
      let found = optimistic_candidates (length ids) cns 0 ids in
      get_elem? found (intn (length found))

  -- connInfo.isSnubbed, which also notes what it found.
  unfoldable pub conn_is_snubbed : ℕ → View B → ConnInfo B → ConnInfo B × Bool
  unfolding is_snubbed
  conn_is_snubbed minute t cn =
      if t.have_all
      then (cn, false)
      else (let stats = is_snubbed minute t.now cn.stats in
          (record cn { stats = stats }, stats.snubbed))

  -- The cases of the loop that looks for the best peers.
  unfoldable pub rank_conn : ℕ → View B → ConnInfo B → ConnInfo B × Rank
  unfolding peer_seeding conn_choke conn_is_snubbed
  rank_conn minute t cn =
      if peer_seeding t cn
      then (conn_choke t cn, seeding)
      else (let r = conn_is_snubbed minute t cn in
          (r.0, if r.1 || not cn.state.is_interested then candidate else best))

  unfoldable pub rank_conns : ℕ → View B → List ℕ → Conns B → Conns B × Ranks
  unfolding rank_conn
  rank_conns minute t [] cns = (cns, ([], []))
  rank_conns minute t (i ∷ is) cns =
      let r = rank_conn minute t (cns i) in
      let rest = rank_conns minute t is (on_conn cns i (λ cn. r.0)) in
      (rest.0, add_rank r.1 i rest.1)

  -- One of the best peers: the slots that are left then.
  unfoldable pub unchoke_best : View B → Option ℕ → ℕ → ℕ → Conns B → Conns B × ℕ
  unfolding conn_unchoke
  unchoke_best t opt i left cns =
      if is_optimistic opt i then (cns, left) else (on_conn cns i (conn_unchoke t), left - 1)

  -- The loop over at most `slots` of the best peers, and those that it did not come to.
  unfoldable pub unchoke_bests : View B → Option ℕ → ℕ → List ℕ → ℕ → Conns B → Conns B × ℕ
  unfolding unchoke_best
  unchoke_bests t opt zero is left cns = (cns, left)
  unchoke_bests t opt (suc slots) [] left cns = (cns, left)
  unchoke_bests t opt (suc slots) (i ∷ is) left cns =
      let r = unchoke_best t opt i left cns in unchoke_bests t opt slots is r.1 r.0

  -- One of the candidates.
  unfoldable pub review_candidate : View B → Option ℕ → ℕ → ℕ → Conns B → Conns B × ℕ
  unfolding conn_choke conn_unchoke
  review_candidate t opt i left cns =
      if is_optimistic opt i
      then (cns, left)
      else if left == 0
      then (on_conn cns i (conn_choke t), left)
      else (let cns' = on_conn cns i (conn_unchoke t) in
          (cns', if (cns' i).state.is_interested then left - 1 else left))

  unfoldable pub review_candidates : View B → Option ℕ → List ℕ → ℕ → Conns B → Conns B
  unfolding review_candidate
  review_candidates t opt [] left cns = cns
  review_candidates t opt (i ∷ is) left cns =
      let r = review_candidate t opt i left cns in review_candidates t opt is r.1 r.0

  -- c.optimistic.unchoke(), if there is one.
  abbrev pub unchoke_optimistic : View B → Option ℕ → Conns B → Conns B
  unchoke_optimistic t none cns = cns
  unchoke_optimistic t (some o) cns = on_conn cns o (conn_unchoke t)

  -- The review once the optimistic peer is chosen. `by_rate` is sort.Sort, `perm` takes the
  -- elements in the order of rand.Perm.
  unfoldable pub review_with :
      ℕ
      → View B
      → (Conns B → List ℕ → List ℕ)
      → (List ℕ → List ℕ)
      → Option ℕ
      → ℕ
      → List ℕ
      → Conns B
      → Conns B
  unfolding rank_conns unchoke_bests review_candidates
  review_with minute t by_rate perm opt slots ids cns =
      let ranked = rank_conns minute t ids (unchoke_optimistic t opt cns) in
      let bests = by_rate ranked.0 ranked.1.0 in
      let r = unchoke_bests t opt slots bests slots ranked.0 in
      review_candidates t opt (perm (ranked.1.1 ++ drop slots bests)) r.1 r.0

  unfoldable pub review_unchoked_peers :
      ℕ
      → View B
      → (ℕ → ℕ)
      → (Conns B → List ℕ → List ℕ)
      → (List ℕ → List ℕ)
      → List ℕ
      → Choker × Conns B
      → Choker × Conns B
  unfolding pick_optimistic_unchoke review_with
  review_unchoked_peers minute t intn by_rate perm ids (c, cns) =
      let c' = record c { curr_round = c.curr_round + 1 } in
      let opt =
        if c.enable_optimistic && c.curr_round % 5 == 0
        then pick_optimistic_unchoke intn cns ids
        else c.optimistic in
      if length ids == 0 then (c', cns) else (
        record c' { optimistic = opt },
        review_with minute t by_rate perm opt c.max_upload_slots ids cns,
      )
