-- ===== src/Swarm/Dispatch/Counted.antt =====
-- numWant stays exact through what a torrent does with the messages of its connections.
use charo_torrent.Prelude.{
  ℕ, ◌≡◌, inl, inr, refl, sym, ap, ◌∙◌, Bool, true, false, List, [], ◌∷◌, some, ◌==◌, if◌then◌else◌,
  get_elem?, set, arith, ==→eq, Bool-cases, Option-cases,
}
use mathlib.Core.Path.{subst}
use charo_torrent.Misc.{contains}
use charo_torrent.Bitmap.{Bitmap}
use charo_torrent.Piece.{verification_success, verification_failed, set_block_complete}
use charo_torrent.Pieces.{
  Pieces, Signals, piece_hashed, block_completed, maybe_start_endgame, complete_at,
}
use charo_torrent.Storage.Blocks.{IsNodup}
use charo_torrent.ConnInfo.{ConnInfo}
use charo_torrent.Choker.{on_conn}
use charo_torrent.Swarm.Dispatch.{Torrent, for_conns, after_block}
use charo_torrent.Swarm.Dispatch.Wants.{IsTuned, SameWants, unmoved}

module _ {B : Type 0} ⦃bm : Bitmap B⦄ where
  pub on_conn_at :
      (info : ℕ → ConnInfo B) (c j : ℕ) (f : ConnInfo B → ConnInfo B) (P : ConnInfo B → Type 0)
      → ((j ≡ c) → P (f (info c)))
      → P (info j)
      → P (on_conn info c f j)
  on_conn_at info c j f P here other = elim (Bool-cases (c == j)) [
    | inl e ↦ rw e (here (sym (==→eq c j e)))
    | inr e ↦ rw e other
  ]

  pub for_conns_at :
      (cs : List ℕ) (f : ConnInfo B → ConnInfo B) (info : ℕ → ConnInfo B) (c : ℕ)
      → IsNodup cs
      → for_conns cs f info c ≡ (if contains cs c then f (info c) else info c)
  unfolding for_conns contains
  for_conns_at [] f info c h = refl
  for_conns_at (x ∷ cs) f info c (new, h) =
      let ih = for_conns_at cs f (on_conn info x f) c h in
      elim (Bool-cases (x == c)) [
        | inl e ↦
            let same = ==→eq x c e in
            let gone : contains cs c ≡ false = subst (λ y. contains cs y ≡ false) same new in
            rw (for_conns, ih, gone, e) (ap (λ y. f (info y)) same)
        | inr e ↦ rw (for_conns, ih, e) refl
      ]

  abbrev pub AreTuned : Torrent B → Type 0
  AreTuned t =
      (c : ℕ) → contains t.conns c ≡ true → IsTuned t.pieces.owned_pieces t.num_pieces (t.info c)

  abbrev pub KeepsWants : Torrent B → Torrent B → Type 0
  KeepsWants t t' =
      (t'.conns ≡ t.conns)
      × (t'.num_pieces ≡ t.num_pieces)
      × (t'.pieces.owned_pieces ≡ t.pieces.owned_pieces)
      × ((c : ℕ) → SameWants (t'.info c) (t.info c))

  pub kept_tuned : (t t' : Torrent B) → KeepsWants t t' → AreTuned t → AreTuned t'
  kept_tuned t t' (conns, n, owned, same) h c l =
      let l2 : contains t.conns c ≡ true = subst (λ cs. contains cs c ≡ true) conns l in
      subst (λ o. IsTuned o t'.num_pieces (t'.info c)) (sym owned)
        (subst (λ m. IsTuned t.pieces.owned_pieces m (t'.info c)) (sym n)
          (unmoved t.pieces.owned_pieces t.num_pieces (t'.info c) (t.info c) (same c) (h c l2)))

  endgame_owned : (ps : Pieces B) → (maybe_start_endgame ps).0.owned_pieces ≡ ps.owned_pieces
  unfolding maybe_start_endgame
  endgame_owned ps = ground arith

  pub block_completed_owned :
      (ps ps' : Pieces B) (i off c : ℕ) (s : Signals)
      → block_completed ps i off c ≡ some (ps', s)
      → ps'.owned_pieces ≡ ps.owned_pieces
  unfolding block_completed complete_at
  block_completed_owned ps ps' i off c s e = elim (Option-cases (get_elem? ps.pcs i)) [
    | inl gone ↦ absurd (ground arith)
    | inr (p, at) ↦
        let ps1 : Pieces B = record ps { pcs = set ps.pcs i (set_block_complete p c off) } in
        let same : (maybe_start_endgame ps1).0 ≡ ps' = ground arith in
        ap (λ q. q.owned_pieces) (sym same) ∙ endgame_owned ps1
  ]

  pub after_block-KeepsWants :
      (i : ℕ) (s : Signals) (t t' : Torrent B) → after_block i s t ≡ some t' → KeepsWants t t'
  unfolding after_block
  after_block-KeepsWants i s t t' e =
      let conns : t'.conns ≡ t.conns = ground arith in
      let n : t'.num_pieces ≡ t.num_pieces = ground arith in
      let owned : t'.pieces.owned_pieces ≡ t.pieces.owned_pieces = ground arith in
      let info : t'.info ≡ t.info = ground arith in
      (conns, n, owned, λ c. let at : t'.info c ≡ t.info c = cc in (cc, cc, cc))

  pub piece_hashed_owned :
      (ps ps' : Pieces B) (i : ℕ) (correct : Bool) (cs : List ℕ)
      → piece_hashed ps i correct ≡ some (ps', cs)
      → ps'.owned_pieces ≡ (if correct then bm.put ps.owned_pieces i true else ps.owned_pieces)
  unfolding piece_hashed
  piece_hashed_owned ps ps' i correct cs e = elim (Option-cases (get_elem? ps.pcs i)) [
    | inl gone ↦ absurd (ground arith)
    | inr (p, at) ↦ elim (Bool-cases correct) [
      | inl right ↦ elim (Option-cases (verification_success p)) [
        | inl gone ↦ absurd (ground arith)
        | inr (p', v) ↦ ground arith
      ]
      | inr wrong ↦ elim (Option-cases (verification_failed p)) [
        | inl gone ↦ absurd (ground arith)
        | inr (p', v) ↦ ground arith
      ]
    ]
  ]
