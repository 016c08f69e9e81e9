-- ===== src/Conn/Told.antt =====
-- What reports tell of a peer's state.
use charo_torrent.Prelude.{
  ◌≡◌, inl, inr, refl, Bool, true, false, List, [], ◌∷◌, Option, none, some, if◌then◌else◌, Outcome,
  ok, err, panic, ◌>>=◌, Bool-cases,
}
use charo_torrent.Piece.{Block}
use charo_torrent.Pieces.{Pieces}
use charo_torrent.Wire.Message.{choke, unchoke, interested, not_interested}
use charo_torrent.ConnInfo.{ConnState}
use charo_torrent.Conn.{Conn}
use charo_torrent.Conn.Session.{
  Report, passed_on, uploaded_block, Ended, Session, same_bool, uploads, change_interested,
  change_choking, discarded,
}

module _ {B : Type 0} where
  -- The latest report of the peer's interest, and of its choking.
  abbrev pub told_interested : List (Report B) → Bool
  told_interested [] = false
  told_interested (passed_on interested ∷ sent) = true
  told_interested (passed_on not_interested ∷ sent) = false
  told_interested (_ ∷ sent) = told_interested sent

  abbrev pub told_choking : List (Report B) → Bool
  told_choking [] = true
  told_choking (passed_on choke ∷ sent) = true
  told_choking (passed_on unchoke ∷ sent) = false
  told_choking (_ ∷ sent) = told_choking sent

  abbrev pub IsTold : ConnState → List (Report B) → Type 0
  IsTold cs sent = (told_interested sent ≡ cs.is_interested) × (told_choking sent ≡ cs.is_choking)

  -- What holds of the session that is left, if one is left.
  abbrev pub IsToldAfter : Outcome Ended (Session B) → Type 0
  IsToldAfter (ok s) = IsTold s.state s.to_torrent
  IsToldAfter (err e) = Unit {0}
  IsToldAfter panic = Unit {0}

  pub change_interested-IsTold :
      (v : Bool) (s : Session B)
      → IsTold s.state s.to_torrent
      → IsToldAfter (ok (change_interested (if v then interested else not_interested) v s))
  unfolding change_interested
  change_interested-IsTold v s h = elim (Bool-cases (same_bool s.state.is_interested v)) [
    | inl e ↦ rw e h
    | inr e ↦
        rw e
          (elim v
            as (λ v.
              IsTold (record s.state { is_interested = v })
                (passed_on (if v then interested else not_interested) ∷ s.to_torrent)) [
                  | true ↦ (refl, h.1)
                  | false ↦ (refl, h.1)
                ])
  ]

  pub change_choking-IsTold :
      (v : Bool) (s : Session B)
      → IsTold s.state s.to_torrent
      → IsToldAfter (ok (change_choking (if v then choke else unchoke) v s))
  unfolding change_choking
  change_choking-IsTold v s h = elim (Bool-cases (same_bool s.state.is_choking v)) [
    | inl e ↦ rw e h
    | inr e ↦
        rw e
          (elim v
            as (λ v.
              IsTold (record s.state { is_choking = v })
                (passed_on (if v then choke else unchoke) ∷ s.to_torrent)) [
                  | true ↦ (h.0, refl)
                  | false ↦ (h.0, refl)
                ])
  ]

  pub uploads-IsTold :
      (reads : Block → Bool) (bs : List Block) (cs : ConnState) (sent : List (Report B))
      → IsTold cs sent
      → IsTold cs (uploads reads bs sent)
  uploads-IsTold reads [] cs sent h = h
  uploads-IsTold reads (b ∷ bs) cs sent h = elim (Bool-cases (reads b)) [
    | inl e ↦ rw e (uploads-IsTold reads bs cs (uploaded_block b ∷ sent) h)
    | inr e ↦ rw e (uploads-IsTold reads bs cs sent h)
  ]

  pub IsToldAfter-bind :
      (r : Outcome Ended (Session B)) (k : Session B → Outcome Ended (Session B))
      → IsToldAfter r
      → ((s : Session B) → IsTold s.state s.to_torrent → IsToldAfter (k s))
      → IsToldAfter (r >>= k)
  IsToldAfter-bind (ok s) k h next = next s h
  IsToldAfter-bind (err e) k h next = tt
  IsToldAfter-bind panic k h next = tt

  pub choice :
      (b : Bool) (x y : Outcome Ended (Session B))
      → IsToldAfter x
      → IsToldAfter y
      → IsToldAfter (if b then x else y)
  choice true x y h h' = h
  choice false x y h h' = h'

  pub discarded-IsTold :
      (o : Option (Conn B × Pieces B)) (s : Session B)
      → IsTold s.state s.to_torrent
      → IsToldAfter (discarded o s)
  discarded-IsTold none s h = tt
  discarded-IsTold (some r) s h = h
