-- ===== src/Choker/Slots.antt =====
-- How many peers a review leaves unchoked.
use charo_torrent.Prelude.{
  ℕ, zero, suc, ◌+◌, ◌-◌, ◌<◌, ◌≤◌, ◌≡◌, inl, inr, refl, sym, ap, ◌∙◌, Bool, true, false, List, [],
  ◌∷◌, Option, none, some, ltb, ◌==◌, if◌then◌else◌, take, arith, ==_refl, Bool-cases,
}
use mathlib.Core.Path.{subst}
use charo_torrent.Bitmap.{Bitmap}
use charo_torrent.Misc.{bool_to_int}
use charo_torrent.ConnInfo.{ConnInfo, View, can_upload, conn_choke, conn_unchoke}
use charo_torrent.Choker.{
  Conns, is_optimistic, on_conn, unchoke_best, unchoke_bests, review_candidate, review_candidates,
}
use charo_torrent.Choker.Totals.{total, is_at, AreListedOnce}

-- 1 at the optimistic peer only.
abbrev pub opt_at : Option ℕ → ℕ → ℕ
opt_at opt i = bool_to_int (is_optimistic opt i)

bool_to_int_le : (b : Bool) → bool_to_int b ≤ 1
unfolding bool_to_int
bool_to_int_le b = ground arith

total-opt_at : (s : List ℕ) → total (opt_at none) s ≡ 0
unfolding bool_to_int
total-opt_at [] = refl
total-opt_at (i ∷ s) = omega (arith, total-opt_at s)

pub opt_once : (opt : Option ℕ) (s : List ℕ) → AreListedOnce s → total (opt_at opt) s ≤ 1
opt_once none s d = omega (arith, total-opt_at s)
opt_once (some o) s d = d o

pub is_at_self : (i : ℕ) → is_at i i ≡ 1
unfolding bool_to_int
is_at_self i = ap bool_to_int (==_refl i)

pub AreListedOnce-tail : (i : ℕ) (is : List ℕ) → AreListedOnce (i ∷ is) → AreListedOnce is
AreListedOnce-tail i is d j = omega (arith, d j)

module _ {B : Type 0} ⦃bm : Bitmap B⦄ where
  -- 1 at the connections that data may be sent to: unchoked, and interested.
  abbrev pub open_at : Conns B → ℕ → ℕ
  open_at cns i = bool_to_int (can_upload (cns i).state)

  pub can_upload-conn_choke :
      (t : View B) (cn : ConnInfo B) → can_upload (conn_choke t cn).state ≡ false
  unfolding can_upload conn_choke
  can_upload-conn_choke t cn = ground arith

  can_upload-not_interested :
      (t : View B) (cn : ConnInfo B)
      → (conn_unchoke t cn).state.is_interested ≡ false
      → can_upload (conn_unchoke t cn).state ≡ false
  unfolding can_upload
  can_upload-not_interested t cn e = ground (arith, e)

  pub on_conn-other :
      (cns : Conns B) (i j : ℕ) (f : ConnInfo B → ConnInfo B)
      → is_at j i ≡ 0
      → on_conn cns i f j ≡ cns j
  unfolding bool_to_int
  on_conn-other cns i j f e = let other : (i == j) ≡ false = ground (arith, e) in rw other refl

  pub on_conn-same :
      (cns : Conns B) (i : ℕ) (f : ConnInfo B → ConnInfo B) → on_conn cns i f i ≡ f (cns i)
  on_conn-same cns i f = rw (==_refl i) refl

  review_candidate-other :
      (t : View B) (opt : Option ℕ) (i left j : ℕ) (cns : Conns B)
      → is_at j i ≡ 0
      → (review_candidate t opt i left cns).0 j ≡ cns j
  unfolding review_candidate
  review_candidate-other t opt i left j cns e = elim (Bool-cases (is_optimistic opt i)) [
    | inl o ↦ rw o refl
    | inr o ↦ elim (Bool-cases (left == 0)) [
      | inl z ↦ rw (o, z) (on_conn-other cns i j (conn_choke t) e)
      | inr z ↦ rw (o, z) (on_conn-other cns i j (conn_unchoke t) e)
    ]
  ]

  pub review_candidates-others :
      (t : View B) (opt : Option ℕ) (is : List ℕ) (left j : ℕ) (cns : Conns B)
      → total (is_at j) is ≡ 0
      → review_candidates t opt is left cns j ≡ cns j
  unfolding review_candidates
  review_candidates-others t opt [] left j cns e = refl
  review_candidates-others t opt (i ∷ is) left j cns e =
      let r = review_candidate t opt i left cns in
      review_candidates-others t opt is r.1 j r.0 (omega (arith, e))
      ∙ review_candidate-other t opt i left j cns (omega (arith, e))

  pub open_at_le : (cns : Conns B) (i : ℕ) → open_at cns i ≤ 1
  open_at_le cns i = bool_to_int_le (can_upload (cns i).state)

  pub open_at-conn_choke :
      (t : View B) (cns : Conns B) (i : ℕ) → open_at (on_conn cns i (conn_choke t)) i ≡ 0
  unfolding bool_to_int
  open_at-conn_choke t cns i =
      ap (λ cn. bool_to_int (can_upload cn.state)) (on_conn-same cns i (conn_choke t))
      ∙ ap bool_to_int (can_upload-conn_choke t (cns i))

  -- The slot that an unchoked connection takes.
  taken :
      (cns : Conns B) (i left : ℕ)
      → ltb 0 left ≡ true
      → open_at cns i + (if (cns i).state.is_interested then left - 1 else left) ≤ left
  unfolding can_upload bool_to_int
  taken cns i left e = ground (arith, e)

  -- Who becomes open takes a slot, except for the optimistic peer.
  abbrev TakesSlot : Option ℕ → ℕ → ℕ → Conns B × ℕ → Type 0
  TakesSlot opt i left r = open_at r.0 i + r.1 ≤ left + opt_at opt i

  spared :
      (opt : Option ℕ) (i left : ℕ) (cns : Conns B)
      → is_optimistic opt i ≡ true
      → TakesSlot opt i left (cns, left)
  unfolding bool_to_int
  spared opt i left cns o =
      let one : opt_at opt i ≡ 1 = rw o refl in omega (arith, one, open_at_le cns i)

  review_candidate-TakesSlot :
      (t : View B) (opt : Option ℕ) (i left : ℕ) (cns : Conns B)
      → TakesSlot opt i left (review_candidate t opt i left cns)
  unfolding review_candidate
  review_candidate-TakesSlot t opt i left cns = elim (Bool-cases (is_optimistic opt i)) [
    | inl o ↦
        let e : review_candidate t opt i left cns ≡ (cns, left) = rw o refl in
        subst (TakesSlot opt i left) (sym e) (spared opt i left cns o)
    | inr o ↦ elim (Bool-cases (left == 0)) [
      | inl z ↦
          let e : review_candidate t opt i left cns ≡ (on_conn cns i (conn_choke t), left) =
            rw (o, z) refl in
          subst (TakesSlot opt i left) (sym e) (omega (arith, open_at-conn_choke t cns i))
      | inr z ↦
          let cns' = on_conn cns i (conn_unchoke t) in
          let e : review_candidate t opt i left cns
              ≡ (cns', if (cns' i).state.is_interested then left - 1 else left) =
            rw (o, z) refl in
          subst (TakesSlot opt i left) (sym e)
            (omega (arith, taken cns' i left (ground (arith, z))))
    ]
  ]

  pub open_at-eq : (a b : Conns B) (i : ℕ) → a i ≡ b i → open_at a i ≡ open_at b i
  open_at-eq a b i e = ap (λ cn. bool_to_int (can_upload cn.state)) e

  pub review_candidates_slots :
      (t : View B) (opt : Option ℕ) (is : List ℕ) (left : ℕ) (cns : Conns B)
      → AreListedOnce is
      → total (open_at (review_candidates t opt is left cns)) is ≤ left + total (opt_at opt) is
  unfolding review_candidates
  review_candidates_slots t opt [] left cns d = omega arith
  review_candidates_slots t opt (i ∷ is) left cns d =
      let r = review_candidate t opt i left cns in
      let after = review_candidates t opt is r.1 r.0 in
      let kept =
        open_at-eq after r.0 i
          (review_candidates-others t opt is r.1 i r.0 (omega (arith, d i, is_at_self i))) in
      let rest = review_candidates_slots t opt is r.1 r.0 (AreListedOnce-tail i is d) in
      omega (arith, kept, rest, review_candidate-TakesSlot t opt i left cns)

  unchoke_best-other :
      (t : View B) (opt : Option ℕ) (i left j : ℕ) (cns : Conns B)
      → is_at j i ≡ 0
      → (unchoke_best t opt i left cns).0 j ≡ cns j
  unfolding unchoke_best
  unchoke_best-other t opt i left j cns e = elim (Bool-cases (is_optimistic opt i)) [
    | inl o ↦ rw o refl
    | inr o ↦ rw o (on_conn-other cns i j (conn_unchoke t) e)
  ]

  pub unchoke_bests-others :
      (t : View B) (opt : Option ℕ) (slots : ℕ) (is : List ℕ) (left j : ℕ) (cns : Conns B)
      → total (is_at j) is ≡ 0
      → (unchoke_bests t opt slots is left cns).0 j ≡ cns j
  unfolding unchoke_bests
  unchoke_bests-others t opt zero is left j cns e = refl
  unchoke_bests-others t opt (suc slots) [] left j cns e = refl
  unchoke_bests-others t opt (suc slots) (i ∷ is) left j cns e =
      let r = unchoke_best t opt i left cns in
      unchoke_bests-others t opt slots is r.1 j r.0 (omega (arith, e))
      ∙ unchoke_best-other t opt i left j cns (omega (arith, e))

  unchoke_best-TakesSlot :
      (t : View B) (opt : Option ℕ) (i left : ℕ) (cns : Conns B)
      → 0 < left
      → TakesSlot opt i left (unchoke_best t opt i left cns)
        × (left ≤ (unchoke_best t opt i left cns).1 + 1)
  unfolding unchoke_best
  unchoke_best-TakesSlot t opt i left cns some_left = elim (Bool-cases (is_optimistic opt i)) [
    | inl o ↦
        let e : unchoke_best t opt i left cns ≡ (cns, left) = rw o refl in
        subst (λ r. TakesSlot opt i left r × (left ≤ r.1 + 1)) (sym e)
          (spared opt i left cns o, omega arith)
    | inr o ↦
        let cns' = on_conn cns i (conn_unchoke t) in
        let e : unchoke_best t opt i left cns ≡ (cns', left - 1) = rw o refl in
        subst (λ r. TakesSlot opt i left r × (left ≤ r.1 + 1)) (sym e)
          (omega (arith, open_at_le cns' i), omega arith)
  ]

  pub unchoke_bests_slots :
      (t : View B) (opt : Option ℕ) (slots : ℕ) (is : List ℕ) (left : ℕ) (cns : Conns B)
      → AreListedOnce is
      → slots ≤ left
      → let r = unchoke_bests t opt slots is left cns in
        total (open_at r.0) (take slots is) + r.1 ≤ left + total (opt_at opt) (take slots is)
  unfolding unchoke_bests
  unchoke_bests_slots t opt zero is left cns d h = omega arith
  unchoke_bests_slots t opt (suc slots) [] left cns d h = omega arith
  unchoke_bests_slots t opt (suc slots) (i ∷ is) left cns d h =
      let r = unchoke_best t opt i left cns in
      let after = (unchoke_bests t opt slots is r.1 r.0).0 in
      let (takes, loses) = unchoke_best-TakesSlot t opt i left cns (omega arith) in
      let kept =
        open_at-eq after r.0 i
          (unchoke_bests-others t opt slots is r.1 i r.0 (omega (arith, d i, is_at_self i))) in
      let rest =
        unchoke_bests_slots t opt slots is r.1 r.0 (AreListedOnce-tail i is d)
          (omega (arith, loses)) in
      omega (arith, kept, rest, takes)
