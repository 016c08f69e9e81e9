-- ===== src/Swarm/Dropped.antt =====
-- What droppedConn does to the connections before its deferred calls.
use charo_torrent.Prelude.{
  ℕ, suc, ◌+◌, ◌≡◌, inl, inr, refl, sym, ap, ◌∙◌, true, false, not, ◌&&◌, List, [], ◌∷◌, ◌++◌, none,
  some, ◌==◌, length, take, drop, arith, ==→eq, ==_refl, Bool-cases, Option-cases,
}
use mathlib.Core.Path.{subst}
use charo_torrent.Misc.{contains}
use charo_torrent.Swarm.{Swarm, data_transfer_allowed, conn_index, remove_conn, dropped_conn}

conn_index-none : (conns : List ℕ) (ci : ℕ) → contains conns ci ≡ false → conn_index conns ci ≡ none
unfolding conn_index contains
conn_index-none [] ci h = refl
conn_index-none (cn ∷ conns) ci h = ground (arith, conn_index-none conns ci)

-- A list of connections without repetition.
abbrev pub AreDistinct : List ℕ → Type 0
AreDistinct [] = Unit {0}
AreDistinct (x ∷ xs) = (contains xs x ≡ false) × AreDistinct xs

remove_conn-suc :
    (cn : ℕ) (conns : List ℕ) (i : ℕ) → remove_conn (cn ∷ conns) (suc i) ≡ cn ∷ remove_conn conns i
unfolding remove_conn
remove_conn-suc cn conns i =
    let next : suc i + 1 ≡ suc (i + 1) = omega arith in
    ap (λ n. cn ∷ (take i conns ++ drop n (cn ∷ conns))) next

remove_conn-zero : (cn : ℕ) (conns : List ℕ) → remove_conn (cn ∷ conns) 0 ≡ conns
unfolding remove_conn
remove_conn-zero cn conns = refl

-- What is left when a connection is removed at its index.
abbrev pub IsWithout : List ℕ → ℕ → List ℕ → Type 0
IsWithout conns ci rest =
    AreDistinct rest
    × (length rest + 1 ≡ length conns)
    × ((cj : ℕ) → contains rest cj ≡ (contains conns cj && not (cj == ci)))

pub remove_conn-IsWithout :
    (conns : List ℕ) (ci i : ℕ)
    → AreDistinct conns
    → conn_index conns ci ≡ some i
    → IsWithout conns ci (remove_conn conns i)
unfolding conn_index contains
remove_conn-IsWithout [] ci i d h = absurd (ground arith)
remove_conn-IsWithout (cn ∷ conns) ci i d h = elim (Bool-cases (cn == ci)) [
  | inl same ↦ at_head (==→eq cn ci same) i (ground arith)
  | inr other ↦ elim (Option-cases (conn_index conns ci)) [
    | inl e ↦ absurd (ground arith)
    | inr (j, e) ↦ further other j (ground arith) (remove_conn-IsWithout conns ci j d.1 e)
  ]
]
  where
    at_head : cn ≡ ci → (k : ℕ) → k ≡ 0 → IsWithout (cn ∷ conns) ci (remove_conn (cn ∷ conns) k)
    at_head same k e =
        subst (IsWithout (cn ∷ conns) ci)
          (sym (ap (remove_conn (cn ∷ conns)) e ∙ remove_conn-zero cn conns))
          (
            d.1,
            omega arith,
            λ cj. elim (Bool-cases (cn == cj)) [
              | inl it ↦
                  let gone : contains conns cj ≡ false =
                    ap (contains conns) (sym (==→eq cn cj it)) ∙ d.0 in
                  ground (arith, gone, ==→eq cn cj it)
              | inr not_it ↦ ground arith
            ],
          )

    further :
        (cn == ci) ≡ false
        → (j : ℕ) → i ≡ suc j
        → IsWithout conns ci (remove_conn conns j)
        → IsWithout (cn ∷ conns) ci (remove_conn (cn ∷ conns) i)
    further other j e ih =
        subst (IsWithout (cn ∷ conns) ci)
          (sym (ap (remove_conn (cn ∷ conns)) e ∙ remove_conn-suc cn conns j))
          (
            (ih.2 cn ∙ ground (arith, d.0), ih.0),
            omega (arith, ih.1),
            λ cj. ground (arith, ih.2 cj, ==→eq cn cj, ==→eq cj ci),
          )

contains-conn_index :
    (conns : List ℕ) (ci i : ℕ) → conn_index conns ci ≡ some i → contains conns ci ≡ true
unfolding conn_index contains
contains-conn_index [] ci i h = absurd (ground arith)
contains-conn_index (cn ∷ conns) ci i h = elim (Bool-cases (cn == ci)) [
  | inl same ↦ ground arith
  | inr other ↦ elim (Option-cases (conn_index conns ci)) [
    | inl e ↦ absurd (ground arith)
    | inr (j, e) ↦ ground (arith, contains-conn_index conns ci j e)
  ]
]

dropped_conn-conns :
    (t : Swarm) (ci peer i : ℕ)
    → conn_index t.conns ci ≡ some i
    → ((dropped_conn t ci peer).0.conns ≡ remove_conn t.conns i)
      × ((dropped_conn t ci peer).1 ≡ true)
unfolding dropped_conn
dropped_conn-conns t ci peer i e =
    elim (Bool-cases (t.info_was_downloaded && not (data_transfer_allowed t))) [
      | inl keep ↦ rw (dropped_conn, e, keep) (refl, refl)
      | inr forget ↦ rw (dropped_conn, e, forget) (refl, refl)
    ]

dropped_conn-unknown :
    (t : Swarm) (ci peer : ℕ) → conn_index t.conns ci ≡ none → dropped_conn t ci peer ≡ (t, false)
unfolding dropped_conn
dropped_conn-unknown t ci peer e = rw (dropped_conn, e) refl

none-contains : (conns : List ℕ) (ci : ℕ) → conn_index conns ci ≡ none → contains conns ci ≡ false
unfolding conn_index contains
none-contains [] ci h = refl
none-contains (cn ∷ conns) ci h = elim (Bool-cases (cn == ci)) [
  | inl same ↦ absurd (ground arith)
  | inr other ↦ elim (Option-cases (conn_index conns ci)) [
    | inl e ↦ ground (arith, none-contains conns ci e)
    | inr (j, e) ↦ absurd (ground arith)
  ]
]

-- When the connections are distinct, droppedConn, before its deferred calls of dialConns and reviewUnchokedPeers, takes the
-- connection, and no other, out of them, and they are distinct afterwards; it reports whether the connection was among them, and
-- would report for the same connection again that it was not.
pub dropped_conn_once :
    (t : Swarm) (ci peer peer' : ℕ)
    → AreDistinct t.conns
    → AreDistinct (dropped_conn t ci peer).0.conns
      × ((dropped_conn t ci peer).1 ≡ contains t.conns ci)
      × ((cj : ℕ)
          → contains (dropped_conn t ci peer).0.conns cj ≡ (contains t.conns cj && not (cj == ci)))
      × ((dropped_conn (dropped_conn t ci peer).0 ci peer').1 ≡ false)
dropped_conn_once t ci peer peer' d = elim (Option-cases (conn_index t.conns ci)) [
  | inl e ↦
      let out = none-contains t.conns ci e in
      let same = dropped_conn-unknown t ci peer e in
      (
        subst (λ o. AreDistinct o.0.conns) (sym same) d,
        ap (λ o. o.1) same ∙ sym out,
        λ cj. ap (λ o. contains o.0.conns cj) same ∙ elim (Bool-cases (cj == ci)) [
          | inl it ↦ rw (==→eq cj ci it, out) refl
          | inr other ↦ ground arith
        ],
        ap (λ o. (dropped_conn o.0 ci peer').1) same
            ∙ ap (λ o. o.1) (dropped_conn-unknown t ci peer' e),
      )
  | inr (i, e) ↦
      let (cs, r) = dropped_conn-conns t ci peer i e in
      let w = remove_conn-IsWithout t.conns ci i d e in
      let left : contains (dropped_conn t ci peer).0.conns ci ≡ false =
        ap (λ q. contains q ci) cs ∙ w.2 ci ∙ ground (arith, ==_refl ci) in
      (
        rw cs w.0,
        r ∙ sym (contains-conn_index t.conns ci i e),
        λ cj. ap (λ q. contains q cj) cs ∙ w.2 cj,
        ap (λ o. o.1)
            (dropped_conn-unknown (dropped_conn t ci peer).0 ci peer'
              (conn_index-none (dropped_conn t ci peer).0.conns ci left)),
      )
]
