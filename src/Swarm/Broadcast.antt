-- ===== src/Swarm/Broadcast.antt =====
-- torrent/torrent.go, the loops `for _, c := range t.conns`: a message that finds a connection gone
-- drops it in the middle of the loop. The range clause keeps the slice that it began with, whose
-- array removeConn overwrites in place.
use charo_torrent.Prelude.{
  ℕ, zero, suc, ◌+◌, ◌-◌, ◌≡◌, inl, inr, refl, ap, ◌∙◌, Bool, true, false, List, [], ◌∷◌, ◌++◌,
  Option, none, some, ◌==◌, if◌then◌else◌, length, get_elem?, take, drop, All, arith, length-append,
  take_all, take-append, ==→eq, ==_refl, Bool-cases,
}

-- The array under t.conns and how many of its elements the slice has.
pub record ConnSlice : Type 0 where
  pub array : List ℕ
  pub len : ℕ

unfoldable pub index_in : List ℕ → ℕ → ℕ → Option ℕ
index_in [] c i = none
index_in (x ∷ xs) c i = let rest = index_in xs c (i + 1) in if x == c then some i else rest

-- removeConn on the array: `append` moves the later elements one place down, and the last place
-- keeps what it had.
unfoldable pub remove_at : ConnSlice → ℕ → ConnSlice
remove_at s i = record {
  array = take i s.array ++ (drop (i + 1) (take s.len s.array) ++ drop (s.len - 1) s.array);
  len = s.len - 1;
}

-- What droppedConn does to the slice.
unfoldable pub drop_conn : ConnSlice → ℕ → ConnSlice
unfolding index_in remove_at
drop_conn s c = elim (index_in (take s.len s.array) c 0) [ none ↦ s | some i ↦ remove_at s i ]

-- The loop from index `k` on, with `rounds` of them left, where `gone` are the connections whose
-- goroutine has ended: the slice after it and the connections that got the message, in order.
unfoldable pub broadcast_loop : (ℕ → Bool) → ℕ → ℕ → ConnSlice → ConnSlice × List ℕ
unfolding drop_conn
broadcast_loop gone zero k s = (s, [])
broadcast_loop gone (suc rounds) k s = elim (get_elem? s.array k) [
  | none ↦ (s, [])
  | some c ↦
      let rest = broadcast_loop gone rounds (k + 1) (if gone c then drop_conn s c else s) in
      (rest.0, if gone c then rest.1 else c ∷ rest.1)
]

unfoldable pub broadcast_to_conns : (ℕ → Bool) → ConnSlice → ConnSlice × List ℕ
unfolding broadcast_loop
broadcast_to_conns gone s = broadcast_loop gone s.len 0 s

-- The slice over an array of its own.
abbrev pub slice : List ℕ → ConnSlice
slice xs = record { array = xs; len = length xs }

get_elem?-middle :
    (pre : List ℕ) (x : ℕ) (post : List ℕ) (k : ℕ)
    → k ≡ length pre
    → get_elem? (pre ++ (x ∷ post)) k ≡ some x
get_elem?-middle [] x post zero e = refl
get_elem?-middle [] x post (suc k) e = absurd (omega (arith, e))
get_elem?-middle (y ∷ pre) x post zero e = absurd (omega (arith, e))
get_elem?-middle (y ∷ pre) x post (suc k) e = get_elem?-middle pre x post k (omega (arith, e))

append_snoc : (pre : List ℕ) (x : ℕ) (post : List ℕ) → (pre ++ (x ∷ [])) ++ post ≡ pre ++ (x ∷ post)
append_snoc [] x post = refl
append_snoc (y ∷ pre) x post = ap (◌∷◌ y) (append_snoc pre x post)

-- From index `k` on, when nobody is gone among the elements there.
broadcast_rest :
    (gone : ℕ → Bool) (pre post : List ℕ) (n k : ℕ)
    → k ≡ length pre
    → All (λ c. gone c ≡ false) post
    → broadcast_loop gone (length post) k (record { array = pre ++ post; len = n })
      ≡ (record { array = pre ++ post; len = n }, post)
unfolding broadcast_loop
broadcast_rest gone pre [] n k e h = refl
broadcast_rest gone pre (x ∷ post) n k e h =
    let ih =
      broadcast_rest gone (pre ++ (x ∷ [])) post n (k + 1)
        (omega (arith, e, length-append pre (x ∷ []))) h.1 in
    let same : broadcast_loop gone (length post) (k + 1)
          (record { array = pre ++ (x ∷ post); len = n })
        ≡ (record { array = pre ++ (x ∷ post); len = n }, post) =
      rw (append_snoc pre x post) at ih in
    rw (broadcast_loop, get_elem?-middle pre x post k e, h.0, same) refl

-- The loop runs over `run` first, where nobody is gone.
broadcast_run :
    (gone : ℕ → Bool) (pre run post : List ℕ) (n m : ℕ)
    → All (λ c. gone c ≡ false) run
    → (r : ConnSlice × List ℕ)
    → broadcast_loop gone m
        (length pre + length run)
        (record { array = pre ++ (run ++ post); len = n })
      ≡ r
    → broadcast_loop gone
        (length run + m)
        (length pre)
        (record { array = pre ++ (run ++ post); len = n })
      ≡ (r.0, run ++ r.1)
unfolding broadcast_loop
broadcast_run gone pre [] post n m h r e =
    let z : length pre + 0 ≡ length pre = omega arith in
    let y : 0 + m ≡ m = omega arith in rw y (rw z at e)
broadcast_run gone pre (x ∷ run) post n m h r e =
    let s : ConnSlice = record { array = pre ++ (x ∷ (run ++ post)); len = n } in
    let shift : length (pre ++ (x ∷ [])) + length run ≡ length pre + suc (length run) =
      omega (arith, length-append pre (x ∷ [])) in
    let at : broadcast_loop gone m (length (pre ++ (x ∷ [])) + length run)
          (record { array = (pre ++ (x ∷ [])) ++ (run ++ post); len = n })
        ≡ r =
      rw (append_snoc pre x (run ++ post), shift) e in
    let ih : broadcast_loop gone (length run + m) (length (pre ++ (x ∷ [])))
          (record { array = (pre ++ (x ∷ [])) ++ (run ++ post); len = n })
        ≡ (r.0, run ++ r.1) =
      broadcast_run gone (pre ++ (x ∷ [])) run post n m h.1 r at in
    let next : length (pre ++ (x ∷ [])) ≡ length pre + 1 =
      omega (arith, length-append pre (x ∷ [])) in
    let ih2 : broadcast_loop gone (length run + m) (length pre + 1) s ≡ (r.0, run ++ r.1) =
      rw (append_snoc pre x (run ++ post), next) at ih in
    let rounds : suc (length run) + m ≡ suc (length run + m) = omega arith in
    rw (rounds, broadcast_loop, get_elem?-middle pre x (run ++ post) (length pre) refl, h.0, ih2)
      refl

-- When no goroutine has ended, a message goes to every connection once, in order.
pub broadcast_everyone :
    (gone : ℕ → Bool) (xs : List ℕ)
    → All (λ c. gone c ≡ false) xs
    → broadcast_to_conns gone (slice xs) ≡ (slice xs, xs)
unfolding broadcast_to_conns
broadcast_everyone gone xs h = broadcast_rest gone [] xs (length xs) 0 refl h

abbrev pub last_of : ℕ → List ℕ → ℕ
last_of x [] = x
last_of x (y ∷ ys) = last_of y ys

index_in-middle :
    (gone : ℕ → Bool) (pre : List ℕ) (g : ℕ) (post : List ℕ) (i : ℕ)
    → All (λ c. gone c ≡ false) pre
    → gone g ≡ true
    → index_in (pre ++ (g ∷ post)) g i ≡ some (i + length pre)
unfolding index_in
index_in-middle gone [] g post i h e = ground (arith, ==_refl g)
index_in-middle gone (p ∷ pre) g post i h e =
    let other : (p == g) ≡ false = elim (Bool-cases (p == g)) [
      | inl same ↦ let eq = ==→eq p g same in absurd (ground (arith, h.0, e, ap gone eq))
      | inr ne ↦ ne
    ] in
    rw other (index_in-middle gone pre g post (i + 1) h.1 e ∙ ap some (omega arith))

-- One round, at a connection that is gone.
broadcast_gone :
    (gone : ℕ → Bool) (rounds k c : ℕ) (s s1 : ConnSlice) (r : ConnSlice × List ℕ)
    → get_elem? s.array k ≡ some c
    → gone c ≡ true
    → drop_conn s c ≡ s1
    → broadcast_loop gone rounds (k + 1) s1 ≡ r
    → broadcast_loop gone (suc rounds) k s ≡ r
unfolding broadcast_loop
broadcast_gone gone rounds k c s s1 r at e d h = rw (broadcast_loop, at, e, d, h) refl

regroup :
    (pre : List ℕ) (x : ℕ) (post ys : List ℕ)
    → pre ++ (x ∷ (post ++ ys)) ≡ (pre ++ (x ∷ post)) ++ ys
regroup [] x post ys = refl
regroup (p ∷ pre) x post ys = ap (◌∷◌ p) (regroup pre x post ys)

drop_prefix :
    (pre : List ℕ) (xs : List ℕ) (n k : ℕ) → n ≡ length pre + k → drop n (pre ++ xs) ≡ drop k xs
drop_prefix [] xs n k e = ap (λ m. drop m xs) (omega (arith, e))
drop_prefix (p ∷ pre) xs zero k e = absurd (omega (arith, e))
drop_prefix (p ∷ pre) xs (suc n) k e = drop_prefix pre xs n k (omega (arith, e))

drop-last_of : (x : ℕ) (xs : List ℕ) → drop (length xs) (x ∷ xs) ≡ last_of x xs ∷ []
drop-last_of x [] = refl
drop-last_of x (y ∷ ys) = drop-last_of y ys

-- The array after the connection `g` was removed from between `pre` and `x ∷ post`.
abbrev closed_up : List ℕ → ℕ → List ℕ → ConnSlice
closed_up pre x post = record {
  array = pre ++ (x ∷ (post ++ (last_of x post ∷ [])));
  len = length pre + length (x ∷ post);
}

drop_conn_middle :
    (gone : ℕ → Bool) (pre : List ℕ) (g x : ℕ) (post : List ℕ)
    → All (λ c. gone c ≡ false) pre
    → gone g ≡ true
    → drop_conn (slice (pre ++ (g ∷ (x ∷ post)))) g ≡ closed_up pre x post
unfolding drop_conn remove_at
drop_conn_middle gone pre g x post h e =
    let xs = pre ++ (g ∷ (x ∷ post)) in
    let n = length-append pre (g ∷ (x ∷ post)) in
    let whole = take_all (length xs) xs (omega arith) in
    let later : drop (length pre + 1) xs ≡ x ∷ post =
      drop_prefix pre (g ∷ (x ∷ post)) (length pre + 1) 1 refl in
    let end : drop (length xs - 1) xs ≡ last_of x post ∷ [] =
      drop_prefix pre (g ∷ (x ∷ post)) (length xs - 1) (suc (length post)) (omega (arith, n))
      ∙ drop-last_of x post in
    let size : length xs - 1 ≡ length pre + length (x ∷ post) = omega (arith, n) in
    let found : index_in xs g 0 ≡ some (length pre) =
      index_in-middle gone pre g (x ∷ post) 0 h e ∙ ap some (omega arith) in
    let front = take-append (length pre) pre (g ∷ (x ∷ post)) refl in
    rw (drop_conn, whole, found, remove_at, whole, later, end, size, front) refl

last_of-All : (P : ℕ → Type 0) (x : ℕ) (xs : List ℕ) → All P (x ∷ xs) → P (last_of x xs)
last_of-All P x [] h = h.0
last_of-All P x (y ∷ ys) h = last_of-All P y ys h.1

All-snoc : (P : ℕ → Type 0) (xs : List ℕ) (y : ℕ) → All P xs → P y → All P (xs ++ (y ∷ []))
All-snoc P [] y h p = (p, tt)
All-snoc P (x ∷ xs) y h p = (h.0, All-snoc P xs y h.1 p)

-- When one connection, not the last, is found gone, the one behind it is passed over: the message goes to those before it, to
-- those from the second behind it on, and then to the last one again. The torrent is left with all the others.
pub broadcast_skips :
    (gone : ℕ → Bool) (pre : List ℕ) (g x : ℕ) (post : List ℕ)
    → All (λ c. gone c ≡ false) pre
    → gone g ≡ true
    → All (λ c. gone c ≡ false) (x ∷ post)
    → ((broadcast_to_conns gone (slice (pre ++ (g ∷ (x ∷ post))))).1
        ≡ pre ++ (post ++ (last_of x post ∷ [])))
      × (take
            (broadcast_to_conns gone (slice (pre ++ (g ∷ (x ∷ post))))).0.len
            (broadcast_to_conns gone (slice (pre ++ (g ∷ (x ∷ post))))).0.array
          ≡ pre ++ (x ∷ post))
unfolding broadcast_to_conns
broadcast_skips gone pre g x post h e l =
    let xs = pre ++ (g ∷ (x ∷ post)) in
    let end = post ++ (last_of x post ∷ []) in
    let s1 = closed_up pre x post in
    let calm =
      All-snoc (λ c. gone c ≡ false) post (last_of x post) l.1
        (last_of-All (λ c. gone c ≡ false) x post l) in
    let one_more : length (pre ++ (x ∷ [])) ≡ length pre + 1 =
      omega (arith, length-append pre (x ∷ [])) in
    let rounds : length end ≡ suc (length post) =
      omega (arith, length-append post (last_of x post ∷ [])) in
    let rest : broadcast_loop gone (suc (length post)) (length pre + 1) s1 ≡ (s1, end) =
      rw (append_snoc pre x end, one_more, rounds) at
        (broadcast_rest gone (pre ++ (x ∷ [])) end s1.len (length (pre ++ (x ∷ []))) refl calm) in
    let dropped = drop_conn_middle gone pre g x post h e in
    let at_g : broadcast_loop gone (suc (suc (length post))) (0 + length pre) (slice xs)
        ≡ (s1, end) =
      let z : 0 + length pre ≡ length pre = omega arith in
      rw z (
        broadcast_gone gone (suc (length post)) (length pre) g (slice xs) s1 (s1, end)
          (get_elem?-middle pre g (x ∷ post) (length pre) refl) e dropped rest) in
    let run : broadcast_loop gone (length pre + suc (suc (length post))) 0 (slice xs)
        ≡ (s1, pre ++ end) =
      broadcast_run gone [] pre (g ∷ (x ∷ post)) (length xs) (suc (suc (length post))) h (s1, end)
        at_g in
    let all_rounds : length xs ≡ length pre + suc (suc (length post)) =
      omega (arith, length-append pre (g ∷ (x ∷ post))) in
    let whole : broadcast_to_conns gone (slice xs) ≡ (s1, pre ++ end) =
      rw (broadcast_to_conns, ap (λ n. broadcast_loop gone n 0 (slice xs)) all_rounds) run in
    let kept : take s1.len s1.array ≡ pre ++ (x ∷ post) =
      rw (regroup pre x post (last_of x post ∷ [])) (
        take-append s1.len (pre ++ (x ∷ post)) (last_of x post ∷ [])
          (omega (arith, length-append pre (x ∷ post)))) in
    rw whole (refl, kept)
