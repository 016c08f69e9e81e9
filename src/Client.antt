-- ===== src/Client.antt =====
-- torrent/client.go: the torrents of a client, its black list and the mutex over both.
pub mod Registry
use charo_torrent.Prelude.{
  ℕ, zero, suc, ◌+◌, ◌-◌, ◌*◌, ◌/◌, ◌%◌, ◌^◌, ◌<◌, ◌≤◌, ◌≡◌, ◌≢◌, ◌↔◌, ◌⊎◌, inl, inr, refl, sym, ap,
  ◌∙◌, Bool, true, false, not, ◌&&◌, ◌||◌, List, [], ◌∷◌, ◌++◌, map, Option, none, some, ltb, leb,
  ◌==◌, if◌then◌else◌, length, get_elem?, set, take, drop, replicate, All, Outcome, ok, err, panic,
  arith, length-append, length-set, length-replicate, length-take, length-drop, take_all,
  take-append, drop-append, get_elem?-lt, get_elem?-ge, get_elem?-set, All-take, All-append,
  All-imp, length-map, get_elem?-set_self, get_elem?-set_ne, ltb→lt, leb→le, ==→eq, ==_refl,
  Bool-cases, Option-cases,
}
use charo_torrent.Misc.{contains}

-- `torrents` is the map from info hashes to torrents, `loops` the torrents whose main loop was
-- started. A torrent is a number, an info hash and an address too.
pub record Client : Type 0 where
  pub locked : Bool
  pub black_list : List ℕ
  pub torrents : List (ℕ × ℕ)
  pub loops : List ℕ

-- How a call ends: with a value, or never, since it waits for a mutex that nobody releases.
pub data Ends {ℓ} (A : Type ℓ) : Type ℓ where
  returns : A → Client → Ends A
  waits : Ends A

-- A call is a function of the client.
abbrev pub Call : Type 0 → Type 0
Call A = Client → Ends A

abbrev pub after : {A : Type 0} {B : Type 0} → Ends A → (A → Call B) → Ends B
after (returns a cl) f = f a cl
after waits f = waits

infixl 5 ◌>>=◌
abbrev pub ◌>>=◌ : {A : Type 0} {B : Type 0} → Call A → (A → Call B) → Call B
m >>= f = λ cl. after (m cl) f

infixl 5 ◌>>◌
abbrev pub ◌>>◌ : {A : Type 0} {B : Type 0} → Call A → Call B → Call B
m >> k = λ cl. after (m cl) (λ a. k)

abbrev pub give : {A : Type 0} → A → Call A
give a = λ cl. returns a cl

abbrev pub get : Call Client
get = λ cl. returns cl cl

abbrev pub put : Client → Call Bool
put cl' = λ cl. returns true cl'

-- cl.mu.Lock and cl.mu.Unlock. Nobody else takes the mutex while a call that holds it runs.
unfoldable pub lock : Call Bool
lock = λ cl. if cl.locked then waits else returns true (record cl { locked = true })

unfoldable pub unlock : Call Bool
unlock = λ cl. returns true (record cl { locked = false })

unfoldable pub lookup : List (ℕ × ℕ) → ℕ → Option ℕ
lookup [] h = none
lookup ((k, t) ∷ ts) h = let rest = lookup ts h in if k == h then some t else rest

unfoldable pub delete : List (ℕ × ℕ) → ℕ → List (ℕ × ℕ)
delete [] h = []
delete ((k, t) ∷ ts) h = let rest = delete ts h in if k == h then rest else (k, t) ∷ rest

unfoldable pub is_known : List (ℕ × ℕ) → ℕ → Bool
unfolding lookup
is_known ts h = elim (lookup ts h) [ none ↦ false | some t ↦ true ]

-- What AddFromParser returns: the torrent, the parser's error, or that it exists.
pub data Added : Type 0 where
  added : ℕ → Added
  parse_failed : Added
  already_exists : Added

abbrev register : ℕ → ℕ → Client → Client
register h t cl = record cl { torrents = (h, t) ∷ cl.torrents }

-- AddFromParser, for the torrent `t`, but for gotInfo of a torrent whose info is known already, which works on that
-- torrent alone and may panic. Here `parsed` is the info hash that the parser gives.
unfoldable pub add_from_parser : Option ℕ → ℕ → Call Added
unfolding lock unlock is_known
add_from_parser none t = give parse_failed
add_from_parser (some h) t = do
  before ← get
  put (record before { loops = t ∷ before.loops })
  lock
  cl ← get
  if is_known cl.torrents h
      then give already_exists
      else (do put (register h t cl); unlock; give (added t))

-- dropTorrent, which tells whether the torrent was there.
unfoldable pub drop_torrent : ℕ → Call Bool
unfolding lock unlock is_known delete
drop_torrent h = do
  lock
  cl ← get
  if not (is_known cl.torrents h)
      then (do unlock; give false)
      else (do put (record cl { torrents = delete cl.torrents h }); unlock; give true)

-- The torrents that the map holds.
abbrev second : ℕ × ℕ → ℕ
second p = p.1

unfoldable pub torrents : Call (List ℕ)
unfolding lock unlock
torrents = do lock; cl ← get; unlock; give (map second cl.torrents)

unfoldable pub ban_ip : ℕ → Call Bool
unfolding lock unlock
ban_ip ip = do lock; cl ← get; put (record cl { black_list = cl.black_list ++ (ip ∷ []) }); unlock

unfoldable pub contains_in_black_list : ℕ → Call Bool
unfolding lock unlock contains
contains_in_black_list ip = do lock; cl ← get; unlock; give (contains cl.black_list ip)
