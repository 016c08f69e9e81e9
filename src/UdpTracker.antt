-- ===== src/UdpTracker.antt =====
-- tracker/udp.go: the checks on a response of a UDP tracker, and how long to wait for one (BEP 15).
use charo_torrent.Prelude.{
  ℕ, ◌*◌, ◌^◌, ◌≤◌, ◌≡◌, ◌↔◌, ◌⊎◌, not, ◌||◌, Option, none, some, ltb, leb, ◌==◌, if◌then◌else◌,
  Outcome, ok, err, arith,
}

-- The actions, in the order of their numbers; a response may hold any number.
abbrev pub action_connect : ℕ
action_connect = 0

abbrev pub action_announce : ℕ
action_announce = 1

abbrev pub action_scrape : ℕ
action_scrape = 2

abbrev pub action_error : ℕ
action_error = 3

pub record RespHeader : Type 0 where
  pub action : ℕ
  pub tx_id : ℕ

pub data HeaderError : Type 0 where
  too_small unknown_action other_transaction error_response other_action : HeaderError

-- The length that a response to an action has at least; `none` for an unknown action.
unfoldable pub least_len : ℕ → Option ℕ
least_len action =
    if action == action_announce
    then some 20
    else if action == action_connect
    then some 16
    else if action == action_scrape || action == action_error
    then some 8
    else none

-- The response is its length and the header that its first eight bytes hold.
unfoldable pub check_resp_header : ℕ → RespHeader → RespHeader → Outcome HeaderError RespHeader
unfolding least_len
check_resp_header len header expected = elim (least_len expected.action) [
  | none ↦ err unknown_action
  | some least ↦
      if ltb len least
      then err too_small
      else if not (header.tx_id == expected.tx_id)
      then err other_transaction
      else if header.action == action_error
      then err error_response
      else if not (header.action == expected.action)
      then err other_action
      else ok header
]

-- In seconds; `none` is the negative duration, after which the tracker is given up.
unfoldable pub timeout_time : ℕ → Option ℕ
timeout_time consecutive_timeouts =
    if leb 8 consecutive_timeouts then none else some (2 ^ consecutive_timeouts * 15)

-- A response is accepted exactly when it is long enough for what it answers and its header is the
-- expected one, which is not an error's.
pub check_resp_header-ok_iff :
    (len : ℕ) (header expected : RespHeader)
    → (check_resp_header len header expected ≡ ok header) ↔ (
        (header.tx_id ≡ expected.tx_id)
        × (header.action ≡ expected.action)
        × (((header.action ≡ action_connect) × (16 ≤ len))
            ⊎ ((header.action ≡ action_announce) × (20 ≤ len))
            ⊎ ((header.action ≡ action_scrape) × (8 ≤ len))))
unfolding check_resp_header least_len
check_resp_header-ok_iff len header expected = (λ h. ground arith, λ h. ground arith)
