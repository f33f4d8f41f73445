-- ===== src/ChainSync.antt =====
-- Whether the node is at the tip: crates/treasury-service/src/chain_sync.rs. What each node
-- answers is an argument, `none` where it does not answer.
pub mod Lag
use clutch_treasury.Base.{
  ℕ, ◌-◌, Bool, true, false, Option, none, some, List, [], ◌∷◌, ltb, if◌then◌else◌,
}

-- `iter().copied().max()`.
unfoldable pub best_of : List ℕ → Option ℕ
best_of [] = none
best_of (h ∷ hs) = elim (best_of hs) [ none ↦ some h | some b ↦ some (if ltb b h then h else b) ]

-- Subtraction on ℕ stops at 0, as `saturating_sub` does.
unfoldable pub lag : ℕ → List ℕ → ℕ
unfolding best_of
lag primary_height peer_heights = elim (best_of peer_heights) [
  | none ↦ 0
  | some best ↦ best - primary_height
]

pub data SyncState : Type 0 where
  in_sync : ℕ → SyncState
  behind : ℕ → ℕ → ℕ → SyncState
  primary_unreachable no_peers_answered : SyncState

-- The fields of `get_chain_info` that the check reads.
pub record ChainInfo : Type 0 where
  pub latest_block_index : ℕ
  pub blocks_behind : Option ℕ
  pub best_peer_block_index : Option ℕ

-- What the node says of itself, if it has heard of any peer.
abbrev pub own_report : ChainInfo → Option (ℕ × ℕ)
own_report info = elim info.blocks_behind [
  | none ↦ none
  | some b ↦ elim info.best_peer_block_index [
    | none ↦ none
    | some best ↦ if ltb 0 best then some (b, best) else none
  ]
]

abbrev pub answered : List (Option ℕ) → List ℕ
answered [] = []
answered (none ∷ ps) = answered ps
answered (some h ∷ ps) = h ∷ answered ps

abbrev pub judge_lag : ℕ → ℕ → ℕ → ℕ → SyncState
judge_lag tolerance l primary best = if ltb tolerance l then behind l primary best else in_sync l

unfoldable pub compare_peers : ℕ → ℕ → List ℕ → SyncState
unfolding lag best_of
compare_peers tolerance primary [] = no_peers_answered
compare_peers tolerance primary (h ∷ hs) =
    judge_lag tolerance (lag primary (h ∷ hs)) primary
      (elim (best_of (h ∷ hs)) [ none ↦ primary | some best ↦ best ])

unfoldable pub check_info : ChainInfo → List (Option ℕ) → ℕ → Option (ℕ × ℕ) → SyncState
unfolding compare_peers
check_info info peers tolerance none =
    compare_peers tolerance info.latest_block_index (answered peers)
check_info info peers tolerance (some (b, best)) =
    judge_lag tolerance b info.latest_block_index best

unfoldable pub check : Option ChainInfo → List (Option ℕ) → ℕ → SyncState
unfolding check_info
check none peers tolerance = primary_unreachable
check (some info) peers tolerance = check_info info peers tolerance (own_report info)
