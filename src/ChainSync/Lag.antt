-- ===== src/ChainSync/Lag.antt =====
-- What the lag measures, and when the check calls a node behind (chain_sync.rs).
use clutch_treasury.Base.{
  ℕ, ◌+◌, ◌-◌, ◌≤◌, ◌<◌, ◌≡◌, ◌⊎◌, inl, inr, refl, Option, none, some, List, [], ◌∷◌, arith, All,
  Option-cases, Bool-cases, ltb, ap, sym, subst, ◌∙◌, true,
}
use clutch_treasury.ChainSync.{
  best_of, lag, SyncState, in_sync, behind, primary_unreachable, no_peers_answered, ChainInfo,
  own_report, answered, compare_peers, check_info, check,
}

All-mono : (b c : ℕ) (hs : List ℕ) → b ≤ c → All (λ h. h ≤ b) hs → All (λ h. h ≤ c) hs
All-mono b c [] le a = tt
All-mono b c (h ∷ hs) le a = (omega arith, All-mono b c hs le a.1)

best_of-none : (b : ℕ) (hs : List ℕ) → best_of hs ≡ none → All (λ h. h ≤ b) hs
unfolding best_of
best_of-none b [] e = tt
best_of-none b (h ∷ hs) e = absurd (ground arith)

best_of-All : (hs : List ℕ) (b : ℕ) → best_of hs ≡ some b → All (λ h. h ≤ b) hs
unfolding best_of
best_of-All [] b e = tt
best_of-All (h ∷ hs) b e = elim (Option-cases (best_of hs)) [
  | inl empty ↦ (ground arith, best_of-none b hs empty)
  | inr (c, best) ↦ (ground arith, All-mono c b hs (ground arith) (best_of-All hs c best))
]

-- The best of the heights is one of them: the bound below every peer is attained.
best_of-le :
    (bound : ℕ) (hs : List ℕ) (b : ℕ) → All (λ h. h ≤ bound) hs → best_of hs ≡ some b → b ≤ bound
unfolding best_of
best_of-le bound [] b a e = absurd (ground arith)
best_of-le bound (h ∷ hs) b a e = elim (Option-cases (best_of hs)) [
  | inl empty ↦ ground arith
  | inr (c, best) ↦ ground (arith, best_of-le bound hs c a.1 best)
]

-- The lag is the least distance that brings the primary level with every peer; a primary that is
-- ahead of all its peers has none.
lag_least :
    (primary : ℕ) (hs : List ℕ)
    → All (λ h. h ≤ primary + lag primary hs) hs
      × ((l : ℕ) → All (λ h. h ≤ primary + l) hs → lag primary hs ≤ l)
unfolding lag
lag_least primary hs = elim (Option-cases (best_of hs)) [
  | inl empty ↦ (best_of-none _ hs empty, λ l a. rw (empty, lag) (omega arith))
  | inr (b, best) ↦
      rw (best, lag)
        (
          All-mono b (primary + (b - primary)) hs (omega arith) (best_of-All hs b best),
          λ l a. omega (arith, best_of-le (primary + l) hs b a best),
        )
]

-- What holds of the height of every peer that answered.
abbrev pub Answering : (ℕ → Type 0) → List (Option ℕ) → Type 0
Answering P [] = Unit
Answering P (none ∷ peers) = Answering P peers
Answering P (some h ∷ peers) = P h × Answering P peers

-- The node has said how far it is behind, and that it has heard of a peer.
abbrev pub Reports : ChainInfo → ℕ → ℕ → Type 0
Reports info l best =
    (info.blocks_behind ≡ some l) × (info.best_peer_block_index ≡ some best) × (0 < best)

-- The blocks by which a node at a height is behind the peers that answered: the fewest that bring
-- it level with every one of them.
pub record IsLag (height : ℕ) (peers : List (Option ℕ)) (l : ℕ) : Type 0 where
  pub reaches : Answering (λ h. h ≤ height + l) peers
  pub fewest : (k : ℕ) → Answering (λ h. h ≤ height + k) peers → l ≤ k

-- `l` is the node's own figure, with a peer that it has heard of, or, where it has none, the lag
-- behind the peers, one of which has answered.
abbrev pub Measured : ChainInfo → List (Option ℕ) → ℕ → Type 0
Measured info peers l =
    ((best : ℕ) × Reports info l best)
    ⊎ (((b best : ℕ) → Reports info b best → ⊥)
        × (Answering (λ h. ⊥) peers → ⊥)
        × IsLag info.latest_block_index peers l)

-- What the check may conclude. A node is called behind or in sync only on a lag measured from its
-- own report or from peers that answered, judged against the caller's tolerance; silence is never
-- read as in sync.
abbrev pub Means : Option ChainInfo → List (Option ℕ) → ℕ → SyncState → Type 0
Means none peers tolerance s = s ≡ primary_unreachable
Means (some info) peers tolerance (in_sync l) = (l ≤ tolerance) × Measured info peers l
Means (some info) peers tolerance (behind l primary best) =
    (tolerance < l) × (primary ≡ info.latest_block_index) × Measured info peers l
Means (some info) peers tolerance primary_unreachable = ⊥
Means (some info) peers tolerance no_peers_answered =
    ((b best : ℕ) → Reports info b best → ⊥) × Answering (λ h. ⊥) peers

answered-All :
    (P : ℕ → Type 0) (peers : List (Option ℕ)) → All P (answered peers) → Answering P peers
answered-All P [] a = tt
answered-All P (none ∷ peers) a = answered-All P peers a
answered-All P (some h ∷ peers) a = (a.0, answered-All P peers a.1)

Answering-All :
    (P : ℕ → Type 0) (peers : List (Option ℕ)) → Answering P peers → All P (answered peers)
Answering-All P [] a = tt
Answering-All P (none ∷ peers) a = Answering-All P peers a
Answering-All P (some h ∷ peers) a = (a.0, Answering-All P peers a.1)

own_report-Reports :
    (info : ChainInfo) (b best : ℕ) → own_report info ≡ some (b, best) → Reports info b best
own_report-Reports info b best e = by_fields info.blocks_behind info.best_peer_block_index e
  where
    by_fields :
        (o p : Option ℕ)
        → own_report (record info { blocks_behind = o; best_peer_block_index = p }) ≡ some (b, best)
        → (o ≡ some b) × (p ≡ some best) × (0 < best)
    by_fields none p k = cc
    by_fields (some n) none k = cc
    by_fields (some n) (some m) k = elim (Bool-cases (ltb 0 m)) [
      | inl heard ↦
          let k' : ◌≡◌ {A = Option (ℕ × ℕ)} (some (n, m)) (some (b, best)) = rw heard at k in
          let pair : ◌≡◌ {A = ℕ × ℕ} (n, m) (b, best) = cc in
          let first : n ≡ b = ap (λ (x : ℕ × ℕ). x.0) pair in
          let second : m ≡ best = ap (λ (x : ℕ × ℕ). x.1) pair in
          (ap some first, ap some second, ground (arith, heard, second))
      | inr unheard ↦
          let k' : ◌≡◌ {A = Option (ℕ × ℕ)} none (some (b, best)) = rw unheard at k in cc
    ]

Reports-own_report :
    (info : ChainInfo) (b best : ℕ) → Reports info b best → own_report info ≡ some (b, best)
Reports-own_report info b best h =
    let heard : ltb 0 best ≡ true = ground (arith, h.2) in rw (h.0, h.1, heard) refl

no_report : (info : ChainInfo) → own_report info ≡ none → (b best : ℕ) → Reports info b best → ⊥
no_report info e b best h =
    let clash : ◌≡◌ {A = Option (ℕ × ℕ)} none (some (b, best)) =
      sym e ∙ Reports-own_report info b best h in
    absurd cc

peers-Measured :
    (info : ChainInfo) (peers : List (Option ℕ)) (h : ℕ) (hs : List ℕ)
    → own_report info ≡ none
    → answered peers ≡ h ∷ hs
    → Measured info peers (lag info.latest_block_index (h ∷ hs))
peers-Measured info peers h hs o e =
    let least = lag_least info.latest_block_index (h ∷ hs) in
    let at = λ (k : ℕ) (x : ℕ). x ≤ info.latest_block_index + k in
    inr (
      no_report info o,
      (λ silent. (subst (All (λ (x : ℕ). ⊥)) e (Answering-All (λ x. ⊥) peers silent)).0),
      record {
        reaches =
            answered-All (at (lag info.latest_block_index (h ∷ hs))) peers
              (subst (All (at (lag info.latest_block_index (h ∷ hs)))) (sym e) least.0);
        fewest = λ k a. least.1 k (subst (All (at k)) e (Answering-All (at k) peers a));
      },
    )

compare_peers-Means :
    (info : ChainInfo) (peers : List (Option ℕ)) (tolerance : ℕ) (hs : List ℕ)
    → own_report info ≡ none
    → answered peers ≡ hs
    → Means (some info) peers tolerance (compare_peers tolerance info.latest_block_index hs)
unfolding compare_peers
compare_peers-Means info peers tolerance [] o e =
    (no_report info o, answered-All (λ h. ⊥) peers (subst (All (λ (h : ℕ). ⊥)) (sym e) tt))
compare_peers-Means info peers tolerance (h ∷ hs) o e =
    elim (Bool-cases (ltb tolerance (lag info.latest_block_index (h ∷ hs)))) [
      | inl far ↦ rw far (ground arith, refl, peers-Measured info peers h hs o e)
      | inr near ↦ rw near (ground arith, peers-Measured info peers h hs o e)
    ]

check_info-Means :
    (info : ChainInfo) (peers : List (Option ℕ)) (tolerance : ℕ) (o : Option (ℕ × ℕ))
    → own_report info ≡ o
    → Means (some info) peers tolerance (check_info info peers tolerance o)
unfolding check_info
check_info-Means info peers tolerance none e =
    compare_peers-Means info peers tolerance (answered peers) e refl
check_info-Means info peers tolerance (some (b, best)) e = elim (Bool-cases (ltb tolerance b)) [
  | inl far ↦ rw far (ground arith, refl, inl (best, own_report-Reports info b best e))
  | inr near ↦ rw near (ground arith, inl (best, own_report-Reports info b best e))
]

-- For whatever the node and its peers answer, the check calls a node in sync within the tolerance,
-- or behind beyond it, only on the node's own figure where it has heard of a peer, and else on the
-- fewest blocks that bring it level with every peer that answered, of which there is one; a node
-- that does not answer is unreachable, and with no report and no answer the check says so.
pub check-Means :
    (primary : Option ChainInfo) (peers : List (Option ℕ)) (tolerance : ℕ)
    → Means primary peers tolerance (check primary peers tolerance)
unfolding check
check-Means none peers tolerance = refl
check-Means (some info) peers tolerance =
    check_info-Means info peers tolerance (own_report info) refl
