-- ===== src/Dedup/Propagation.antt =====
-- Label propagation, python/jude/dist_cc.py: the actor `_CCShard` and the driver
-- `connected_components`. An edge table is a list of pairs; the driver's reference to one is the
-- table itself, `none` where the reducer returned none. A call of an actor that changes it returns
-- the new actor with the result.
pub mod Agreement
pub mod Snapshot
pub mod Proposals
pub mod Routing
pub mod Applied
pub mod Synchronous
pub mod Rounds
pub mod Converged
pub mod Dealt
pub mod Asked
pub mod Labels
pub mod Components
use jude.Prelude.{
  ℕ, zero, suc, ◌+◌, ◌%◌, max, Option, none, some, List, [], ◌∷◌, ◌++◌, map, replicate, get_or, set,
  get_elem?, if◌then◌else◌, ◌==◌, ltb, ◌&&◌, Dict, lookup, insert, append_to, get_default, add,
  ◌>>=◌, nat_eq,
}
use jude.Graph.{Edge}

pub record CcShard : Type 0 where
  pub sid : ℕ
  pub w : ℕ
  pub label : Dict ℕ ℕ
  pub edges : List Edge
  pub refd : Option (List ℕ)

-- __init__
abbrev pub new_shard : ℕ → ℕ → CcShard
new_shard shard_id num_shards = record {
  sid = shard_id;
  w = num_shards;
  label = [];
  edges = [];
  refd = none;
}

-- `for t in ray.get(edge_refs)`
unfoldable pub extend_edges : List (Option (List Edge)) → List Edge → List Edge
extend_edges [] edges = edges
extend_edges (none ∷ tables) edges = extend_edges tables edges
extend_edges (some t ∷ tables) edges = extend_edges tables (edges ++ t)

unfoldable pub add_edges : List (Option (List Edge)) → CcShard → CcShard
unfolding extend_edges
add_edges edge_refs s = record s { edges = extend_edges edge_refs s.edges; refd = none }

-- The set that the loop over the edges fills.
unfoldable pub endpoints : List Edge → List ℕ → List ℕ
endpoints [] rids = rids
endpoints ((a, b) ∷ edges) rids = endpoints edges (add b (add a rids))

unfoldable pub referenced_rids : CcShard → CcShard × List ℕ
unfolding endpoints
referenced_rids s = elim s.refd [
  | none ↦ let rids = endpoints s.edges [] in (record s { refd = some rids }, rids)
  | some rids ↦ (s, rids)
]

-- `self.label.get(r, r)`
unfoldable pub label_of : CcShard → ℕ → ℕ
label_of s r = get_default (lookup r s.label) r

-- `{r: self.label.get(r, r) for r in rids if r % self.w == self.sid}`, added to `d`.
unfoldable pub collect_labels : CcShard → List ℕ → Dict ℕ ℕ → Dict ℕ ℕ
unfolding label_of
collect_labels s [] d = d
collect_labels s (r ∷ rids) d =
    collect_labels s rids (if r % s.w == s.sid then insert r (label_of s r) d else d)

unfoldable pub labels_for : List ℕ → CcShard → Dict ℕ ℕ
unfolding collect_labels
labels_for rids s = collect_labels s rids []

-- `m`, of two labels.
unfoldable pub lesser : ℕ → ℕ → ℕ
lesser la lb = if ltb la lb then la else lb

-- The loop of `compute_messages`; `none` is the `KeyError` of `snapshot[a]`.
unfoldable pub propose :
    ℕ → Dict ℕ ℕ → List Edge → Dict ℕ (List (ℕ × ℕ)) → Option (Dict ℕ (List (ℕ × ℕ)))
unfolding lesser
propose w snapshot [] out = some out
propose w snapshot ((a, b) ∷ edges) out = do
  la ← lookup a snapshot
  lb ← lookup b snapshot
  propose w snapshot edges
      (append_to (b % w) (b, lesser la lb) (append_to (a % w) (a, lesser la lb) out))

unfoldable pub compute_messages : Dict ℕ ℕ → CcShard → Option (Dict ℕ (List (ℕ × ℕ)))
unfolding propose
compute_messages snapshot s = propose s.w snapshot s.edges []

-- The body of the loop of `apply`, on the label map and the count of changes.
unfoldable pub take_min : ℕ → ℕ → ℕ × ℕ → Dict ℕ ℕ × ℕ → Dict ℕ ℕ × ℕ
take_min w sid (r, m) (label, changed) =
    if (r % w == sid) && ltb m (get_default (lookup r label) r)
    then (insert r m label, changed + 1)
    else (label, changed)

unfoldable pub take_mins : ℕ → ℕ → List (ℕ × ℕ) → Dict ℕ ℕ × ℕ → Dict ℕ ℕ × ℕ
unfolding take_min
take_mins w sid [] acc = acc
take_mins w sid (message ∷ messages) acc = take_mins w sid messages (take_min w sid message acc)

unfoldable pub apply : List (ℕ × ℕ) → CcShard → CcShard × ℕ
unfolding take_mins
apply messages s =
    let (label, changed) = take_mins s.w s.sid messages (s.label, 0) in
    (record s { label = label }, changed)

-- `d.update(e)`
unfoldable pub update : Dict ℕ ℕ → Dict ℕ ℕ → Dict ℕ ℕ
update d [] = d
update d ((k, v) ∷ e) = update (insert k v d) e

-- `[_CCShard.remote(s, w) for s in range(w)]`, from `s` on.
unfoldable pub new_shards : ℕ → ℕ → ℕ → List CcShard
new_shards s zero w = []
new_shards s (suc count) w = new_shard s w ∷ new_shards (suc s) count w

-- `shards[i % w].add_edges.remote([ref])`, for the references from `i` on.
unfoldable pub distribute : ℕ → ℕ → List (Option (List Edge)) → List CcShard → List CcShard
unfolding add_edges
distribute w i [] shards = shards
distribute w i (ref ∷ edge_refs) shards =
    distribute w (suc i) edge_refs
      (set shards (i % w) (add_edges (ref ∷ []) (get_or shards (i % w) (new_shard (i % w) w))))

-- `[s.referenced_rids.remote() for s in shards]`: each shard with its set.
unfoldable pub with_refd : List CcShard → List (CcShard × List ℕ)
unfolding referenced_rids
with_refd shards = map referenced_rids shards

-- `for p in parts: snap.update(p)`
unfoldable pub merge_labels : List (Dict ℕ ℕ) → Dict ℕ ℕ → Dict ℕ ℕ
unfolding update
merge_labels [] snap = snap
merge_labels (p ∷ parts) snap = merge_labels parts (update snap p)

-- The snapshot of one shard.
unfoldable pub snapshot_for : List CcShard → List ℕ → Dict ℕ ℕ
unfolding merge_labels labels_for
snapshot_for shards [] = []
snapshot_for shards (r ∷ need) = merge_labels (map (labels_for (r ∷ need)) shards) []

-- `msg_groups`, of the shards `xs` among `shards`.
unfoldable pub message_groups :
    List CcShard → List (CcShard × List ℕ) → Option (List (Dict ℕ (List (ℕ × ℕ))))
unfolding snapshot_for compute_messages
message_groups shards [] = some []
message_groups shards ((s, need) ∷ xs) = do
  group ← compute_messages (snapshot_for shards need) s
  groups ← message_groups shards xs
  some (group ∷ groups)

-- `for owner, msgs in group.items(): per_owner[owner].extend(msgs)`
unfoldable pub route_group : Dict ℕ (List (ℕ × ℕ)) → List (List (ℕ × ℕ)) → List (List (ℕ × ℕ))
route_group [] per_owner = per_owner
route_group ((owner, msgs) ∷ group) per_owner =
    route_group group (set per_owner owner (get_or per_owner owner [] ++ msgs))

unfoldable pub route_groups :
    List (Dict ℕ (List (ℕ × ℕ))) → List (List (ℕ × ℕ)) → List (List (ℕ × ℕ))
unfolding route_group
route_groups [] per_owner = per_owner
route_groups (group ∷ groups) per_owner = route_groups groups (route_group group per_owner)

-- `sum(ray.get([shards[o].apply.remote(per_owner[o]) for o in range(w)]))`, from `o` on.
unfoldable pub apply_all :
    ℕ → List (List (ℕ × ℕ)) → List (CcShard × List ℕ) → List (CcShard × List ℕ) × ℕ
unfolding apply
apply_all o per_owner [] = ([], 0)
apply_all o per_owner ((s, need) ∷ xs) =
    let (s', c) = apply (get_or per_owner o []) s in
    let (xs', changed) = apply_all (suc o) per_owner xs in ((s', need) ∷ xs', c + changed)

abbrev pub shards_of : List (CcShard × List ℕ) → List CcShard
shards_of xs = map (λ x. x.0) xs

-- One round of the loop.
unfoldable pub propagate : ℕ → List (CcShard × List ℕ) → Option (List (CcShard × List ℕ) × ℕ)
unfolding message_groups route_groups apply_all
propagate w xs = do
  groups ← message_groups (shards_of xs) xs
  some (apply_all 0 (route_groups groups (replicate w [])) xs)

-- `for _ in range(max_rounds)`, with its `break`.
unfoldable pub propagate_rounds : ℕ → ℕ → List (CcShard × List ℕ) → Option (List (CcShard × List ℕ))
unfolding propagate
propagate_rounds zero w xs = some xs
propagate_rounds (suc rounds) w xs = do
  (xs', changed) ← propagate w xs
  elim changed [ zero ↦ some xs' | suc _ ↦ propagate_rounds rounds w xs' ]

unfoldable pub connected_components : ℕ → ℕ → List (Option (List Edge)) → Option (Dict ℕ ℕ)
unfolding new_shards distribute with_refd propagate_rounds merge_labels
connected_components num_workers max_rounds edge_refs =
    let w = max 1 num_workers in
    do
      xs ← propagate_rounds max_rounds w (with_refd (distribute w 0 edge_refs (new_shards 0 w w)))
      some (merge_labels (map (λ s. s.label) (shards_of xs)) [])
