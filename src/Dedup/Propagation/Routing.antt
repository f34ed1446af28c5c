-- ===== src/Dedup/Propagation/Routing.antt =====
-- The driver's routing of the messages to their shards.
use jude.Prelude.{
  ℕ, zero, suc, ◌≡◌, ◌<◌, refl, sym, ◌⊎◌, inl, inr, List, [], ◌∷◌, ◌++◌, arith, length, get_or, set,
  Memᴰ, Dict, nat_eq, subst, ap, ◌∙◌, InGroup, first, later, Memᴰ-append, Memᴰ-append_left,
  Memᴰ-append_right, length-set,
}
use jude.Dedup.Propagation.{route_group, route_groups}

-- The messages for the shard `o`.
abbrev pub For : ℕ → ℕ × ℕ → List (List (ℕ × ℕ)) → Type 0
For o p per_owner = Memᴰ p (get_or per_owner o [])

extend-For_old :
    (o k : ℕ) {p : ℕ × ℕ} (msgs : List (ℕ × ℕ)) (bs : List (List (ℕ × ℕ)))
    → For o p bs
    → For o p (set bs k (get_or bs k [] ++ msgs))
extend-For_old o k msgs [] m = m
extend-For_old zero zero msgs (b ∷ bs) m = Memᴰ-append_left msgs m
extend-For_old zero (suc k) msgs (b ∷ bs) m = m
extend-For_old (suc o) zero msgs (b ∷ bs) m = m
extend-For_old (suc o) (suc k) msgs (b ∷ bs) m = extend-For_old o k msgs bs m

extend-For_new :
    (o : ℕ) {p : ℕ × ℕ} (msgs : List (ℕ × ℕ)) (bs : List (List (ℕ × ℕ)))
    → o < length bs
    → Memᴰ p msgs
    → For o p (set bs o (get_or bs o [] ++ msgs))
extend-For_new o msgs [] h m = elim h [ ]
extend-For_new zero msgs (b ∷ bs) h m = Memᴰ-append_right b m
extend-For_new (suc o) msgs (b ∷ bs) h m = extend-For_new o msgs bs (omega arith) m

extend-For :
    (o k : ℕ) {p : ℕ × ℕ} (msgs : List (ℕ × ℕ)) (bs : List (List (ℕ × ℕ)))
    → For o p (set bs k (get_or bs k [] ++ msgs))
    → For o p bs ⊎ ((k ≡ o) × Memᴰ p msgs)
extend-For o k msgs [] m = inl m
extend-For zero zero msgs (b ∷ bs) m = elim (Memᴰ-append b m) [
  | inl l ↦ inl l
  | inr r ↦ inr (refl, r)
]
extend-For zero (suc k) msgs (b ∷ bs) m = inl m
extend-For (suc o) zero msgs (b ∷ bs) m = inl m
extend-For (suc o) (suc k) msgs (b ∷ bs) m = elim (extend-For o k msgs bs m) [
  | inl l ↦ inl l
  | inr r ↦ inr (ap suc r.0, r.1)
]

route_group-For_old :
    (o : ℕ) {p : ℕ × ℕ} (group : Dict ℕ (List (ℕ × ℕ))) (bs : List (List (ℕ × ℕ)))
    → For o p bs
    → For o p (route_group group bs)
unfolding route_group
route_group-For_old o [] bs m = m
route_group-For_old o ((k, msgs) ∷ group) bs m =
    route_group-For_old o group _ (extend-For_old o k msgs bs m)

route_group-For_new :
    (o : ℕ) {p : ℕ × ℕ} (group : Dict ℕ (List (ℕ × ℕ))) (bs : List (List (ℕ × ℕ)))
    → o < length bs
    → InGroup o p group
    → For o p (route_group group bs)
unfolding route_group
route_group-For_new o [] bs h i = elim i [ ]
route_group-For_new o {p} ((k, msgs) ∷ group) bs h (first e m) = route_group-For_old o group _ (
    subst (λ v. For o p (set bs v (get_or bs v [] ++ msgs))) (sym e) (extend-For_new o msgs bs h m))
route_group-For_new o ((k, msgs) ∷ group) bs h (later i) =
    route_group-For_new o group _ (omega (arith, length-set bs k (get_or bs k [] ++ msgs))) i

route_group-For :
    (o : ℕ) {p : ℕ × ℕ} (group : Dict ℕ (List (ℕ × ℕ))) (bs : List (List (ℕ × ℕ)))
    → For o p (route_group group bs)
    → For o p bs ⊎ InGroup o p group
unfolding route_group
route_group-For o [] bs m = inl m
route_group-For o ((k, msgs) ∷ group) bs m = elim (route_group-For o group _ m) [
  | inr i ↦ inr (later i)
  | inl old ↦ elim (extend-For o k msgs bs old) [ inl l ↦ inl l | inr r ↦ inr (first r.0 r.1) ]
]

length-route_group :
    (group : Dict ℕ (List (ℕ × ℕ))) (bs : List (List (ℕ × ℕ)))
    → length (route_group group bs) ≡ length bs
unfolding route_group
length-route_group [] bs = refl
length-route_group ((k, msgs) ∷ group) bs =
    length-route_group group _ ∙ length-set bs k (get_or bs k [] ++ msgs)

pub route_groups-For_old :
    (o : ℕ) {p : ℕ × ℕ} (groups : List (Dict ℕ (List (ℕ × ℕ)))) (bs : List (List (ℕ × ℕ)))
    → For o p bs
    → For o p (route_groups groups bs)
unfolding route_groups
route_groups-For_old o [] bs m = m
route_groups-For_old o (group ∷ groups) bs m =
    route_groups-For_old o groups _ (route_group-For_old o group bs m)

-- A message reaches the shard of its group.
pub route_groups-For_new :
    (o : ℕ) {p : ℕ × ℕ} {group : Dict ℕ (List (ℕ × ℕ))} (groups : List (Dict ℕ (List (ℕ × ℕ))))
    (bs : List (List (ℕ × ℕ)))
    → o < length bs
    → Memᴰ group groups
    → InGroup o p group
    → For o p (route_groups groups bs)
unfolding route_groups
route_groups-For_new o [] bs h m i = elim m [ ]
route_groups-For_new o {p} (g ∷ groups) bs h (Memᴰ.head e) i =
    route_groups-For_old o groups _ (route_group-For_new o g bs h (subst (InGroup o p) e i))
route_groups-For_new o (g ∷ groups) bs h (Memᴰ.tail m) i =
    route_groups-For_new o groups _ (omega (arith, length-route_group g bs)) m i

-- A shard is sent nothing else.
pub route_groups-For :
    (o : ℕ) {p : ℕ × ℕ} (groups : List (Dict ℕ (List (ℕ × ℕ)))) (bs : List (List (ℕ × ℕ)))
    → For o p (route_groups groups bs)
    → For o p bs ⊎ ((group : Dict ℕ (List (ℕ × ℕ))) × Memᴰ group groups × InGroup o p group)
unfolding route_groups
route_groups-For o [] bs m = inl m
route_groups-For o (g ∷ groups) bs m = elim (route_groups-For o groups _ m) [
  | inr i ↦ inr (i.0, Memᴰ.tail i.1, i.2)
  | inl old ↦ elim (route_group-For o g bs old) [
    | inl l ↦ inl l
    | inr i ↦ inr (g, Memᴰ.head refl, i)
  ]
]
