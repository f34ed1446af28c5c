-- ===== src/Dedup/Substring/Duplicates.antt =====
-- What the reducer of the substring dedup reports: `curate_substring_dups_bucket` of
-- python/jude/runners/_ray_shim.py.
use jude.Prelude.{
  ℕ, ◌≡◌, ◌≢◌, refl, sym, ap₂, ◌∙◌, subst, ◌⊎◌, ◌↔◌, ℕ_discrete, if◌then◌else◌, inl, inr, true,
  false, List, [], ◌∷◌, arith, Memᴰ, Memᴰ-append, Memᴰ-append_left, Memᴰ-append_right, Memᴰ-single,
  Dict, append_to, nat_eq, pair_eq, ◌=?◌, eq_of_=?, =?_of_eq, Bool-cases, InGroup, first, later,
  InGroup-append_to, InGroup-append_to_self, InGroup-append_to_old, IsDistinct,
  append_to-IsDistinct,
}
use jude.Dedup.Substring.{
  Window, earlier, earliest, others, duplicates_of, all_duplicates, group_windows,
  curate_substring_dups_bucket,
}

abbrev pub Place : Type 0
Place = ℕ × ℕ

-- The places are ordered.
earlier_irrefl : (x : Place) → earlier x x ≡ false
unfolding earlier
earlier_irrefl (d, p) = ground arith

earlier_trans : (x y z : Place) → earlier y x ≡ false → earlier z y ≡ false → earlier z x ≡ false
unfolding earlier
earlier_trans (d, p) (e, q) (f, r) h k = ground arith

earlier_asym : (x y : Place) → earlier x y ≡ true → earlier y x ≡ false
unfolding earlier
earlier_asym (d, p) (e, q) h = ground arith

earlier_total : (x y : Place) → x ≢ y → earlier y x ≡ false → earlier x y ≡ true
unfolding earlier
earlier_total (d, p) (e, q) n h = elim (ℕ_discrete d e) [
  | yes a ↦ elim (ℕ_discrete p q) [
    | yes b ↦ absurd (n (ap₂ (λ u v. (u, v)) a b))
    | no b ↦ ground arith
  ]
  | no a ↦ ground arith
]

-- The keeper stands in the group, and nothing in it is earlier.
earliest-mem : (best : Place) (occs : List Place) → Memᴰ (earliest best occs) (best ∷ occs)
unfolding earliest
earliest-mem best [] = Memᴰ.head refl
earliest-mem best (occ ∷ occs) = elim (Bool-cases (earlier occ best)) [
  | inl y ↦ rw y (Memᴰ.tail (earliest-mem occ occs))
  | inr n ↦ rw n (deeper (earliest-mem best occs))
]
  where
    deeper : {x : Place} → Memᴰ x (best ∷ occs) → Memᴰ x (best ∷ occ ∷ occs)
    deeper (Memᴰ.head e) = Memᴰ.head e
    deeper (Memᴰ.tail m) = Memᴰ.tail (Memᴰ.tail m)

-- Least of the places that are left is least of all, whichever place is kept.
least_newer :
    (best occ r : Place) (occs : List Place) {x : Place}
    → ((y : Place) → Memᴰ y (occ ∷ occs) → earlier y r ≡ false)
    → earlier occ best ≡ true
    → Memᴰ x (best ∷ occ ∷ occs)
    → earlier x r ≡ false
least_newer best occ r occs least y (Memᴰ.head e) =
    subst (λ v. earlier v r ≡ false) (sym e)
      (earlier_trans r occ best (least occ (Memᴰ.head refl)) (earlier_asym occ best y))
least_newer best occ r occs least y (Memᴰ.tail m) = least _ m

least_older :
    (best occ r : Place) (occs : List Place) {x : Place}
    → ((y : Place) → Memᴰ y (best ∷ occs) → earlier y r ≡ false)
    → earlier occ best ≡ false
    → Memᴰ x (best ∷ occ ∷ occs)
    → earlier x r ≡ false
least_older best occ r occs least n (Memᴰ.head e) = least _ (Memᴰ.head e)
least_older best occ r occs least n (Memᴰ.tail (Memᴰ.head e)) =
    subst (λ v. earlier v r ≡ false) (sym e)
      (earlier_trans r best occ (least best (Memᴰ.head refl)) n)
least_older best occ r occs least n (Memᴰ.tail (Memᴰ.tail m)) = least _ (Memᴰ.tail m)

earliest-least :
    (best : Place) (occs : List Place) (x : Place)
    → Memᴰ x (best ∷ occs)
    → earlier x (earliest best occs) ≡ false
unfolding earliest
earliest-least best [] x m =
    subst (λ v. earlier v best ≡ false) (sym (Memᴰ-single m)) (earlier_irrefl best)
earliest-least best (occ ∷ occs) x m = elim (Bool-cases (earlier occ best)) [
  | inl y ↦
      rw (y, earliest) (least_newer best occ (earliest occ occs) occs (earliest-least occ occs) y m)
  | inr n ↦
      rw (n, earliest)
        (least_older best occ (earliest best occs) occs (earliest-least best occs) n m)
]

-- The others are the places of the group that differ from the keeper.
others-mem :
    (keeper : Place) (occs : List Place) {x : Place}
    → Memᴰ x (others keeper occs)
    → Memᴰ x occs × (x ≢ keeper)
unfolding others
others-mem keeper [] m = elim m [ ]
others-mem keeper (occ ∷ occs) {x} m =
    elim (occ =? keeper)
        as (λ c.
          (occ =? keeper) ≡ c
          → Memᴰ x (if c then others keeper occs else occ ∷ others keeper occs)
          → Memᴰ x (occ ∷ occs) × (x ≢ keeper)) [
            | true ↦ λ y m. (Memᴰ.tail (others-mem keeper occs m).0, (others-mem keeper occs m).1)
            | false ↦ λ n m. elim m [
              | Memᴰ.head e ↦ (Memᴰ.head e, λ q. cc (=?_of_eq (sym e ∙ q)))
              | Memᴰ.tail m ↦ (Memᴰ.tail (others-mem keeper occs m).0, (others-mem keeper occs m).1)
            ]
          ]
      refl m

mem-others :
    (keeper : Place) (occs : List Place) {x : Place}
    → Memᴰ x occs
    → x ≢ keeper
    → Memᴰ x (others keeper occs)
unfolding others
mem-others keeper [] m n = elim m [ ]
mem-others keeper (occ ∷ occs) {x} (Memᴰ.head e) n = elim (Bool-cases (occ =? keeper)) [
  | inl y ↦ absurd (n (e ∙ eq_of_=? y))
  | inr f ↦ rw f (Memᴰ.head e)
]
mem-others keeper (occ ∷ occs) {x} (Memᴰ.tail m) n = elim (Bool-cases (occ =? keeper)) [
  | inl y ↦ rw y (mem-others keeper occs m n)
  | inr f ↦ rw f (Memᴰ.tail (mem-others keeper occs m n))
]

-- What is reported of a group: a place of it with an earlier one in it.
duplicates_of-mem :
    (occs : List Place) (x : Place)
    → Memᴰ x (duplicates_of occs)
    → Memᴰ x occs × ((y : Place) × Memᴰ y occs × (earlier y x ≡ true))
unfolding duplicates_of
duplicates_of-mem [] x m = elim m [ ]
duplicates_of-mem (occ ∷ []) x m = elim m [ ]
duplicates_of-mem (occ ∷ occ' ∷ occs) x m =
    let k = earliest occ (occ' ∷ occs) in
    let (i, n) = others-mem k (occ ∷ occ' ∷ occs) m in
    (
      i,
      (
        k,
        earliest-mem occ (occ' ∷ occs),
        earlier_total k x (λ e. n (sym e)) (earliest-least occ (occ' ∷ occs) x i),
      ),
    )

mem-duplicates_of :
    (occs : List Place) (x y : Place)
    → Memᴰ x occs
    → Memᴰ y occs
    → earlier y x ≡ true
    → Memᴰ x (duplicates_of occs)
unfolding duplicates_of
mem-duplicates_of [] x y m i e = elim m [ ]
mem-duplicates_of (occ ∷ []) x y m i e =
    let same : earlier y x ≡ earlier occ occ = ap₂ earlier (Memᴰ-single i) (Memᴰ-single m) in
    let irrefl = earlier_irrefl occ in absurd (cc)
mem-duplicates_of (occ ∷ occ' ∷ occs) x y m i e = mem-others _ (occ ∷ occ' ∷ occs) m (λ q.
    let least : earlier y x ≡ false =
      subst (λ v. earlier y v ≡ false) (sym q) (earliest-least occ (occ' ∷ occs) y i) in
    absurd (cc))

-- A window of the hash `h` that starts at the place `x`.
abbrev pub window : ℕ → Place → Window
window h x = record { h = h; doc = x.0; pos = x.1 }

-- The dictionary holds each window at its hash.
grouped :
    (wins : List Window) (d : Dict ℕ (List Place)) {h : ℕ} {x : Place}
    → InGroup h x (group_windows wins d)
    → Memᴰ (window h x) wins ⊎ InGroup h x d
unfolding group_windows
grouped [] d m = inr m
grouped (win ∷ wins) d m = elim (grouped wins _ m) [
  | inl i ↦ inl (Memᴰ.tail i)
  | inr i ↦ elim (InGroup-append_to win.h (win.doc, win.pos) d i) [
    | inl e ↦ inl (Memᴰ.head (ap₂ window (sym e.0) e.1))
    | inr old ↦ inr old
  ]
]

kept_grouped :
    (wins : List Window) (d : Dict ℕ (List Place)) {h : ℕ} {x : Place}
    → InGroup h x d
    → InGroup h x (group_windows wins d)
unfolding group_windows
kept_grouped [] d m = m
kept_grouped (win ∷ wins) d m =
    kept_grouped wins _ (InGroup-append_to_old win.h (win.doc, win.pos) d m)

mem-grouped :
    (wins : List Window) (d : Dict ℕ (List Place)) {h : ℕ} {x : Place}
    → Memᴰ (window h x) wins
    → InGroup h x (group_windows wins d)
unfolding group_windows
mem-grouped [] d m = elim m [ ]
mem-grouped (win ∷ wins) d {h} {x} (Memᴰ.head e) = kept_grouped wins _ (
    subst (λ v. InGroup h x (append_to (Window.h v) (Window.doc v, Window.pos v) d)) e
      (InGroup-append_to_self h x d))
mem-grouped (win ∷ wins) d (Memᴰ.tail m) = mem-grouped wins _ m

grouped-IsDistinct :
    (wins : List Window) (d : Dict ℕ (List Place))
    → IsDistinct d
    → IsDistinct (group_windows wins d)
unfolding group_windows
grouped-IsDistinct [] d h = h
grouped-IsDistinct (win ∷ wins) d h =
    grouped-IsDistinct wins _ (append_to-IsDistinct win.h (win.doc, win.pos) d h)

-- A place with an earlier one in a group.
abbrev Follows : Dict ℕ (List Place) → Place → Type 0
Follows d x = (h : ℕ) × (y : Place) × InGroup h x d × InGroup h y d × (earlier y x ≡ true)

all_duplicates-Follows :
    (d : Dict ℕ (List Place)) (x : Place) → Memᴰ x (all_duplicates d) → Follows d x
unfolding all_duplicates
all_duplicates-Follows [] x m = elim m [ ]
all_duplicates-Follows ((h, occs) ∷ d) x m = elim (Memᴰ-append (duplicates_of occs) m) [
  | inl i ↦
      let (o, (y, o', e)) = duplicates_of-mem occs x i in (h, y, first refl o, first refl o', e)
  | inr i ↦ let (h', y, o, o', e) = all_duplicates-Follows d x i in (h', y, later o, later o', e)
]

mem-all_duplicates :
    (d : Dict ℕ (List Place)) {h : ℕ} (x y : Place)
    → IsDistinct d
    → InGroup h x d
    → InGroup h y d
    → earlier y x ≡ true
    → Memᴰ x (all_duplicates d)
unfolding all_duplicates
mem-all_duplicates [] x y s m i e = elim m [ ]
mem-all_duplicates ((j, occs) ∷ d) x y s (first p m) (first q i) e =
    Memᴰ-append_left (all_duplicates d) (mem-duplicates_of occs x y m i e)
mem-all_duplicates ((j, occs) ∷ d) x y s (first p m) (later i) e =
    absurd (s.0 y (subst (λ v. InGroup v y d) (sym p) i))
mem-all_duplicates ((j, occs) ∷ d) x y s (later m) (first q i) e =
    absurd (s.0 x (subst (λ v. InGroup v x d) (sym q) m))
mem-all_duplicates ((j, occs) ∷ d) x y s (later m) (later i) e =
    Memᴰ-append_right (duplicates_of occs) (mem-all_duplicates d x y s.1 m i e)

-- A window stands at `x`, and one of the same hash at an earlier place.
abbrev pub Repeats : List Window → Place → Type 0
Repeats merged x =
    (h : ℕ) × (y : Place) × Memᴰ (window h x) merged
    × Memᴰ (window h y) merged
    × (earlier y x ≡ true)

-- Whatever the order in which the windows come, the reducer reports a place if and only if a window
-- stands there and a window of the same hash stands at an earlier place.
pub curate_substring_dups_bucket-Repeats :
    (merged : List Window) (x : Place)
    → Memᴰ x (curate_substring_dups_bucket merged) ↔ Repeats merged x
unfolding curate_substring_dups_bucket
curate_substring_dups_bucket-Repeats merged x = (reports, reported)
  where
    held : {h : ℕ} {y : Place} → InGroup h y (group_windows merged []) → Memᴰ (window h y) merged
    held i = elim (grouped merged [] i) [ inl m ↦ m | inr n ↦ elim n [ ] ]

    reports : Memᴰ x (all_duplicates (group_windows merged [])) → Repeats merged x
    reports m =
        let (h, y, i, i', e) = all_duplicates-Follows (group_windows merged []) x m in
        (h, y, held i, held i', e)

    reported : Repeats merged x → Memᴰ x (all_duplicates (group_windows merged []))
    reported r =
        let (h, y, m, m', e) = r in
        mem-all_duplicates (group_windows merged []) x y (grouped-IsDistinct merged [] tt)
          (mem-grouped merged [] m) (mem-grouped merged [] m') e
