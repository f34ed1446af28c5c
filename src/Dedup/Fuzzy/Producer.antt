-- ===== src/Dedup/Fuzzy/Producer.antt =====
-- Where the producer sends the rows of a part: one row of the shuffle for each band key.
use jude.Prelude.{
  ℕ, zero, suc, ◌+◌, ◌%◌, ◌<◌, ◌≡◌, refl, sym, ap, ◌∙◌, ◌⊎◌, inl, inr, some, List, [], ◌∷◌, length,
  get_elem?, arith, Memᴰ, Memᴰ-cons, subst, subst₂, true, false, if◌then◌else◌, Bool-cases,
  contains, Memᴰ_of_contains, nat_eq, list_eq, pair_eq, mod-lt,
}
use jude.Dedup.Shuffle.{
  det_hash, push, InBucket, length-push, InBucket-push_self, InBucket-push_old, InBucket-push,
}
use jude.Dedup.FuzzyEdges.{Row}
use jude.Dedup.Fuzzy.{Key, keys_or_own, route_keys, route_rows}

-- A number reduced to a bucket is one.
bucket-lt : (b : ℕ) → 0 < b → (key : Key) → det_hash key % b < b
bucket-lt b pos key = mod-lt (det_hash key) pos

module _ {Sig : Type 0} (b : ℕ) (pos : 0 < b) where
  -- The bucket of the key holds the row of the key.
  abbrev pub Routed : ℕ → Sig → Key → List (List (Row Key Sig)) → Type 0
  Routed rid sig key buckets =
      InBucket (det_hash key % b) (record { rid = rid; key = key; sig = sig }) buckets

  pub route_keys-old :
      (rid : ℕ) (sig : Sig) (keys : List Key) (seen : List (ℕ × Key))
      (bs : List (List (Row Key Sig))) (j : ℕ) {r : Row Key Sig}
      → length bs ≡ b
      → InBucket j r bs
      → InBucket j r (route_keys b rid sig keys seen bs)
  unfolding route_keys
  route_keys-old rid sig [] seen bs j e m = m
  route_keys-old rid sig (key ∷ keys) seen bs j e m =
      elim (Bool-cases (contains (det_hash key % b, key) seen)) [
        | inl y ↦ rw y (route_keys-old rid sig keys seen bs j e m)
        | inr n ↦ rw n (
            route_keys-old rid sig keys _ _ j (length-push _ _ bs ∙ e) (
              InBucket-push_old _ _ bs j
                (subst (λ v. det_hash key % b < v) (sym e) (bucket-lt b pos key)) m))
      ]

  pub length-route_keys :
      (rid : ℕ) (sig : Sig) (keys : List Key) (seen : List (ℕ × Key))
      (bs : List (List (Row Key Sig)))
      → length (route_keys b rid sig keys seen bs) ≡ length bs
  unfolding route_keys
  length-route_keys rid sig [] seen bs = refl
  length-route_keys rid sig (key ∷ keys) seen bs =
      elim (Bool-cases (contains (det_hash key % b, key) seen)) [
        | inl y ↦ rw y (length-route_keys rid sig keys seen bs)
        | inr n ↦ rw n (length-route_keys rid sig keys _ _ ∙ length-push _ _ bs)
      ]

  -- Every key of the row is routed, if those that were seen have been.
  route_keys-Routed :
      (rid : ℕ) (sig : Sig) (keys : List Key) (seen : List (ℕ × Key))
      (bs : List (List (Row Key Sig))) {k : Key}
      → length bs ≡ b
      → ((p : ℕ × Key) → Memᴰ p seen → Routed rid sig p.1 bs)
      → Memᴰ k keys
      → Routed rid sig k (route_keys b rid sig keys seen bs)
  unfolding route_keys
  route_keys-Routed rid sig [] seen bs e h m = elim m [ ]
  route_keys-Routed rid sig (key ∷ keys) seen bs {k} e h m =
      elim (Bool-cases (contains (det_hash key % b, key) seen)) [
        | inl y ↦ rw y (elim (Memᴰ-cons m) [
          | inl q ↦
              route_keys-old rid sig keys seen bs (det_hash k % b) e
                (subst (λ v. Routed rid sig v bs) (sym q) (h _ (Memᴰ_of_contains _ seen y)))
          | inr t ↦ route_keys-Routed rid sig keys seen bs e h t
        ])
        | inr n ↦
            let bkt = det_hash key % b in
            let row : Row Key Sig = record { rid = rid; key = key; sig = sig } in
            let fits : bkt < length bs = subst (λ v. bkt < v) (sym e) (bucket-lt b pos key) in
            let here : Routed rid sig key (push bkt row bs) = InBucket-push_self bkt row bs fits in
            let size = length-push bkt row bs ∙ e in
            rw n (elim (Memᴰ-cons m) [
              | inl q ↦
                  route_keys-old rid sig keys _ _ (det_hash k % b) size
                    (subst (λ v. Routed rid sig v (push bkt row bs)) (sym q) here)
              | inr t ↦
                  route_keys-Routed rid sig keys ((bkt, key) ∷ seen) (push bkt row bs) size
                    (λ p l. elim (Memᴰ-cons l) [
                      | inl q ↦
                          subst (λ (v : ℕ × Key). Routed rid sig v.1 (push bkt row bs)) (sym q) here
                      | inr l' ↦ InBucket-push_old bkt row bs _ fits (h p l')
                    ])
                    t
            ])
      ]

  -- A row that the loop has put into a bucket is the row of one of its keys.
  pub route_keys-origin :
      (rid : ℕ) (sig : Sig) (keys : List Key) (seen : List (ℕ × Key))
      (bs : List (List (Row Key Sig))) (j : ℕ) {r : Row Key Sig}
      → length bs ≡ b
      → InBucket j r (route_keys b rid sig keys seen bs)
      → ((r.rid ≡ rid) × (r.sig ≡ sig) × Memᴰ r.key keys) ⊎ InBucket j r bs
  unfolding route_keys
  route_keys-origin rid sig [] seen bs j e m = inr m
  route_keys-origin rid sig (key ∷ keys) seen bs j {r} e m =
      elim (contains (det_hash key % b, key) seen)
          as (λ c.
            InBucket j r (
              if c
              then route_keys b rid sig keys seen bs
              else route_keys b rid sig keys ((det_hash key % b, key) ∷ seen)
                  (push (det_hash key % b) row bs))
            → ((r.rid ≡ rid) × (r.sig ≡ sig) × Memᴰ r.key (key ∷ keys)) ⊎ InBucket j r bs) [
              | true ↦ λ l. elim (route_keys-origin rid sig keys seen bs j e l) [
                | inl (a, c, d) ↦ inl (a, c, Memᴰ.tail d)
                | inr old ↦ inr old
              ]
              | false ↦ λ l.
                  elim (route_keys-origin rid sig keys _ _ j (length-push _ row bs ∙ e) l) [
                    | inl (a, c, d) ↦ inl (a, c, Memᴰ.tail d)
                    | inr old ↦ elim (InBucket-push _ row bs j fits old) [
                      | inl (q, p) ↦ inl (
                        ap (λ (v : Row Key Sig). v.rid) p,
                        ap (λ (v : Row Key Sig). v.sig) p,
                        Memᴰ.head (ap (λ (v : Row Key Sig). v.key) p),
                      )
                      | inr before ↦ inr before
                    ]
                  ]
            ]
        m
    where
      row : Row Key Sig
      row = record { rid = rid; key = key; sig = sig }

      fits : det_hash key % b < length bs
      fits = subst (λ v. det_hash key % b < v) (sym e) (bucket-lt b pos key)

module _ {Text Sig : Type 0} (signature : Text → Sig) (band_keys : Sig → List Key) where
  -- The band keys under which the row `rid` is shuffled.
  abbrev pub keys_of : ℕ → Text → List Key
  keys_of rid text = keys_or_own rid (band_keys (signature text))

  module _ (b : ℕ) (pos : 0 < b) where
    pub length-route_rows :
        (rid : ℕ) (texts : List Text) (bs : List (List (Row Key Sig)))
        → length (route_rows signature band_keys b rid texts bs) ≡ length bs
    unfolding route_rows
    length-route_rows rid [] bs = refl
    length-route_rows rid (t ∷ texts) bs =
        length-route_rows (suc rid) texts _
        ∙ length-route_keys b pos rid (signature t) (keys_of rid t) [] bs

    route_rows-old :
        (rid : ℕ) (texts : List Text) (bs : List (List (Row Key Sig))) (j : ℕ) {r : Row Key Sig}
        → length bs ≡ b
        → InBucket j r bs
        → InBucket j r (route_rows signature band_keys b rid texts bs)
    unfolding route_rows
    route_rows-old rid [] bs j e m = m
    route_rows-old rid (t ∷ texts) bs j e m =
        route_rows-old (suc rid) texts _ j
          (length-route_keys b pos rid (signature t) (keys_of rid t) [] bs ∙ e)
          (route_keys-old b pos rid (signature t) (keys_of rid t) [] bs j e m)

    pub route_rows-Routed :
        (rid : ℕ) (texts : List Text) (bs : List (List (Row Key Sig))) (i : ℕ) {t : Text} {k : Key}
        → length bs ≡ b
        → get_elem? texts i ≡ some t
        → Memᴰ k (keys_of (rid + i) t)
        → Routed b pos (rid + i) (signature t) k (route_rows signature band_keys b rid texts bs)
    unfolding route_rows
    route_rows-Routed rid [] bs i e g m = cc
    route_rows-Routed rid (u ∷ texts) bs zero {t} {k} e g m =
        let q : u ≡ t = ground arith in
        let z : rid ≡ rid + 0 = omega arith in
        subst₂
          (λ v w.
            Memᴰ k (keys_of v w)
            → Routed b pos v (signature w) k (
                route_rows signature band_keys b (suc rid) texts
                  (route_keys b rid (signature u) (keys_of rid u) [] bs)))
          z q
          (λ n.
            route_rows-old (suc rid) texts _ _
              (length-route_keys b pos rid (signature u) (keys_of rid u) [] bs ∙ e)
              (route_keys-Routed b pos rid (signature u) (keys_of rid u) [] bs e
                (λ p l. absurd (elim l [ ])) n))
          m
    route_rows-Routed rid (u ∷ texts) bs (suc i) {t} {k} e g m =
        let z : suc rid + i ≡ rid + suc i = omega arith in
        let size = length-route_keys b pos rid (signature u) (keys_of rid u) [] bs ∙ e in
        subst
          (λ v.
            Memᴰ k (keys_of v t)
            → Routed b pos v (signature t) k (
                route_rows signature band_keys b (suc rid) texts
                  (route_keys b rid (signature u) (keys_of rid u) [] bs)))
          z (λ n. route_rows-Routed (suc rid) texts _ i size g n) m
