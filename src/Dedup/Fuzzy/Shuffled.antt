-- ===== src/Dedup/Fuzzy/Shuffled.antt =====
-- What the buckets of the shuffle hold: for each row of the table, its row under each band key.
use jude.Prelude.{
  ℕ, suc, ◌+◌, ◌-◌, ◌<◌, ◌≡◌, refl, sym, ◌∙◌, ◌⊎◌, inl, inr, some, List, [], ◌∷◌, ◌++◌, length,
  concat, get_elem?, arith, Memᴰ, subst, dec_lt, get_elem?-append_left, get_elem?-append_right,
  get_elem?-lt,
}
use jude.Dedup.Shuffle.{no_rows, InBucket, InBucket-no_rows, length-no_rows}
use jude.Dedup.FuzzyEdges.{Row}
use jude.Dedup.Fuzzy.{Key, route_rows, curate_minhash_edges, produce}
use jude.Dedup.Fuzzy.Producer.{
  keys_of, Routed, length-route_keys, route_keys-origin, route_rows-Routed,
}

module _ {Text Sig : Type 0} (signature : Text → Sig) (band_keys : Sig → List Key) where
  -- The row of the shuffle comes from a row of the table, whose first row has the id `rid`.
  pub record Origin (rid : ℕ) (texts : List Text) (r : Row Key Sig) : Type 0 where
    pub index : ℕ
    pub text : Text
    pub at : get_elem? texts index ≡ some text
    pub numbered : r.rid ≡ rid + index
    pub signed : r.sig ≡ signature text
    pub keyed : Memᴰ r.key (keys_of signature band_keys r.rid text)

  module _ (b : ℕ) (pos : 0 < b) where
    route_rows-Origin :
        (rid : ℕ) (texts : List Text) (bs : List (List (Row Key Sig))) (j : ℕ) {r : Row Key Sig}
        → length bs ≡ b
        → InBucket j r (route_rows signature band_keys b rid texts bs)
        → Origin rid texts r ⊎ InBucket j r bs
    unfolding route_rows
    route_rows-Origin rid [] bs j e m = inr m
    route_rows-Origin rid (t ∷ texts) bs j {r} e m =
        let keys = keys_of signature band_keys rid t in
        let size = length-route_keys b pos rid (signature t) keys [] bs ∙ e in
        elim (route_rows-Origin (suc rid) texts _ j size m) [
          | inl o ↦ inl (record {
            index = suc o.index;
            text = o.text;
            at = o.at;
            numbered = omega (arith, o.numbered);
            signed = o.signed;
            keyed = o.keyed;
          })
          | inr l ↦ elim (route_keys-origin b pos rid (signature t) keys [] bs j e l) [
            | inl (named, signed, keyed) ↦ inl (record {
              index = 0;
              text = t;
              at = refl;
              numbered = omega arith;
              signed = signed;
              keyed = subst (λ v. Memᴰ r.key (keys_of signature band_keys v t)) (sym named) keyed;
            })
            | inr old ↦ inr old
          ]
        ]

    pub produce-Origin :
        (rid : ℕ) (parts : List (List Text)) (out : List (List (Row Key Sig))) (j : ℕ)
        {r : Row Key Sig}
        → Memᴰ out (produce signature band_keys b rid parts)
        → InBucket j r out
        → Origin rid (concat parts) r
    unfolding produce curate_minhash_edges
    produce-Origin rid [] out j k m = elim k [ ]
    produce-Origin rid (part ∷ parts) out j {r} (Memᴰ.head e) m =
        elim (route_rows-Origin rid part (no_rows b) j (length-no_rows (Row Key Sig) b)
          (subst (λ v. InBucket j r v) e m)) [
            | inl o ↦ record {
              index = o.index;
              text = o.text;
              at =
                  get_elem?-append_left part (concat parts) o.index (get_elem?-lt part o.index o.at)
                  ∙ o.at;
              numbered = o.numbered;
              signed = o.signed;
              keyed = o.keyed;
            }
            | inr none_yet ↦ absurd (InBucket-no_rows b j none_yet)
          ]
    produce-Origin rid (part ∷ parts) out j {r} (Memᴰ.tail k) m =
        let o = produce-Origin (rid + length part) parts out j k m in
        record {
          index = length part + o.index;
          text = o.text;
          at = get_elem?-append_right part (concat parts) o.index ∙ o.at;
          numbered = omega (arith, o.numbered);
          signed = o.signed;
          keyed = o.keyed;
        }

    -- The output of some part has the row of the table under the key.
    pub produce-Routed :
        (rid : ℕ) (parts : List (List Text)) (i : ℕ) {t : Text} {k : Key}
        → get_elem? (concat parts) i ≡ some t
        → Memᴰ k (keys_of signature band_keys (rid + i) t)
        → (out : List (List (Row Key Sig))) × Memᴰ out (produce signature band_keys b rid parts)
          × Routed b pos (rid + i) (signature t) k out
    unfolding produce curate_minhash_edges
    produce-Routed rid [] i g m = cc
    produce-Routed rid (part ∷ parts) i {t} {k} g m = elim (dec_lt i (length part)) [
      | yes l ↦ (
        _,
        Memᴰ.head refl,
        route_rows-Routed signature band_keys b pos rid part (no_rows b) i
            (length-no_rows (Row Key Sig) b)
            (sym (get_elem?-append_left part (concat parts) i l) ∙ g) m,
      )
      | no n ↦
          let q : i ≡ length part + (i - length part) = omega arith in
          let z : rid + length part + (i - length part) ≡ rid + i = omega arith in
          let (out, l, h) =
            produce-Routed (rid + length part) parts (i - length part)
              (sym (get_elem?-append_right part (concat parts) (i - length part))
                ∙ subst (λ v. get_elem? (part ++ concat parts) v ≡ some t) q g)
              (subst (λ v. Memᴰ k (keys_of signature band_keys v t)) (sym z) m) in
          (out, Memᴰ.tail l, subst (λ v. Routed b pos v (signature t) k out) z h)
    ]
