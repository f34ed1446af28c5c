-- ===== src/Dedup/Image/Pairs.antt =====
-- `curate_image_dups_bucket` of python/jude/runners/_ray_shim.py: which images its edges join.
use jude.Prelude.{
  ◌≡◌, ◌<◌, refl, sym, ap, Bool, true, List, [], ◌∷◌, length, Eq, Dict, if-elim, ltb, Memᴰ,
  Memᴰ-single, ◌∙◌, ltb→lt, arith, subst, InGroup, first, later, IsDistinct,
}
use jude.Graph.{Edge, Connected, same, Connected-mono}
use jude.Dedup.FuzzyEdges.{Row, Member, group_rows}
use jude.Dedup.FuzzyEdges.Sound.{
  Justified, AllJustified, link_pairs-Justified, Grouped, group_rows-Grouped,
}
use jude.Dedup.FuzzyEdges.Complete.{Extends, link_pairs-Extends, link_pairs-links}
use jude.Dedup.FuzzyEdges.Recall.{group_rows-groups, group_rows-IsDistinct}
use jude.Dedup.Image.{link_images, curate_image_dups_bucket}

module _ {Key Sig : Type 0} ⦃key_eq : Eq Key⦄ ⦃sig_eq : Eq Sig⦄ (close : Sig → Sig → Bool) where
  link_images-Justified :
      (rows : List (Row Key Sig)) (d : Dict Key (List (Member Key Sig))) (edges : List Edge)
      → Grouped close rows d
      → AllJustified close rows edges
      → AllJustified close rows (link_images close d edges)
  unfolding link_images
  link_images-Justified rows [] edges g all = all
  link_images-Justified rows ((key, ms) ∷ d) edges g all =
      link_images-Justified rows d _ (λ k m n. g k m (later n))
        (if-elim (AllJustified close rows) (ltb (length ms) 2) (λ t. all)
          (λ t. link_pairs-Justified close rows key ms edges (λ m k. g key m (first refl k)) all))

  -- Every edge that the image reducer emits is the ordered pair of the row ids of two rows of the
  -- bucket that have the same band key, and equal or close hashes.
  pub curate_image_dups_bucket-Justified :
      (rows : List (Row Key Sig)) (e : Edge)
      → Memᴰ e (curate_image_dups_bucket close rows)
      → Justified close rows e
  unfolding curate_image_dups_bucket
  curate_image_dups_bucket-Justified rows =
      link_images-Justified rows (group_rows 0 rows []) []
        (group_rows-Grouped close rows 0 rows [] (λ r k. k) (λ key m k. absurd (elim k [ ])))
        (λ e m. absurd (elim m [ ]))

  link_images-Extends :
      (d : Dict Key (List (Member Key Sig))) (edges : List Edge)
      → Extends edges (link_images close d edges)
  unfolding link_images
  link_images-Extends [] edges e k = k
  link_images-Extends ((key, ms) ∷ d) edges e k = link_images-Extends d _ e (
      if-elim (λ v. Memᴰ e v) (ltb (length ms) 2) (λ t. k)
        (λ t. link_pairs-Extends close ms edges e k))

  module _ (sym_close : (s t : Sig) → close s t ≡ close t s) where
    short_group :
        (ms : List (Member Key Sig)) (m o : Member Key Sig)
        → length ms < 2
        → Memᴰ m ms
        → Memᴰ o ms
        → m ≡ o
    short_group [] m o h k l = elim k [ ]
    short_group (n ∷ []) m o h k l = Memᴰ-single k ∙ sym (Memᴰ-single l)
    short_group (n ∷ n' ∷ ms) m o h k l = absurd (omega arith)

    link_images-links :
        (d : Dict Key (List (Member Key Sig))) (edges : List Edge) (key : Key)
        (m o : Member Key Sig)
        → IsDistinct d
        → InGroup key m d
        → InGroup key o d
        → close m.1.sig o.1.sig ≡ true
        → Connected (link_images close d edges) m.1.rid o.1.rid
    unfolding link_images
    link_images-links [] edges key m o apart k l h = elim k [ ]
    link_images-links ((j, ms) ∷ d) edges key m o apart (first e k) (first e' l) h =
        Connected-mono (link_images-Extends d _) (
          if-elim (λ v. Connected v m.1.rid o.1.rid) (ltb (length ms) 2)
            (λ t. same (
              ap (λ (v : Member Key Sig). v.1.rid)
                (short_group ms m o (ltb→lt (length ms) 2 t) k l)))
            (λ t. link_pairs-links close sym_close m o ms edges k l h))
    link_images-links ((j, ms) ∷ d) edges key m o apart (first e k) (later l) h =
        absurd (apart.0 o (subst (λ v. InGroup v o d) (sym e) l))
    link_images-links ((j, ms) ∷ d) edges key m o apart (later k) (first e l) h =
        absurd (apart.0 m (subst (λ v. InGroup v m d) (sym e) k))
    link_images-links ((j, ms) ∷ d) edges key m o apart (later k) (later l) h =
        link_images-links d _ key m o apart.1 k l h

    -- With a symmetric `close`, two rows of a bucket with the same band key and close hashes are
    -- connected by the edges that the image reducer emits.
    pub curate_image_dups_bucket-links :
        (rows : List (Row Key Sig)) (l r : Row Key Sig)
        → Memᴰ l rows
        → Memᴰ r rows
        → l.key ≡ r.key
        → close l.sig r.sig ≡ true
        → Connected (curate_image_dups_bucket close rows) l.rid r.rid
    unfolding curate_image_dups_bucket
    curate_image_dups_bucket-links rows l r kl kr e h =
        let (i, gl) = group_rows-groups 0 rows [] l kl in
        let (j, gr) = group_rows-groups 0 rows [] r kr in
        link_images-links (group_rows 0 rows []) [] l.key (i, l) (j, r)
          (group_rows-IsDistinct 0 rows [] tt) gl
          (subst (λ v. InGroup v (j, r) (group_rows 0 rows [])) (sym e) gr) h
