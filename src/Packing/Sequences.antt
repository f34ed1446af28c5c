-- ===== src/Packing/Sequences.antt =====
-- What `pack_sequences` of python/jude/tokenize.py keeps of its documents, against the stream of
-- their tokens, each with the document that it comes from.
use jude.Prelude.{
  length-zip, zip, zip-append, zip-drop, zip-map, zip-replicate, zip-take, ℕ, zero, suc, ◌+◌, ◌-◌,
  ◌≤◌, ◌<◌, ◌≡◌, refl, sym, ap, ap₂, ◌∙◌, Bool, true, false, Option, none, some, List, [], ◌∷◌,
  ◌++◌, length, map, take, drop, concat, replicate, min, if-elim, if◌then◌else◌, ltb, ltb→lt, arith,
  subst, ℤ, pos, negsuc, drop-all, take-all, All, All-of_mem, length-take, length-drop,
  length-append, length-replicate, append_assoc, append-nil, Memᴰ,
}
use jude.Packing.{range_step, slice, all_tok, all_doc, Packed, windows, pack_sequences}
use jude.Packing.Slices.{slice-append-drop}

range_step-end : (fuel start stop step : ℕ) → stop ≤ start → range_step fuel start stop step ≡ []
unfolding range_step
range_step-end zero start stop step h = refl
range_step-end (suc fuel) start stop step h = ground arith

module _ {Token : Type 0} where
  -- The tokens of the documents in order, each with the index of its document.
  abbrev pub stream : ℕ → List (Option (List Token)) → List (Token × ℤ)
  stream di [] = []
  stream di (none ∷ docs) = stream (suc di) docs
  stream di (some ids ∷ docs) = map (λ t. (t, pos di)) ids ++ stream (suc di) docs

  -- The positions of a packed sequence.
  abbrev pub cells : Packed Token → List (Token × ℤ)
  cells p = zip p.input_ids p.doc_ids

  -- A packed sequence that is exactly one window long.
  abbrev pub IsWindow : ℕ → Packed Token → Type 0
  IsWindow seq_len p = (length p.input_ids ≡ seq_len) × (length p.doc_ids ≡ seq_len)

  length-all_doc :
      (di : ℕ) (docs : List (Option (List Token)))
      → length (all_tok docs) ≡ length (all_doc di docs)
  unfolding all_tok all_doc
  length-all_doc di [] = refl
  length-all_doc di (none ∷ docs) = length-all_doc (suc di) docs
  length-all_doc di (some ids ∷ docs) = omega (
    arith,
    length-all_doc (suc di) docs,
    length-append ids (all_tok docs),
    length-append (replicate (length ids) (pos di)) (all_doc (suc di) docs),
    length-replicate (length ids) (pos di),
  )

  zip-stream :
      (di : ℕ) (docs : List (Option (List Token)))
      → zip (all_tok docs) (all_doc di docs) ≡ stream di docs
  unfolding all_tok all_doc
  zip-stream di [] = refl
  zip-stream di (none ∷ docs) = zip-stream (suc di) docs
  zip-stream di (some ids ∷ docs) =
      zip-append ids (all_tok docs) (replicate (length ids) (pos di)) (all_doc (suc di) docs)
        (sym (length-replicate (length ids) (pos di)))
      ∙ ap₂ (λ l r. l ++ r) (zip-map ids (pos di)) (zip-stream (suc di) docs)

  module _ (seq_len : ℕ) (positive : 0 < seq_len) (pad_id : Token) (toks : List Token)
      (docs : List ℤ) (parallel : length toks ≡ length docs) where
    slice-cells :
        (i : ℕ)
        → zip (slice i seq_len toks) (slice i seq_len docs) ≡ slice i seq_len (zip toks docs)
    slice-cells i =
        zip-take seq_len (drop i toks) (drop i docs)
        ∙ ap (λ v. take seq_len v) (zip-drop i toks docs parallel)

    length-slice : (i : ℕ) → length (slice i seq_len toks) ≡ min seq_len (length toks - i)
    length-slice i = omega (arith, length-take seq_len (drop i toks), length-drop i toks)

    slice-parallel : (i : ℕ) → length (slice i seq_len toks) ≡ length (slice i seq_len docs)
    slice-parallel i =
        omega (arith, length-slice i, length-take seq_len (drop i docs), length-drop i docs)

    -- With `drop_remainder`, less than one window of the stream is left out.
    windows-dropped :
        (fuel start : ℕ)
        → length toks ≤ start + fuel
        → (rest : List (Token × ℤ)) × (concat (
                map cells (
                  windows seq_len true pad_id toks docs
                    (range_step fuel start (length toks) seq_len)))
              ++ rest
            ≡ drop start (zip toks docs))
          × (length rest < seq_len)
    unfolding windows range_step
    windows-dropped zero start l = (
      [],
      sym (drop-all start (zip toks docs) (omega (arith, length-zip toks docs parallel))),
      positive,
    )
    windows-dropped (suc fuel) start l =
        let z = zip toks docs in
        let size = length-zip toks docs parallel in
        let Goal = λ (ps : List (Packed Token)).
          (rest : List (Token × ℤ)) × (concat (map cells ps) ++ rest ≡ drop start z)
          × (length rest < seq_len) in
        if-elim (λ ss. Goal (windows seq_len true pad_id toks docs ss)) (ltb start (length toks))
          (λ t.
            if-elim Goal (ltb (length (slice start seq_len toks)) seq_len)
              (λ short. (
                drop start z,
                refl,
                omega (
                  arith,
                  ltb→lt (length (slice start seq_len toks)) seq_len short,
                  length-slice start,
                  length-drop start z,
                ),
              ))
              (λ full.
                let (rest, e, b) = windows-dropped fuel (start + seq_len) (omega arith) in
                (
                  rest,
                  append_assoc (zip (slice start seq_len toks) (slice start seq_len docs)) _ rest
                      ∙ ap₂ (λ u v. u ++ v) (slice-cells start) e
                      ∙ slice-append-drop start seq_len z,
                  b,
                )))
          (λ t. ([], sym (drop-all start z (ground (arith, size))), positive))

    -- Without it, the stream is filled up with less than one window of padding.
    windows-padded :
        (fuel start : ℕ)
        → length toks ≤ start + fuel
        → (k : ℕ) × (concat (
              map cells (
                windows seq_len false pad_id toks docs
                  (range_step fuel start (length toks) seq_len)))
            ≡ drop start (zip toks docs) ++ replicate k (pad_id, negsuc 0))
          × (k < seq_len)
    unfolding windows range_step
    windows-padded zero start l = (
      0,
      sym (
          append-nil (drop start (zip toks docs))
          ∙ drop-all start (zip toks docs) (omega (arith, length-zip toks docs parallel))),
      positive,
    )
    windows-padded (suc fuel) start l =
        let z = zip toks docs in
        let size = length-zip toks docs parallel in
        let pad : Token × ℤ = (pad_id, negsuc 0) in
        let Goal = λ (ps : List (Packed Token)).
          (k : ℕ) × (concat (map cells ps) ≡ drop start z ++ replicate k pad) × (k < seq_len) in
        if-elim (λ ss. Goal (windows seq_len false pad_id toks docs ss)) (ltb start (length toks))
          (λ t.
            if-elim Goal (ltb (length (slice start seq_len toks)) seq_len)
              (λ short.
                let chunk = slice start seq_len toks in
                let dchunk = slice start seq_len docs in
                let few = ltb→lt (length chunk) seq_len short in
                let k = seq_len - length chunk in
                let last : range_step fuel (start + seq_len) (length toks) seq_len ≡ [] =
                  range_step-end fuel (start + seq_len) (length toks) seq_len
                    (omega (arith, length-slice start)) in
                let short_docs : seq_len - length dchunk ≡ k =
                  omega (arith, slice-parallel start) in
                let whole : slice start seq_len z ≡ drop start z =
                  take-all seq_len (drop start z)
                    (omega (arith, length-slice start, length-drop start z)) in
                (
                  k,
                  ap₂
                        (λ u v.
                          zip (chunk ++ replicate k pad_id) (dchunk ++ replicate v (negsuc 0))
                          ++ concat (map cells (windows seq_len false pad_id toks docs u)))
                        last short_docs
                      ∙ append-nil _
                      ∙ zip-append chunk (replicate k pad_id) dchunk (replicate k (negsuc 0))
                          (slice-parallel start)
                      ∙ ap₂ (λ u v. u ++ v) (slice-cells start ∙ whole)
                          (zip-replicate k pad_id (negsuc 0)),
                  omega (arith, length-slice start, ltb→lt start (length toks) t),
                ))
              (λ full.
                let (k, e, b) = windows-padded fuel (start + seq_len) (omega arith) in
                (
                  k,
                  ap₂ (λ u v. u ++ v) (slice-cells start) e
                      ∙ sym (
                          append_assoc (slice start seq_len z) (drop (start + seq_len) z)
                            (replicate k pad))
                      ∙ ap (λ v. v ++ replicate k pad) (slice-append-drop start seq_len z),
                  b,
                )))
          (λ t. (
            0,
            sym (append-nil (drop start z) ∙ drop-all start z (ground (arith, size))),
            positive,
          ))

    windows-IsWindow :
        (drop_remainder : Bool) (starts : List ℕ) {p : Packed Token}
        → Memᴰ p (windows seq_len drop_remainder pad_id toks docs starts)
        → IsWindow seq_len p
    unfolding windows
    windows-IsWindow drop_remainder [] m = absurd (elim m [ ])
    windows-IsWindow drop_remainder (i ∷ starts) {p} m =
        let Goal = λ (ps : List (Packed Token)). Memᴰ p ps → IsWindow seq_len p in
        let chunk = slice i seq_len toks in
        let dchunk = slice i seq_len docs in
        let later = windows-IsWindow drop_remainder starts {p = p} in
        let same = slice-parallel i in
        let bound = length-slice i in
        let padded : Packed Token = record {
          input_ids = chunk ++ replicate (seq_len - length chunk) pad_id;
          doc_ids = dchunk ++ replicate (seq_len - length dchunk) (negsuc 0);
        } in
        let cut : Packed Token = record { input_ids = chunk; doc_ids = dchunk } in
        let rest = windows seq_len drop_remainder pad_id toks docs starts in
        let one = λ (q : Packed Token) (window : IsWindow seq_len q) (n : Memᴰ p (q ∷ rest)).
          one_or q rest window later n in
        if-elim Goal (ltb (length chunk) seq_len)
          (λ short.
            if-elim Goal drop_remainder (λ y n. elim n [ ])
              (λ y. one padded (
                omega (
                  arith,
                  ltb→lt (length chunk) seq_len short,
                  length-append chunk (replicate (seq_len - length chunk) pad_id),
                  length-replicate (seq_len - length chunk) pad_id,
                ),
                omega (
                  arith,
                  ltb→lt (length chunk) seq_len short,
                  length-append dchunk (replicate (seq_len - length dchunk) (negsuc 0)),
                  length-replicate (seq_len - length dchunk) (negsuc 0),
                ),
              )))
          (λ full. one cut (ground arith, ground arith)) m
      where
        one_or :
            (q : Packed Token) (rest : List (Packed Token))
            → IsWindow seq_len q
            → (Memᴰ p rest → IsWindow seq_len p)
            → Memᴰ p (q ∷ rest)
            → IsWindow seq_len p
        one_or q rest window later (Memᴰ.head e) = subst (IsWindow seq_len) (sym e) window
        one_or q rest window later (Memᴰ.tail k) = later k

  -- Cutting the documents into windows of a positive `seq_len` gives sequences of exactly that
  -- length which hold the stream of the tokens in order, each position with the document that its
  -- token comes from: with `drop_remainder` all of it but less than a window at the end, else all of
  -- it and less than a window of padding, with the document -1, at the end.
  pub pack_sequences-stream :
      (table : List (Option (List Token))) (seq_len : ℕ) (drop_remainder : Bool) (pad_id : Token)
      → 0 < seq_len
      → (packed : List (Packed Token)) × (rest : List (Token × ℤ)) × (k : ℕ) × (pack_sequences table
            seq_len drop_remainder pad_id
          ≡ some packed)
        × (concat (map cells packed) ++ rest ≡ stream 0 table ++ replicate k (pad_id, negsuc 0))
        × (length rest < seq_len)
        × (k < seq_len)
        × (if drop_remainder then k ≡ 0 else length rest ≡ 0)
        × All (IsWindow seq_len) packed
  unfolding pack_sequences
  pack_sequences-stream table seq_len true pad_id h =
      let toks = all_tok table in
      let docs = all_doc 0 table in
      let parallel = length-all_doc 0 table in
      let starts = range_step (length toks) 0 (length toks) seq_len in
      let (rest, e, b) =
        windows-dropped seq_len h pad_id toks docs parallel (length toks) 0 (omega arith) in
      (
        windows seq_len true pad_id toks docs starts,
        rest,
        0,
        ground arith,
        e ∙ zip-stream 0 table ∙ sym (append-nil (stream 0 table)),
        b,
        h,
        refl,
        All-of_mem _ (λ p m. windows-IsWindow seq_len h pad_id toks docs parallel true starts m),
      )
  pack_sequences-stream table seq_len false pad_id h =
      let toks = all_tok table in
      let docs = all_doc 0 table in
      let parallel = length-all_doc 0 table in
      let starts = range_step (length toks) 0 (length toks) seq_len in
      let (k, e, b) =
        windows-padded seq_len h pad_id toks docs parallel (length toks) 0 (omega arith) in
      (
        windows seq_len false pad_id toks docs starts,
        [],
        k,
        ground arith,
        append-nil _ ∙ e ∙ ap (λ v. v ++ replicate k (pad_id, negsuc 0)) (zip-stream 0 table),
        h,
        b,
        refl,
        All-of_mem _ (λ p m. windows-IsWindow seq_len h pad_id toks docs parallel false starts m),
      )
