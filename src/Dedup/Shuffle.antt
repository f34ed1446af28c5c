-- ===== src/Dedup/Shuffle.antt =====
-- The routing of the shuffles in python/jude/runners/_ray_shim.py: `_det_hash`, and the
-- `num_buckets` lists that a producer fills and a reducer gathers.
use Prim.Native.Nat.{bit_xor}
use jude.Prelude.{
  ℕ, zero, suc, ◌≢◌, ◌*◌, ◌%◌, ◌^◌, ◌<◌, ◌≡◌, refl, sym, ◌⊎◌, inl, inr, List, [], ◌∷◌, ◌++◌, get_or,
  set, length, replicate, length-set, length-replicate, map, concat, arith, Memᴰ, Memᴰ-append,
  if◌then◌else◌, ◌==◌, true, false, Memᴰ-append_left, Memᴰ-append_right, Memᴰ-single, ℕ_discrete,
  subst, ap,
}

-- The 64-bit FNV-1a loop, over the bytes of `s.encode("utf-8")`.
hash_bytes : ℕ → List ℕ → ℕ
hash_bytes h [] = h
hash_bytes h (byte ∷ bytes) = hash_bytes ((bit_xor h byte * 0x100000001B3) % 2 ^ 64) bytes

unfoldable pub det_hash : List ℕ → ℕ
unfolding hash_bytes
det_hash bytes = hash_bytes 0xCBF29CE484222325 bytes

module _ {A : Type 0} where
  -- `buckets[bkt].append(row)`
  unfoldable pub push : ℕ → A → List (List A) → List (List A)
  push bkt row buckets = set buckets bkt (get_or buckets bkt [] ++ row ∷ [])

  -- `[[] for _ in range(num_buckets)]`
  unfoldable pub no_rows : ℕ → List (List A)
  no_rows num_buckets = replicate num_buckets []

  -- What a reducer gathers: `pa.concat_tables` of `[refs[p][bkt] for p in range(len(parts))]`.
  unfoldable pub gather : ℕ → List (List (List A)) → List A
  gather bkt outputs = concat (map (λ out. get_or out bkt []) outputs)

  -- The row is in that bucket.
  abbrev pub InBucket : ℕ → A → List (List A) → Type 0
  InBucket bkt row buckets = Memᴰ row (get_or buckets bkt [])

  pub length-push : (bkt : ℕ) (row : A) (bs : List (List A)) → length (push bkt row bs) ≡ length bs
  unfolding push
  length-push bkt row bs = length-set bs bkt _

  get_or-set_self :
      (bs : List (List A)) (i : ℕ) (v : List A) → i < length bs → get_or (set bs i v) i [] ≡ v
  get_or-set_self [] i v h = elim h [ ]
  get_or-set_self (b ∷ bs) zero v h = refl
  get_or-set_self (b ∷ bs) (suc i) v h = get_or-set_self bs i v (omega arith)

  get_or-set_ne :
      (bs : List (List A)) (i j : ℕ) (v : List A)
      → i ≢ j
      → get_or (set bs i v) j [] ≡ get_or bs j []
  get_or-set_ne [] i j v n = refl
  get_or-set_ne (b ∷ bs) zero zero v n = absurd (n refl)
  get_or-set_ne (b ∷ bs) zero (suc j) v n = refl
  get_or-set_ne (b ∷ bs) (suc i) zero v n = refl
  get_or-set_ne (b ∷ bs) (suc i) (suc j) v n = get_or-set_ne bs i j v (λ e. n (ap suc e))

  -- A bucket after a push.
  pub get_or-push :
      (bkt : ℕ) (row : A) (bs : List (List A)) (j : ℕ)
      → bkt < length bs
      → get_or (push bkt row bs) j []
        ≡ (if bkt == j then get_or bs j [] ++ row ∷ [] else get_or bs j [])
  unfolding push
  get_or-push bkt row bs j h = elim (ℕ_discrete bkt j) [
    | yes e ↦
        let t : (bkt == j) ≡ true = ground arith in
        rw t (
          subst
            (λ v.
              get_or (set bs bkt (get_or bs bkt [] ++ row ∷ [])) v [] ≡ get_or bs v [] ++ row ∷ [])
            e (get_or-set_self bs bkt _ h))
    | no n ↦ let t : (bkt == j) ≡ false = ground arith in rw t (get_or-set_ne bs bkt j _ n)
  ]

  pub InBucket-push_self :
      (bkt : ℕ) (row : A) (bs : List (List A))
      → bkt < length bs
      → InBucket bkt row (push bkt row bs)
  unfolding push
  InBucket-push_self bkt row bs h =
      rw (get_or-set_self bs bkt _ h) (Memᴰ-append_right (get_or bs bkt []) (Memᴰ.head refl))

  pub InBucket-push_old :
      (bkt : ℕ) (row : A) (bs : List (List A)) (j : ℕ) {r : A}
      → bkt < length bs
      → InBucket j r bs
      → InBucket j r (push bkt row bs)
  unfolding push
  InBucket-push_old bkt row bs j {r} h m = elim (ℕ_discrete bkt j) [
    | yes e ↦
        subst (λ v. InBucket v r (push bkt row bs)) e
          (rw (get_or-set_self bs bkt _ h)
            (Memᴰ-append_left (row ∷ []) (subst (λ v. InBucket v r bs) (sym e) m)))
    | no n ↦ rw (get_or-set_ne bs bkt j _ n) m
  ]

  pub InBucket-push :
      (bkt : ℕ) (row : A) (bs : List (List A)) (j : ℕ) {r : A}
      → bkt < length bs
      → InBucket j r (push bkt row bs)
      → ((bkt ≡ j) × (r ≡ row)) ⊎ InBucket j r bs
  unfolding push
  InBucket-push bkt row bs j {r} h m = elim (ℕ_discrete bkt j) [
    | yes e ↦
        let m' : InBucket bkt r (push bkt row bs) =
          subst (λ v. InBucket v r (push bkt row bs)) (sym e) m in
        elim (Memᴰ-append (get_or bs bkt []) (rw (get_or-set_self bs bkt _ h) at m')) [
          | inl old ↦ inr (subst (λ v. InBucket v r bs) e old)
          | inr new ↦ inl (e, Memᴰ-single new)
        ]
    | no n ↦ inr (rw (get_or-set_ne bs bkt j _ n) at m)
  ]

  pub InBucket-no_rows : (n j : ℕ) {r : A} → ¬ InBucket j r (no_rows n)
  unfolding no_rows
  InBucket-no_rows zero j m = elim m [ ]
  InBucket-no_rows (suc n) zero m = elim m [ ]
  InBucket-no_rows (suc n) (suc j) m = InBucket-no_rows n j m

  -- A row is gathered from the bucket of some output, and from no other.
  pub Memᴰ-gather :
      (bkt : ℕ) (outs : List (List (List A))) {r : A}
      → Memᴰ r (gather bkt outs)
      → (out : List (List A)) × Memᴰ out outs × InBucket bkt r out
  unfolding gather
  Memᴰ-gather bkt [] m = absurd (elim m [ ])
  Memᴰ-gather bkt (out ∷ outs) m = elim (Memᴰ-append (get_or out bkt []) m) [
    | inl l ↦ (out, Memᴰ.head refl, l)
    | inr r ↦ let (o, k, n) = Memᴰ-gather bkt outs r in (o, Memᴰ.tail k, n)
  ]

  pub Memᴰ_of_gather :
      (bkt : ℕ) (outs : List (List (List A))) {r : A} {out : List (List A)}
      → Memᴰ out outs
      → InBucket bkt r out
      → Memᴰ r (gather bkt outs)
  unfolding gather
  Memᴰ_of_gather bkt [] k m = elim k [ ]
  Memᴰ_of_gather bkt (o ∷ outs) {r} (Memᴰ.head e) m =
      Memᴰ-append_left _ (subst (λ v. InBucket bkt r v) e m)
  Memᴰ_of_gather bkt (o ∷ outs) (Memᴰ.tail k) m =
      Memᴰ-append_right (get_or o bkt []) (Memᴰ_of_gather bkt outs k m)

pub length-no_rows : (A : Type 0) (n : ℕ) → length (no_rows {A = A} n) ≡ n
unfolding no_rows
length-no_rows A n = length-replicate n []
