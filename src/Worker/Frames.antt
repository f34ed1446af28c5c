-- ===== src/Worker/Frames.antt =====
-- Frames that are written and then read, for python/jude/execution/_worker.py.
use jude.Prelude.{
  ℕ, zero, suc, ◌+◌, ◌-◌, ◌/◌, ◌%◌, ◌≡◌, ◌≤◌, ◌<◌, refl, sym, ap, ◌∙◌, inl, inr, false, some, List,
  [], ◌∷◌, ◌++◌, length, take, drop, if-elim, ltb, leb, ◌==◌, ◌>>=◌, arith, subst, append_assoc,
  append-nil, length-append, length-take, length-drop, ap₂, take-append_left, drop-append_left,
  take-append-drop, >>=-eq-some, Bool-cases,
}
use jude.Worker.{
  ctrl, pack, unpack, read_more, read_exact, read_payload, read_length, read_body, read_frame,
  write_frame, write_ctrl,
}

-- A read of a stream that has not ended gives a byte at least, and no more than was asked for.
abbrev pub Reads : (List ℕ → ℕ → ℕ) → Type 0
Reads got =
    (byte : ℕ) (stream : List ℕ) (n : ℕ)
    → 0 < n
    → (0 < got (byte ∷ stream) n) × (got (byte ∷ stream) n ≤ n)

pub unpack-pack :
    (n : ℕ) (bytes : List ℕ) → pack n ≡ some bytes → (unpack bytes ≡ some n) × (length bytes ≡ 4)
unfolding pack unpack
unpack-pack n bytes h = elim (Bool-cases (ltb n 0x100000000)) [
  | inl y ↦
      let q : bytes ≡ n % 256 ∷ n / 256 % 256 ∷ n / 65536 % 256 ∷ n / 16777216 ∷ [] =
        ground arith in
      rw q (ap some (omega arith), refl)
  | inr f ↦ absurd (ground arith)
]

module _ (got : List ℕ → ℕ → ℕ) (reads : Reads got) where
  read_more-append :
      (fuel : ℕ) (bytes rest buf : List ℕ)
      → length bytes ≤ fuel
      → read_more got fuel (bytes ++ rest) (length buf + length bytes) buf
        ≡ some (buf ++ bytes, rest)
  unfolding read_more
  read_more-append zero [] rest buf h =
      if-elim (λ v. v ≡ some (buf ++ [], rest)) (leb (length buf + 0) (length buf))
        (λ t. ap (λ v. some (v, rest)) (sym (append-nil buf))) (λ t. absurd (ground arith))
  read_more-append zero (x ∷ bytes) rest buf h = absurd (omega arith)
  read_more-append (suc fuel) [] rest buf h =
      if-elim (λ v. v ≡ some (buf ++ [], rest)) (leb (length buf + 0) (length buf))
        (λ t. ap (λ v. some (v, rest)) (sym (append-nil buf))) (λ t. absurd (ground arith))
  read_more-append (suc fuel) (x ∷ bytes) rest buf h =
      let all = x ∷ bytes in
      let n = length buf + length all in
      let k = got (all ++ rest) (n - length buf) in
      let (pos, le) = reads x (bytes ++ rest) (n - length buf) (omega arith) in
      let fits : k ≤ length all = omega arith in
      let size = length-take k all in
      let parts : length (buf ++ take k all) + length (drop k all) ≡ n =
        omega (arith, length-append buf (take k all), length-drop k all) in
      let taken = take-append_left k all rest fits in
      let ih =
        read_more-append fuel (drop k all) rest (buf ++ take k all)
          (omega (arith, length-drop k all)) in
      let result : buf ++ all ≡ (buf ++ take k all) ++ drop k all =
        ap (λ v. buf ++ v) (sym (take-append-drop k all))
        ∙ sym (append_assoc buf (take k all) (drop k all)) in
      if-elim (λ v. v ≡ some (buf ++ all, rest)) (leb n (length buf)) (λ t. absurd (ground arith))
        (λ t.
          if-elim (λ v. v ≡ some (buf ++ all, rest)) (length (take k (all ++ rest)) == 0)
            (λ z.
              let none_taken : length (take k all) ≡ 0 =
                subst (λ v. length v ≡ 0) taken (ground arith) in
              absurd (omega (arith, none_taken)))
            (λ z.
              ap₂ (λ u v. read_more got fuel u n (buf ++ v)) (drop-append_left k all rest fits)
                taken
              ∙ ap (λ v. read_more got fuel (drop k all ++ rest) v (buf ++ take k all)) (sym parts)
              ∙ ih
              ∙ ap (λ v. some (v, rest)) (sym result)))

  read_exact-append :
      (bytes rest : List ℕ) → read_exact got (bytes ++ rest) (length bytes) ≡ some (bytes, rest)
  unfolding read_exact
  read_exact-append bytes rest =
      subst (λ v. read_more got (length bytes) (bytes ++ rest) v [] ≡ some (bytes, rest))
        (omega arith) (read_more-append (length bytes) bytes rest [] (omega arith))

  read_length-pack :
      (n : ℕ) (bytes rest : List ℕ)
      → pack n ≡ some bytes
      → read_length got (bytes ++ rest) ≡ some (n, rest)
  unfolding read_length
  read_length-pack n bytes rest h =
      let (un, four) = unpack-pack n bytes h in
      let runs =
        subst (λ v. read_exact got (bytes ++ rest) v ≡ some (bytes, rest)) four
          (read_exact-append bytes rest) in
      rw (runs, un) refl

  read_frame-payload :
      (header payload rest : List ℕ)
      → length payload < ctrl
      → pack (length payload) ≡ some header
      → read_frame got (header ++ (payload ++ rest)) ≡ some ((length payload, payload), rest)
  unfolding read_frame read_body read_payload
  read_frame-payload header payload rest small packed =
      let first = read_length-pack (length payload) header (payload ++ rest) packed in
      let body = read_exact-append payload rest in
      let other : (length payload == ctrl) ≡ false = ground arith in rw (first, other, body) refl

  read_frame-ctrl :
      (header size payload rest : List ℕ)
      → pack ctrl ≡ some header
      → pack (length payload) ≡ some size
      → read_frame got (header ++ (size ++ (payload ++ rest))) ≡ some ((ctrl, payload), rest)
  unfolding read_frame read_body read_payload
  read_frame-ctrl header size payload rest packed sized =
      let first = read_length-pack ctrl header (size ++ (payload ++ rest)) packed in
      let second = read_length-pack (length payload) size (payload ++ rest) sized in
      let body = read_exact-append payload rest in rw (first, second, body) refl

  -- A data frame of less than 2 ^ 32 - 1 bytes that is written is read back with its length, and the
  -- rest of the stream is left, however many bytes each read returns.
  pub read_frame-write_frame :
      (payload rest bytes : List ℕ)
      → length payload < ctrl
      → write_frame payload ≡ some bytes
      → read_frame got (bytes ++ rest) ≡ some ((length payload, payload), rest)
  unfolding write_frame
  read_frame-write_frame payload rest bytes small h =
      let (header, packed, e) =
        >>=-eq-some (pack (length payload)) (λ header. some (header ++ payload)) h in
      let q : header ++ payload ≡ bytes = cc in
      subst (λ v. read_frame got v ≡ some ((length payload, payload), rest))
        (sym (append_assoc header payload rest) ∙ ap (λ v. v ++ rest) q)
        (read_frame-payload header payload rest small packed)

  -- A control frame that is written is read back as one, and the rest of the stream is left, however
  -- many bytes each read returns.
  pub read_frame-write_ctrl :
      (payload rest bytes : List ℕ)
      → write_ctrl payload ≡ some bytes
      → read_frame got (bytes ++ rest) ≡ some ((ctrl, payload), rest)
  unfolding write_ctrl
  read_frame-write_ctrl payload rest bytes h =
      let (header, packed, h') =
        >>=-eq-some (pack ctrl)
          (λ header. pack (length payload) >>= λ size. some (header ++ size ++ payload)) h in
      let (size, sized, e) =
        >>=-eq-some (pack (length payload)) (λ size. some (header ++ size ++ payload)) h' in
      let q : header ++ size ++ payload ≡ bytes = cc in
      let split : header ++ (size ++ (payload ++ rest)) ≡ bytes ++ rest =
        sym (append_assoc header size (payload ++ rest))
        ∙ sym (append_assoc (header ++ size) payload rest)
        ∙ ap (λ v. v ++ rest) q in
      subst (λ v. read_frame got v ≡ some ((ctrl, payload), rest)) split
        (read_frame-ctrl header size payload rest packed sized)
