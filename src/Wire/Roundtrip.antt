-- ===== src/Wire/Roundtrip.antt =====
-- What the calls of Read hand out.
use mathlib.Core.List.{append_assoc}
use llm_cluster_router.Prelude.{
  ℕ, zero, suc, ◌+◌, ◌-◌, ◌≡◌, ◌≤◌, ◌<◌, ◌⊎◌, refl, sym, ◌∙◌, ap, subst, List, [], ◌∷◌, ◌++◌,
  length, take, drop, length-append, All, inl, inr, arith,
}
use llm_cluster_router.Wire.{
  Aead, nonce_size, write, Framer, Reader, FrameEvent, pending, refused_record, plaintext, reset,
  new_reader, Ending, times_out, stream_ends, Answer, tampered, got, bytes_of, end_read, accept,
  read_record, read, read_calls,
}
use llm_cluster_router.Wire.Records.{IsAead, plain_of, read_all, take_append_drop, write-read_all}

some_or_none : (bs : List ℕ) → (bs ≡ []) ⊎ (1 ≤ length bs)
some_or_none [] = inl refl
some_or_none (b ∷ bs) = inr (omega arith)

module _ (a : Aead) where
  -- The framing behind the bytes that are left, and the plaintext that a reader still has to give.
  abbrev left : Reader → List ℕ → Framer × List ℕ
  left r bs = let x = read_all a r.framer bs in (x.0, r.read_buf ++ x.1)

  -- The same behind a call, with what the call gave.
  abbrev given : Reader × List ℕ × Answer → Framer × List ℕ
  given (r, bs, answer) = let x = left r bs in (x.0, bytes_of answer ++ x.1)

  end_read-given :
      (end : Ending) (f : Framer) (t : ℕ)
      → f ≡ reset t
      → let x = end_read end f in given (record { framer = x.0; read_buf = [] }, [], x.1) ≡ (f, [])
  unfolding end_read read_all
  end_read-given times_out f t h = refl
  end_read-given stream_ends f t h =
      subst
        (λ g.
          let x = end_read stream_ends g in
          given (record { framer = x.0; read_buf = [] }, [], x.1) ≡ (g, []))
        (sym h) refl

  read_record-given :
      (end : Ending) (size : ℕ) (f : Framer) (bs : List ℕ) (t : ℕ)
      → (read_all a f bs).0 ≡ reset t
      → given (read_record a end size f bs) ≡ read_all a f bs
  unfolding read_record read_all
  read_record-given end size f [] t h = end_read-given end f t h
  read_record-given end size f (b ∷ bs) t h =
      go (accept a f.tamper_count f.framing b) h (λ g e. read_record-given end size g bs t e)
    where
      go :
          (x : Framer × FrameEvent)
          → (read_all a x.0 bs).0 ≡ reset t
          → ((g : Framer)
              → (read_all a g bs).0 ≡ reset t
              → given (read_record a end size g bs) ≡ read_all a g bs)
          → given (elim x.1 [
            | pending ↦ read_record a end size x.0 bs
            | refused_record ↦ (record { framer = x.0; read_buf = [] }, bs, tampered)
            | plaintext p ↦ (record { framer = x.0; read_buf = drop size p }, bs, got (take size p))
          ])
            ≡ (let rest = read_all a x.0 bs in (rest.0, plain_of x.1 ++ rest.1))
      go (g, pending) e rec = rec g e
      go (g, refused_record) e rec = refl
      go (g, plaintext p) e rec =
          let more = (read_all a g bs).1 in
          ap (λ l. ((read_all a g bs).0, l))
            (sym (append_assoc (take size p) (drop size p) more)
              ∙ ap (λ l. l ++ more) (take_append_drop size p))

  read-given :
      (end : Ending) (size : ℕ) (r : Reader) (bs : List ℕ) (t : ℕ)
      → (left r bs).0 ≡ reset t
      → given (read a end size r bs) ≡ left r bs
  unfolding read
  read-given end zero r bs t h = refl
  read-given end (suc m) r bs t h = go r.read_buf
    where
      go :
          (buf : List ℕ)
          → given (elim buf [
            | [] ↦ read_record a end (suc m) r.framer bs
            | p ∷ ps ↦
                (record r { read_buf = drop (suc m) (p ∷ ps) }, bs, got (take (suc m) (p ∷ ps)))
          ])
            ≡ ((read_all a r.framer bs).0, buf ++ (read_all a r.framer bs).1)
      go [] = read_record-given end (suc m) r.framer bs t h
      go (p ∷ ps) =
          let x = read_all a r.framer bs in
          ap (λ l. (x.0, l))
            (sym (append_assoc (take (suc m) (p ∷ ps)) (drop (suc m) (p ∷ ps)) x.1)
              ∙ ap (λ l. l ++ x.1) (take_append_drop (suc m) (p ∷ ps)))

  read_record-takes :
      (end : Ending) (size : ℕ) (f : Framer) (bs : List ℕ)
      → length (read_record a end size f bs).1 ≤ length bs - 1
  unfolding read_record
  read_record-takes end size f [] = omega arith
  read_record-takes end size f (b ∷ bs) =
      go (accept a f.tamper_count f.framing b) (λ g. read_record-takes end size g bs)
    where
      go :
          (x : Framer × FrameEvent)
          → ((g : Framer) → length (read_record a end size g bs).1 ≤ length bs - 1)
          → length
              (elim x.1 as (λ _. Reader × List ℕ × Answer) [
                | pending ↦ read_record a end size x.0 bs
                | refused_record ↦ (record { framer = x.0; read_buf = [] }, bs, tampered)
                | plaintext p ↦
                    (record { framer = x.0; read_buf = drop size p }, bs, got (take size p))
              ]).1
            ≤ suc (length bs) - 1
      go (g, pending) rec = omega (arith, rec g)
      go (g, refused_record) rec = omega arith
      go (g, plaintext p) rec = omega arith

  left-none : (r : Reader) (bs : List ℕ) → bs ≡ [] → r.read_buf ≡ [] → length (left r bs).1 ≡ 0
  unfolding read_all
  left-none r [] e f = ap (λ b. length (b ++ [])) f
  left-none r (b ∷ bs) e f = absurd (ground (arith, e))

  -- A call with a buffer takes a byte of the connection, or hands one out, while there are any.
  read-takes :
      (end : Ending) (size : ℕ) (r : Reader) (bs : List ℕ)
      → 0 < size
      → let (r', bs', answer) = read a end size r bs in
        (length bs' < length bs + length (bytes_of answer))
        ⊎ ((length bs' ≤ 0) × (bs ≡ []) × (r.read_buf ≡ []))
  unfolding read
  read-takes end zero r bs h = absurd (omega (arith, h))
  read-takes end (suc m) r bs h = go r.read_buf
    where
      go :
          (buf : List ℕ)
          → let (r', bs', answer) = (elim buf as (λ _. Reader × List ℕ × Answer) [
            | [] ↦ read_record a end (suc m) r.framer bs
            | p ∷ ps ↦
                (record r { read_buf = drop (suc m) (p ∷ ps) }, bs, got (take (suc m) (p ∷ ps)))
          ]) in
            (length bs' < length bs + length (bytes_of answer))
            ⊎ ((length bs' ≤ 0) × (bs ≡ []) × (buf ≡ []))
      go [] = elim (some_or_none bs) [
        | inl none_left ↦
            let none_taken = read_record-takes end (suc m) r.framer bs in
            inr (omega (arith, none_taken, ap (λ l. length l) none_left), none_left, refl)
        | inr some_left ↦ inl (omega (arith, read_record-takes end (suc m) r.framer bs, some_left))
      ]
      go (p ∷ ps) = inl (omega arith)

  -- The bytes on the connection and the plaintext still to come, as one number.
  abbrev load : Reader → List ℕ → ℕ
  load r bs = length bs + length (left r bs).1

  read-load :
      (end : Ending) (size : ℕ) (r : Reader) (bs : List ℕ) (t : ℕ)
      → 0 < size
      → (left r bs).0 ≡ reset t
      → let (r', bs', answer) = read a end size r bs in load r' bs' ≤ load r bs - 1
  read-load end size r bs t h e =
      let x = read a end size r bs in
      let out = bytes_of x.2 in
      let all : length out + length (left x.0 x.1).1 ≡ length (left r bs).1 =
        sym (length-append out (left x.0 x.1).1)
        ∙ ap (λ y. length y.1) (read-given end size r bs t e) in
      elim (read-takes end size r bs h) [
        | inl less ↦ omega (arith, all, less)
        | inr (taken, no_bytes, no_buf) ↦ omega (arith, all, taken, left-none r bs no_bytes no_buf)
      ]

  nothing_left :
      (r : Reader) (bs : List ℕ) (t : ℕ)
      → (left r bs).0 ≡ reset t
      → load r bs ≤ 0
      → ◌≡◌ {A = Reader × List ℕ × List ℕ} (r, bs, []) (new_reader t, [], (left r bs).1)
  unfolding read_all
  nothing_left r (b ∷ bs) t e m = absurd (omega (arith, m))
  nothing_left r [] t e m = go r.read_buf (omega (arith, m, length-append r.read_buf []))
    where
      go :
          (buf : List ℕ)
          → length buf ≤ 0
          → ◌≡◌ {A = Reader × List ℕ × List ℕ}
              (record { framer = r.framer; read_buf = buf }, [], [])
              (new_reader t, [], buf ++ [])
      go [] z = ap (λ f. (record { framer = f; read_buf = [] }, [], [])) e
      go (b ∷ bs) z = absurd (omega (arith, z))

  read_calls-left :
      (end : Ending) (sizes : List ℕ) (r : Reader) (bs : List ℕ) (t : ℕ)
      → All (λ s. 0 < s) sizes
      → (left r bs).0 ≡ reset t
      → load r bs ≤ length sizes
      → read_calls a end sizes r bs ≡ (new_reader t, [], (left r bs).1)
  unfolding read_calls
  read_calls-left end [] r bs t h e m = nothing_left r bs t e m
  read_calls-left end (s ∷ sizes) r bs t (positive, h) e m =
      let x = read a end s r bs in
      let same = read-given end s r bs t e in
      let rec =
        read_calls-left end sizes x.0 x.1 t h (ap (λ y. y.0) same ∙ e)
          (omega (arith, read-load end s r bs t positive e, m)) in
      ap (λ y. (y.0, y.1, bytes_of x.2 ++ y.2)) rec ∙ ap (λ y. (new_reader t, [], y.1)) same

module _ (a : Aead) (aead : IsAead a) (nonces : ℕ → List ℕ)
    (sized : (k : ℕ) → length (nonces k) ≡ nonce_size) where
  -- Whatever is written is read, in buffers of any sizes: for a cipher that opens what it sealed and adds
  -- its tag, the calls of Read on the bytes of one Write hand out exactly its bytes, however long they
  -- are, with nothing dropped where a buffer is smaller than a record; they count no tampered record,
  -- and the reader is ready for the next one. No buffer is empty, and the calls are as many as the bytes
  -- on the connection and the bytes written together, which is more than are needed.
  pub write-read :
      (end : Ending) (sizes : List ℕ) (t : ℕ) (p : List ℕ)
      → All (λ s. 0 < s) sizes
      → length (write a nonces p) + length p ≤ length sizes
      → read_calls a end sizes (new_reader t) (write a nonces p) ≡ (new_reader t, [], p)
  write-read end sizes t p h m =
      let all = write-read_all a aead nonces sized t p in
      let bs = write a nonces p in
      let size = ap (λ x. length x.1) all in
      read_calls-left a end sizes (new_reader t) bs t h (ap (λ x. x.0) all) (omega (arith, size, m))
      ∙ ap (λ x. (new_reader t, [], x.1)) all
